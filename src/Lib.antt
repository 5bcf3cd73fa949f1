-- ===== src/Lib.antt =====
-- A model of librocks.dll, a C++ layer over RocksDB: a store of kinds (column families), persistent
-- queues on top of it, a C++ client, and a logger.
--
-- The parts, with their sources from the root of the repository:
--   Status              include/api/StatusCode.h; `assign` of include/impl/utils.h
--   Kind                include/impl/KindImpl.h, src/impl/KindImpl.cpp, include/impl/SameType.h
--   Engine              what the code calls of RocksDB and of the steady clock, as the parameter
--                       `Engine`; Engine.Laws states what it relies on, and Engine.Memory is an
--                       engine that meets the laws
--   Store               include/impl/StoreImpl.h, src/impl/StoreImpl.cpp: State (the fields, the
--                       transactions, the syncs, validateOpen), Write (put, remove, singleRemove,
--                       removeRange), Read (get, findMinKey, findMaxKey), Update (the IfPresent
--                       operations, putIfAbsent), Maintain (syncWAL, flush, compact, close), Kinds
--                       (the KindManager), Open (the constructor, open_, openDatabase).
--                       Its proofs stand in Frame (what the private helpers leave alone, and the
--                       invariant IsValid of a store), Syncing, Outcome and Writes, Reads and Ends,
--                       Updates and Absent, Ranges, RoundTrip, Families, Opened and Opening,
--                       Closing, Compacting, Reachable
--   Codec               putU64BE and getU64BE of include/impl/KueueImpl.h
--   Kueue               include/impl/KueueImpl.h: State, Operations, Recover (the constructor).
--                       Contents and IsQueue say when a store holds the messages of a queue; Fifo,
--                       Take, Peek, Drain, Clear, EmptyErase, Recovered, Constructed, Reopen, Fresh
--                       and Created are about the operations; Run is the abstract queue. Threads
--                       has the same operations in steps, interleaved: Threads.State, Labels, Step
--                       and Removals are the model, Numbers, Moves, Keys, Contents, Calls,
--                       Invariant, First, Puts, Takes, Erases, Clears and Preserved what every step
--                       keeps, Runs and Order the order of the messages, Progress, Rest, Weight and
--                       Settling how threads come to rest, Restart the constructor after they were
--                       stopped, Attended, Wakeup and Forgotten the wake-ups
--   Manager             include/impl/KueueManagerImpl.h and src/impl/librocks.cpp: Defs; Opening,
--                       Getting and Closing are the proofs
--   Client              src/client/KVStore.cpp, RocksException.cpp and bytes.cpp
--   Logger              include/impl/SimpleLogger.h, src/impl/SimpleLogger.cpp, src/impl/utils.cpp:
--                       Defs; Lines (what is in a line) and Output are the proofs
--
-- An operation is a function from the state to a result and a new state, or to `none` where the
-- behaviour is undefined (a null pointer is read, a deleted buffer is used). An `int* status` or a
-- `size_t* resultLen` is null or the value of its cell, taken and given back; a `char*` with its
-- length is null or a list of bytes. A queue calls the store that it was built on, the manager holds
-- the store and the queues, and the client throws on the codes that it does not expect. A
-- reference to a kind is the kind's value: its use after the store was closed, when the object is
-- gone, is no fault here.
--
-- Every operation that takes a mutex is one step, and a take that has to wait returns `waiting`; but
-- in Kueue.Threads, where a step is one access to what the threads of a queue share: the keys, the
-- count, the store, the locks and the condition variable. A call of the store is one step there, as
-- the monitor of the store makes it. A timeout may end whenever a call waits. Among threads,
-- erase is called with keys that readNext returned, as its first test, without the lock, needs.
-- Machine words are numbers with the wrap-around written out, and memory is little-endian. The loop
-- of clear runs on fuel: the count at its start, since each round that goes on lowers the count by
-- one. Decimal digits run on the fuel 10, enough for a long of 32 bits.
--
-- Not modelled: the interleaving of threads in the logger, the contents of the options that RocksDB
-- takes but the code does not set, the log lines that open_ writes, and the test program. Windows is
-- the parameter `Host` of the logger.
pub mod Prelude
pub mod Status
pub mod Engine
pub mod Kind
pub mod Store
pub mod Codec
pub mod Kueue
pub mod Manager
pub mod Client
pub mod Logger
