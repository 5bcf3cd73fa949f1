-- ===== src/Kueue/Threads/State.antt =====
-- What the threads of a queue share, and where those stand that hold a lock. A thread that only wants
-- a lock has changed nothing yet, and is not listed. The status and length pointers of a call are its
-- own: the steps take them as they come.
use librocks_dll.Prelude.{ℕ, Bool, false, not, Option, List}
use librocks_dll.Prelude.Tests.{ltb, ◌==◌}
use librocks_dll.Prelude.Text.{Text}
use librocks_dll.Kueue.State.{KueueImpl, is_positive}
use librocks_dll.Store.State.{Sys}

-- The calls that wait for a message; a timeout of 0 stands for every one that is not positive.
pub data Waiter : Type 0 where
  take : Waiter
  take_timed : ℕ → Waiter
  read_next : ℕ → Waiter

-- the condition under which a call goes on
abbrev pub goes_on : Waiter → ℕ → Bool
goes_on take count = not (count == 0)
goes_on (take_timed timeout) count = is_positive count
goes_on (read_next timeout) count = is_positive count

abbrev pub has_deadline : Waiter → Bool
has_deadline take = false
has_deadline (take_timed timeout) = ltb 0 timeout
has_deadline (read_next timeout) = ltb 0 timeout

-- The holder of putLock. `none` as a count is the initial -1 of `c`.
pub data PutSide : Type 0 where
  put_free : PutSide
  claimed : Text → ℕ → PutSide  -- before store->put, with the key that maxKey++ gave
  stored : PutSide  -- before fetch_add
  refused : PutSide  -- before --maxKey
  put_leaving : Option ℕ → PutSide  -- at the end of the block of putLock
  clear_waits : PutSide  -- clear, before it has takeLock
  clear_inside : PutSide  -- clear, with both locks

-- The holder of takeLock.
pub data TakeSide : Type 0 where
  take_free : TakeSide
  signalling : TakeSide  -- a put, in signalNotEmpty
  testing : Waiter → TakeSide  -- before the condition of the wait
  expired : Waiter → TakeSide  -- the same, when the timeout is over
  chosen : Waiter → TakeSide  -- before the call of the store
  removed : TakeSide  -- before ++minKey
  advanced : TakeSide  -- before fetch_sub
  erasing : ℕ → TakeSide  -- erase, before `key == minKey`
  erase_chosen : TakeSide  -- erase, before the call of the store
  take_leaving : Option ℕ → TakeSide  -- before `if (c > 1LL)`
  clear_testing : TakeSide  -- clear, before the condition of its loop
  clear_chosen : TakeSide  -- before the call of the store
  clear_removed : TakeSide  -- before ++minKey
  clear_advanced : TakeSide  -- before fetch_sub

-- `signals` counts the puts that have left putLock and will call signalNotEmpty, `waiting` are the
-- calls in notEmpty.wait, and `woken` those that were notified there and want takeLock again.
-- `read_keys` are the keys that readNext has returned, which its callers know.
pub record Shared (W : Type 0) : Type 0 where
  pub queue : KueueImpl
  pub sys : Sys W
  pub put_side : PutSide
  pub take_side : TakeSide
  pub signals : ℕ
  pub waiting : List Waiter
  pub woken : List Waiter
  pub read_keys : List ℕ
