-- ===== src/Client/Tests.antt =====
-- The client on a store in memory, and buffers in a small heap.
use librocks_dll.Prelude.{ℕ, true, false, none, some, List, [], ◌∷◌, ◌≡◌, ◌≢◌, refl, arith}
use librocks_dll.Prelude.Tests.{◌==◌, if◌then◌else◌}
use librocks_dll.Prelude.Text.{codes, c_str}
use librocks_dll.Prelude.Action.{Returns}
use librocks_dll.Status
use librocks_dll.Engine.Memory.{Memory, memory, memory_laws, fresh_memory}
use librocks_dll.Kind.{KindImpl, kind_impl}
use librocks_dll.Store.Open.{store_options}
use librocks_dll.Store.Frame.{IsValid}
use librocks_dll.Store.Reads
use librocks_dll.Store.State.{Reply}
use librocks_dll.Client.KvStore.Defs
use librocks_dll.Client.KvStore.Defs.{ClientSys, throw_for_status, text_of, value_of}
use librocks_dll.Client.KvStore.Throws.{
  Answers, get-Answers, single_remove_call, run_write, WriteReported, write_call-Reports,
}
use librocks_dll.Client.KvStore.Sorted.{stored, IsSetOf, get_kinds-IsSetOf}
use librocks_dll.Client.Bytes.Defs.{Heap, Bytes, copy_assign}
use librocks_dll.Client.Bytes.Ownership.{Owns, copy_assign-Owns}

abbrev client : ClientSys Memory
client = record {
  has_store = true;
  sys = record {
    store = record {
      is_open = true;
      code = Status.ok;
      has_db = true;
      reusable_tx = none;
      options = store_options 8;
      kinds = [];
      path = codes "/data";
      version = [];
      total_since_last_sync = 0;
      last_sync = 0;
    };
    world = record fresh_memory { next_handle = 3 };
  };
}

write_call-Reports_example :
    Returns
      (run_write memory_laws single_remove_call
        (kind_impl (record { name_ = codes "k"; handle_ = some 1 }))
        (some (codes "a"))
        client)
      (λ r t.
        WriteReported memory_laws single_remove_call
          (kind_impl (record { name_ = codes "k"; handle_ = some 1 }))
          (some (codes "a"))
          client.sys
          r
          t.sys)
write_call-Reports_example =
    write_call-Reports memory_laws single_remove_call
      (kind_impl (record { name_ = codes "k"; handle_ = some 1 })) (some (codes "a")) client refl
      (record { open-has_db = λ e. refl; below_batch = omega arith })

-- two objects with a buffer each
abbrev heap : Heap
heap = record {
  next = 2;
  cell = λ p. if p == 0 then some (codes "ab") else if p == 1 then some (codes "c") else none;
}

abbrev left : Bytes
left = record { size = 2; ptr = some 0 }

abbrev right : Bytes
right = record { size = 1; ptr = some 1 }

left-Owns : Owns heap left 0 (codes "ab")
left-Owns = record {
  size = refl;
  positive = omega arith;
  ptr = refl;
  cell = refl;
  allocated = omega arith;
}

right-Owns : Owns heap right 1 (codes "c")
right-Owns = record {
  size = refl;
  positive = omega arith;
  ptr = refl;
  cell = refl;
  allocated = omega arith;
}

copy_assign-Owns_example : Returns (copy_assign false left right heap) (λ c t.
    (r : ℕ) × (r ≢ 1) × Owns t c r (codes "c") × Owns t right 1 (codes "c") × (t.cell 0 ≡ none))
copy_assign-Owns_example =
    copy_assign-Owns left right 0 1 (codes "ab") (codes "c") heap left-Owns right-Owns (omega arith)

get-Answers_example :
    Returns
      (Defs.get memory
        (kind_impl (record { name_ = codes "k"; handle_ = some 1 }))
        (some (codes "a"))
        client)
      (λ r t.
        IsValid t.sys
        × ((reply : Reply) × Reads.Read memory_laws
              (some Status.ok)
              (kind_impl (record { name_ = codes "k"; handle_ = some 1 }))
              (some 0)
              (some (codes "a"))
              client.sys
              reply
              t.sys
            × Answers (value_of reply.status) reply.value r))
get-Answers_example =
    get-Answers memory_laws (kind_impl (record { name_ = codes "k"; handle_ = some 1 }))
      (some (codes "a")) client refl (record { open-has_db = λ e. refl; below_batch = omega arith })

-- the client on a store with three kinds
abbrev three_kinds : ClientSys Memory
three_kinds = record client {
  sys = record client.sys {
    store = record client.sys.store {
      kinds =
          (codes "b", record { name_ = codes "b"; handle_ = some 1 })
          ∷ (codes "c", record { name_ = codes "c"; handle_ = some 2 })
          ∷ (codes "a", record { name_ = codes "a"; handle_ = some 0 })
          ∷ [];
    };
  };
}

get_kinds-IsSetOf_example :
    (set : List KindImpl) × (Defs.get_kinds three_kinds ≡ some (Defs.returned set, three_kinds))
    × IsSetOf (stored three_kinds.sys.store.kinds) set
get_kinds-IsSetOf_example =
    get_kinds-IsSetOf three_kinds refl refl (unfold c_str in (refl, (refl, (refl, tt))))
