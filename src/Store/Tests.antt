-- ===== src/Store/Tests.antt =====
-- A store in memory, and the theorems on it.
use librocks_dll.Prelude.{true, none, some, [], ◌∷◌, ◌≡◌, refl, ap, ◌&&◌, arith}
use librocks_dll.Prelude.Tests.{◌==◌, if◌then◌else◌}
use librocks_dll.Prelude.Text.{Text, codes, text_eq}
use librocks_dll.Prelude.Action.{Returns}
use librocks_dll.Status
use librocks_dll.Status.{IntPtr, assign}
use librocks_dll.Engine.Laws
use librocks_dll.Engine.Laws.{Cell, written}
use librocks_dll.Engine.Memory.{Memory, Layer, memory, memory_laws, fresh_memory}
use librocks_dll.Kind.{KindImpl, kind_impl}
use librocks_dll.Store.State.{occasional_wal_sync, Sys}
use librocks_dll.Store.Write
use librocks_dll.Store.Read
use librocks_dll.Store.Update
use librocks_dll.Store.Opened.{new_store-IsValid}
use librocks_dll.Store.Open.{new_store}
use librocks_dll.Prelude.Tests.{All, is_some}
use librocks_dll.Store.Open.{store_options}
use librocks_dll.Store.Frame.{IsValid, Quiet}
use librocks_dll.Store.Syncing.{SyncsOrCounts, occasional_wal_sync_lem}
use librocks_dll.Store.Writes
use librocks_dll.Store.Writes.{put_lem, remove_lem, single_remove_lem}
use librocks_dll.Store.Reads
use librocks_dll.Store.Reads.{Found, get_lem}
use librocks_dll.Store.RoundTrip.{put_then_get, get-put}
use librocks_dll.Store.Updates.{Updated, update_if_present_lem}
use librocks_dll.Store.Ends.{Unseated, WithoutIterator, Ended, find_min_key_lem}
use librocks_dll.Store.Compacting.{Compacted, compact_all_lem}
use librocks_dll.Store.Reachable
use librocks_dll.Store.Reachable.{Reaches, step, Reaches-IsValid}
use librocks_dll.Store.Closing.{after_close, close_lem}
use librocks_dll.Store.Families.{Got, get_or_create_kind_lem}
use librocks_dll.Store.Ranges.{Ranged, remove_range_lem}
use librocks_dll.Store.Opening.{open_database-fault}
use librocks_dll.Store.Open.{open_database}
use librocks_dll.Store.Kinds
use librocks_dll.Store.Maintain
use librocks_dll.Store.Absent.{Inserted, put_if_absent_lem}

abbrev kind : KindImpl
kind = record { name_ = codes "orders"; handle_ = some 1 }

abbrev other : KindImpl
other = record { name_ = codes "other"; handle_ = some 2 }

abbrev key : Text
key = codes "a"

abbrev value : Text
value = codes "one"

-- an open store with one value under `key`
abbrev sys : Sys Memory
sys = record {
  store = record {
    is_open = true;
    code = Status.ok;
    has_db = true;
    reusable_tx = none;
    options = store_options 8;
    kinds = [];
    path = codes "/data";
    version = [];
    total_since_last_sync = 3;
    last_sync = 0;
  };
  world = record fresh_memory { layers = Layer.cell 1 key (Laws.once value) ∷ []; next_handle = 3 };
}

sys-IsValid : IsValid sys
sys-IsValid = record { open-has_db = λ e. refl; below_batch = omega arith }

put_lem_example :
    Returns (Write.put memory (some Status.ok) (kind_impl kind) (some key) value sys) (λ status' t.
      IsValid t
      × Writes.Written memory_laws
          (λ h k. Laws.puts h k value)
          (some Status.ok)
          (kind_impl kind)
          (some key)
          sys
          status'
          t)
put_lem_example =
    put_lem memory_laws (some Status.ok) (kind_impl kind) sys (some key) value sys-IsValid

get_lem_example :
    Returns (Read.get memory (some Status.ok) (kind_impl kind) (some 0) (some key) sys) (λ r t.
      IsValid t
      × Reads.Read memory_laws (some Status.ok) (kind_impl kind) (some 0) (some key) sys r t)
get_lem_example =
    get_lem memory_laws (some Status.ok) (kind_impl kind) (some 0) (some key) sys sys-IsValid

get-put_example :
    Returns
      (put_then_get memory_laws Status.ok (kind_impl kind) key value (kind_impl other) key sys)
      (λ p t.
        p.0 ≡ some Status.ok
        → Found
            (if 1 == 2 && text_eq key key
              then written value (memory_laws.view sys.world 1 key)
              else memory_laws.view sys.world 2 key)
            (some Status.ok)
            0
            p.1)
get-put_example =
    get-put memory_laws Status.ok kind other 1 2 key key value sys refl refl sys-IsValid refl

update_if_present_lem_example :
    Returns
      (Update.update_if_present memory none (kind_impl kind) (some 0) (some key) (codes "two") sys)
      (λ r t.
        IsValid t
        × Updated memory_laws
            (Laws.puts 1 key (codes "two"))
            (memory_laws.view sys.world 1 key)
            none
            sys
            r
            t)
update_if_present_lem_example =
    update_if_present_lem memory_laws kind 1 refl 0 key none sys sys-IsValid refl (codes "two")

put_if_absent_lem_example :
    Returns
      (Update.put_if_absent memory (some Status.ok) (kind_impl kind) (some key) value sys)
      (λ p t.
        IsValid t
        × Inserted memory_laws
            (Laws.puts 1 key value)
            (memory_laws.view sys.world 1 key)
            (some Status.ok)
            sys
            p
            t)
put_if_absent_lem_example =
    put_if_absent_lem memory_laws kind 1 refl key value (some Status.ok) sys sys-IsValid refl

find_min_key_lem_example :
    Returns (Read.find_min_key memory (some Status.closed) (kind_impl kind) (some 0) sys) (λ r t.
      IsValid t
      × Quiet memory_laws sys t
      × Ended memory_laws
          (Laws.IsLeast (memory_laws.view sys.world) 1)
          (Unseated memory_laws memory.seek_to_first 1 sys.world)
          (WithoutIterator memory_laws 1 sys.world)
          (assign Status.ok (some Status.closed))
          r)
find_min_key_lem_example =
    find_min_key_lem memory_laws kind 1 refl (some Status.closed) 0 sys sys-IsValid refl

close_lem_example :
    (Maintain.close memory sys ≡ some (tt, after_close memory sys))
    × (Maintain.close memory (after_close memory sys) ≡ some (tt, after_close memory sys))
close_lem_example = close_lem memory sys refl

get_or_create_kind_lem_example :
    Returns
      (Kinds.get_or_create_kind memory (some Status.ok) (codes "new") sys)
      (Got memory_laws (codes "new") (some Status.ok) sys)
get_or_create_kind_lem_example =
    get_or_create_kind_lem memory_laws (codes "new") (some Status.ok) sys sys-IsValid refl

remove_range_lem_example :
    Returns
      (Write.remove_range memory
        (some Status.ok)
        (kind_impl kind)
        (some key)
        (some (codes "b"))
        sys)
      (λ status' t. IsValid t × Ranged memory_laws 1 key (codes "b") (some Status.ok) sys status' t)
remove_range_lem_example =
    remove_range_lem memory_laws kind 1 refl key (codes "b") (some Status.ok) sys sys-IsValid refl

-- a database that RocksDB does not open
abbrev not_opened : Sys Memory
not_opened = record sys { world = record fresh_memory { broken = true } }

open_database-fault_example : open_database memory not_opened ≡ none
open_database-fault_example = open_database-fault memory_laws not_opened refl refl

new_store-IsValid_example : Returns (new_store memory (codes "/data") fresh_memory) (λ u t.
    IsValid t × (t.store.is_open ≡ true) × All (λ e. is_some (e.1).handle_ ≡ true) t.store.kinds)
new_store-IsValid_example = new_store-IsValid memory_laws (codes "/data") fresh_memory refl refl

abbrev two_kinds : Sys Memory
two_kinds = record sys {
  store = record sys.store { kinds = (codes "orders", kind) ∷ (codes "other", other) ∷ [] };
}

compact_all_lem_example :
    Returns
      (Maintain.compact_all memory (some Status.ok) two_kinds)
      (Compacted memory_laws (some Status.ok) two_kinds.store.kinds two_kinds)
compact_all_lem_example =
    compact_all_lem memory_laws (some Status.ok) two_kinds
      (record { open-has_db = λ e. refl; below_batch = omega arith }) refl (refl, (refl, tt))

closed-Reaches : Reaches memory sys (after_close memory sys)
closed-Reaches =
    Reachable.there Reachable.close Reachable.here
      (ap (Reachable.forget memory) (close_lem memory sys refl).0)

Reaches-IsValid_example :
    IsValid (after_close memory sys)
    × ((c : Reachable.Call)
        → (u : Sys Memory) × (step memory c (after_close memory sys) ≡ some u) × IsValid u)
Reaches-IsValid_example =
    Reaches-IsValid memory_laws sys (after_close memory sys) sys-IsValid closed-Reaches

occasional_wal_sync_lem_example :
    Returns (occasional_wal_sync memory sys) (λ o t. SyncsOrCounts memory sys t)
occasional_wal_sync_lem_example = occasional_wal_sync_lem memory sys sys-IsValid refl
