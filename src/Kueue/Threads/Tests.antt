-- ===== src/Kueue/Threads/Tests.antt =====
-- A queue in memory on which threads stand, and the theorems on it.
use librocks_dll.Prelude.{
  ◌≤◌, ◌⊎◌, false≢true, true, none, some, [], ◌∷◌, ◌≡◌, refl, ap, arith, inl,
}
use librocks_dll.Prelude.Text.{Text, codes, text_eq, c_str}
use librocks_dll.Prelude.Action.{Returns, ◌>>=◌}
use librocks_dll.Prelude.Map.{find}
use librocks_dll.Status
use librocks_dll.Status.{IntPtr}
use librocks_dll.Engine.Laws
use librocks_dll.Engine.Memory.{Memory, Layer, memory, memory_laws, memory_laws-view, fresh_memory}
use librocks_dll.Codec.Bytes.{put_u64_be, le_bytes, byteswap_uint64, from_le_bytes}
use librocks_dll.Kind.{KindImpl, kind_impl}
use librocks_dll.Store.State.{
  Sys, Reply, with_open, validate_open, on_db, reusable_tx, delete_if_new_tx, occasional_wal_sync,
  sync_and_reset, sync_wal_no_lock,
}
use librocks_dll.Store.Open.{store_options}
use librocks_dll.Store.Write.{put, put_, write_kind, write_in, commit_staged}
use librocks_dll.Store.Read.{get, get_, get_kind}
use librocks_dll.Prelude.Tests.{length}
use librocks_dll.Kueue.State.{KueueImpl, is_ok}
use librocks_dll.Kueue.Threads.State.{
  take, read_next, put_free, take_free, claimed, testing, chosen, Shared,
}
use librocks_dll.Kueue.Threads.Step
use librocks_dll.Kueue.Threads.Labels.{claims, silent}
use librocks_dll.Kueue.Threads.Step.{put_step, take_step}
use librocks_dll.Kueue.Threads.Invariant.{IsShared}
use librocks_dll.Kueue.Threads.Runs.{go, stop}
use librocks_dll.Kueue.Threads.Order.{Ordered, interleaved-Ordered}
use librocks_dll.Kueue.Threads.Progress.{IsQuiet, CanStep}
use librocks_dll.Kueue.Threads.Weight.{weight}
use librocks_dll.Kueue.Threads.Settling.{
  all_nil, all_cons, Settles, own-run-length, threads-Settles,
}
use librocks_dll.Kueue.Threads.Attended.{is_empty}
use librocks_dll.Kueue.Threads.Wakeup.{quiet-queue-wakes}
use librocks_dll.Kueue.Recover.{new_kueue}
use librocks_dll.Kueue.Threads.Restart.{Restarted, new_kueue-Restarted}
use librocks_dll.Kueue.Threads.Forgotten
use librocks_dll.Kueue.Threads.Forgotten.{asleep, Forgets, asleep-Forgets}

abbrev kind : KindImpl
kind = record { name_ = codes "jobs"; handle_ = some 1 }

abbrev first : Text
first = codes "first"

abbrev second : Text
second = codes "second"

abbrev empty_sys : Sys Memory
empty_sys = record {
  store = record {
    is_open = true;
    code = Status.ok;
    has_db = true;
    reusable_tx = none;
    options = store_options 8;
    kinds = (codes "jobs", kind) ∷ [];
    path = codes "/data";
    version = [];
    total_since_last_sync = 3;
    last_sync = 0;
  };
  world = record fresh_memory { next_handle = 3 };
}

abbrev queue : KueueImpl
queue = record {
  total_puts = 1;
  total_takes = 0;
  count = 1;
  min_key = 5;
  max_key = 6;
  queue_kind = some (kind_impl kind);
  is_valid = true;
  notifications = 1;
}

-- A take that was woken is about to test the count, while another one waits.
abbrev busy : Shared Memory
busy = record {
  queue = queue;
  sys = record empty_sys {
    world = record fresh_memory {
      layers = Layer.cell 1 (put_u64_be 5) (Laws.once first) ∷ [];
      next_handle = 3;
    };
  };
  put_side = put_free;
  take_side = testing take;
  signals = 0;
  waiting = take ∷ [];
  woken = [];
  read_keys = 5 ∷ [];
}

busy-IsShared : IsShared memory_laws kind 1 (first ∷ []) busy
busy-IsShared = record {
  lo = 5;
  kind = refl;
  valid = refl;
  keys = record { known = (omega arith, tt); erases = tt };
  numbers = record {
    min_key = refl;
    max_key = refl;
    key = tt;
    count = refl;
    bound = omega arith;
    seated = λ e. omega arith;
    both = refl;
  };
  holds = record {
    store = record { open-has_db = λ e. refl; below_batch = omega arith };
    opened = refl;
    contains = λ j. ap (λ f. f busy.sys.world 1 j) memory_laws-view;
  };
}

-- An empty queue, and a take that was woken.
abbrev woken_early : Shared Memory
woken_early = record {
  queue = record queue { count = 0; max_key = 5 };
  sys = empty_sys;
  put_side = put_free;
  take_side = take_free;
  signals = 0;
  waiting = [];
  woken = take ∷ [];
  read_keys = [];
}

woken_early-IsShared : IsShared memory_laws kind 1 [] woken_early
woken_early-IsShared = record {
  lo = 5;
  kind = refl;
  valid = refl;
  keys = record { known = tt; erases = tt };
  numbers = record {
    min_key = refl;
    max_key = refl;
    key = tt;
    count = refl;
    bound = omega arith;
    seated = λ e. absurd (false≢true e);
    both = refl;
  };
  holds = record {
    store = record { open-has_db = λ e. refl; below_batch = omega arith };
    opened = refl;
    contains = λ j. ap (λ f. f woken_early.sys.world 1 j) memory_laws-view;
  };
}

interleaved-Ordered_example :
    Ordered memory_laws kind 1 (first ∷ []) (claims ∷ silent ∷ []) (record busy {
      put_side = claimed second 6;
      queue = record queue { max_key = 7 };
      take_side = chosen take;
    })
interleaved-Ordered_example =
    interleaved-Ordered memory_laws kind 1 refl (first ∷ []) busy (claims ∷ silent ∷ [])
      (record busy {
        put_side = claimed second 6;
        queue = record queue { max_key = 7 };
        take_side = chosen take;
      })
      (omega arith) busy-IsShared
      (go (put_step (Step.claim second refl refl))
        (go (take_step (Step.TakeStep.choose take (inl refl) refl)) stop))

own-run-length_example :
    (length (silent ∷ []) ≤ weight (first ∷ []) busy)
    × (IsQuiet (record busy { take_side = chosen take })
        ⊎ CanStep memory (kind_impl kind) (record busy { take_side = chosen take }))
own-run-length_example =
    own-run-length memory_laws kind 1 refl (first ∷ []) busy (silent ∷ [])
      (record busy { take_side = chosen take }) busy-IsShared
      (go (take_step (Step.TakeStep.choose take (inl refl) refl)) stop) (all_cons refl all_nil)

threads-Settles_example : Settles memory_laws kind 1 refl (first ∷ []) busy
threads-Settles_example = threads-Settles memory_laws kind 1 refl (first ∷ []) busy busy-IsShared

abbrev asleep_after : Shared Memory
asleep_after = record woken_early { woken = []; waiting = take ∷ [] }

quiet-queue-wakes_example : (asleep_after.waiting ≡ []) ⊎ (asleep_after.queue.count ≡ 0)
quiet-queue-wakes_example =
    quiet-queue-wakes memory_laws kind 1 refl [] woken_early (silent ∷ silent ∷ []) asleep_after
      (omega arith) woken_early-IsShared (is_empty refl)
      (go (take_step (Step.enter_again [] [] take refl refl))
        (go (take_step (Step.wait take refl refl)) stop))
      (all_cons refl (all_cons refl all_nil))
      (record { put_side = refl; take_side = refl; signals = refl; woken = refl })

new_kueue-Restarted_example : Returns (new_kueue memory (codes "jobs") busy.sys) (
    Restarted memory_laws kind 1 refl
      (first ∷ [])
      (silent ∷ [])
      (record busy { take_side = chosen take }))
new_kueue-Restarted_example =
    new_kueue-Restarted memory_laws kind 1 refl (first ∷ []) busy (silent ∷ [])
      (record busy { take_side = chosen take }) (codes "jobs") (omega arith) (omega arith)
      busy-IsShared (go (take_step (Step.TakeStep.choose take (inl refl) refl)) stop)
      (unfold find text_eq c_str in refl)

-- A put, and a get of the same key.
put_and_get :
    (r : IntPtr) × (u : Sys Memory) × (g : Reply) × (v : Sys Memory) × (put memory
        (some Status.ok)
        (kind_impl kind)
        (some (put_u64_be 5))
        second
        empty_sys
      ≡ some (r, u))
    × (is_ok r ≡ true)
    × (get memory (some Status.ok) (kind_impl kind) (some 0) (some (put_u64_be 5)) u ≡ some (g, v))
unfolding put put_ write_kind write_in commit_staged with_open validate_open on_db reusable_tx
    delete_if_new_tx occasional_wal_sync sync_and_reset sync_wal_no_lock ◌>>=◌ get get_ get_kind
    text_eq put_u64_be le_bytes byteswap_uint64 from_le_bytes
put_and_get = (_, _, _, _, refl, refl, refl)

asleep-Forgets_example :
    Forgets memory
      (kind_impl kind)
      (asleep woken_early.queue empty_sys (read_next 50 ∷ take ∷ []))
      (take ∷ [])
asleep-Forgets_example =
    asleep-Forgets memory (kind_impl kind) woken_early.queue empty_sys put_and_get.1 put_and_get.3
      (read_next 50) take [] second (some Status.ok) put_and_get.0 put_and_get.4 put_and_get.5
      (Forgotten.reads (some Status.ok) (some 0) put_and_get.2 refl put_and_get.6)
