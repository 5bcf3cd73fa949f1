-- ===== src/Kueue/Tests.antt =====
-- A queue in memory with one message, and the theorems on it.
use librocks_dll.Prelude.{
  true, false, none, some, List, [], ◌∷◌, ◌≡◌, ◌≢◌, refl, ap, arith, sym, ◌∙◌, inl, inr, ◌+◌,
}
use librocks_dll.Prelude.Tests.{ltb, negsuc, Bool-cases, if◌then◌else◌}
use librocks_dll.Prelude.Text.{Text, codes}
use librocks_dll.Prelude.Action.{Returns}
use librocks_dll.Status
use librocks_dll.Status.{IntPtr}
use librocks_dll.Engine.Laws
use librocks_dll.Engine.Memory.{Memory, Layer, memory, memory_laws, memory_laws-view, fresh_memory}
use librocks_dll.Codec.Bytes.{put_u64_be}
use librocks_dll.Kind.{KindImpl, kind_impl}
use librocks_dll.Store.State.{Sys}
use librocks_dll.Store.Open.{store_options}
use librocks_dll.Kueue.State.{QueueSys, local_state, hand_back, size}
use librocks_dll.Kueue.Operations
use librocks_dll.Kueue.IsQueue.{IsQueue}
use librocks_dll.Kueue.Fifo.{Added, put-IsQueue}
use librocks_dll.Kueue.Take.{Taken, take-IsQueue, take_timed-IsQueue}
use librocks_dll.Kueue.Peek.{Peeked, read_next-Peeked}
use librocks_dll.Kueue.Drain.{Erased, Cleared, erase-IsQueue}
use librocks_dll.Kueue.Clear.{clear-IsQueue}
use librocks_dll.Prelude.Text.{c_str, text_eq, text_eq→eq, text_eq_refl}
use librocks_dll.Engine.Laws.{Cell, View, IsLeast, IsGreatest}
use librocks_dll.Kueue.Recover.{new_kueue}
use librocks_dll.Kueue.EmptyErase.{erase-empty}
use librocks_dll.Prelude.Map.{find}
use librocks_dll.Kueue.Fresh.{Started, new_kueue-Started}
use librocks_dll.Kueue.Created.{Created, new_kueue-Created}
use librocks_dll.Kueue.Reopen.{Reopened, new_kueue-Reopened}
use librocks_dll.Kueue.Run.{put_call, take_call, Allows, run, run-Allows}

abbrev kind : KindImpl
kind = record { name_ = codes "jobs"; handle_ = some 1 }

abbrev message : Text
message = codes "first"

abbrev jobs : QueueSys Memory
jobs = record {
  queue = record {
    total_puts = 1;
    total_takes = 0;
    count = 1;
    min_key = 5;
    max_key = 6;
    queue_kind = some (kind_impl kind);
    is_valid = true;
    notifications = 1;
  };
  sys = record {
    store = record {
      is_open = true;
      code = Status.ok;
      has_db = true;
      reusable_tx = none;
      options = store_options 8;
      kinds = [];
      path = codes "/data";
      version = [];
      total_since_last_sync = 3;
      last_sync = 0;
    };
    world = record fresh_memory {
      layers = Layer.cell 1 (put_u64_be 5) (Laws.once message) ∷ [];
      next_handle = 3;
    };
  };
}

jobs-IsQueue : IsQueue memory_laws kind 1 (message ∷ []) jobs
jobs-IsQueue = record {
  store = record { open-has_db = λ e. refl; below_batch = omega arith };
  opened = refl;
  counted = record { kind = refl; valid = refl; count = refl; max_key = refl; bound = omega arith };
  contains = λ j. ap (λ f. f jobs.sys.world 1 j) memory_laws-view;
}

put-IsQueue_example :
    Returns
      (Operations.put memory (some Status.ok) (codes "second") jobs)
      (Added memory_laws kind 1 refl (message ∷ []) (codes "second") (some Status.ok) jobs)
put-IsQueue_example =
    put-IsQueue memory_laws kind 1 refl (message ∷ []) (codes "second") (some Status.ok) jobs
      jobs-IsQueue (omega arith)

take-IsQueue_example :
    Returns
      (Operations.take memory (some Status.ok) (some 0) jobs)
      (Taken memory_laws kind 1 refl false (message ∷ []) (some Status.ok) 0 jobs)
take-IsQueue_example =
    take-IsQueue memory_laws kind 1 refl (some Status.ok) 0 jobs (message ∷ []) jobs-IsQueue

take_timed-IsQueue_example :
    Returns
      (Operations.take_timed memory (some Status.ok) (some 0) 50 jobs)
      (Taken memory_laws kind 1 refl (ltb 0 50) (message ∷ []) (some Status.ok) 0 jobs)
take_timed-IsQueue_example =
    take_timed-IsQueue memory_laws kind 1 refl (some Status.ok) 0 jobs 50 (message ∷ [])
      jobs-IsQueue

read_next-Peeked_example :
    Returns
      (Operations.read_next memory (some Status.ok) (some 0) (some 9) 50 jobs)
      (Peeked memory_laws kind 1 refl (ltb 0 50) (message ∷ []) (some Status.ok) 0 (some 9) jobs)
read_next-Peeked_example =
    read_next-Peeked memory_laws kind 1 refl (some Status.ok) 0 (some 9) 50 (message ∷ []) jobs
      jobs-IsQueue

erase-IsQueue_example : Returns (Operations.erase memory jobs.queue.min_key jobs) (λ b t.
    (jobs.queue.min_key ≡ jobs.queue.min_key → Erased memory_laws kind 1 refl message [] b t)
    × (jobs.queue.min_key ≢ jobs.queue.min_key → (b ≡ false) × (t ≡ jobs)))
erase-IsQueue_example =
    erase-IsQueue memory_laws kind 1 refl message [] jobs jobs-IsQueue jobs.queue.min_key

clear-IsQueue_example : Returns (Operations.clear memory none jobs) (λ status' t.
    (state : IntPtr) × (status' ≡ hand_back none state)
    × Cleared memory_laws kind 1 refl (message ∷ []) (local_state none) state t)
clear-IsQueue_example = clear-IsQueue memory_laws kind 1 refl (message ∷ []) none jobs jobs-IsQueue

run-Allows_example :
    Returns
      (run memory (take_call ∷ put_call (codes "second") ∷ take_call ∷ take_call ∷ []) jobs)
      (λ answers t.
        (out : List Text) × Allows
          (message ∷ [])
          (take_call ∷ put_call (codes "second") ∷ take_call ∷ take_call ∷ [])
          answers
          out
        × IsQueue memory_laws kind 1 out t)
run-Allows_example =
    run-Allows memory_laws kind 1 refl
      (take_call ∷ put_call (codes "second") ∷ take_call ∷ take_call ∷ []) (message ∷ []) jobs
      jobs-IsQueue (omega arith)

-- the queue without its message
abbrev idle : QueueSys Memory
idle = record {
  queue = record jobs.queue { count = 0; max_key = 5 };
  sys = record jobs.sys { world = fresh_memory };
}

idle-IsQueue : IsQueue memory_laws kind 1 [] idle
idle-IsQueue = record {
  store = record { open-has_db = λ e. refl; below_batch = omega arith };
  opened = refl;
  counted = record { kind = refl; valid = refl; count = refl; max_key = refl; bound = omega arith };
  contains = λ j. ap (λ f. f idle.sys.world 1 j) memory_laws-view;
}

erase-empty_example :
    Returns
      (Operations.erase memory idle.queue.min_key idle)
      (λ b t. b ≡ true → (size t.queue ≡ negsuc 0) × (t.queue.min_key ≡ t.queue.max_key + 1))
erase-empty_example = erase-empty memory_laws kind 1 refl idle idle-IsQueue

abbrev one_message : View
one_message g j = if text_eq (put_u64_be 5) j then Laws.once message else Laws.absent

only_key : (j : Text) → Laws.value_of (one_message 1 j) ≢ none → j ≡ put_u64_be 5
only_key j p = elim (Bool-cases (text_eq (put_u64_be 5) j)) [
  | inl e ↦ sym (text_eq→eq (put_u64_be 5) j e)
  | inr e ↦ absurd (p (ap (λ b. Laws.value_of (if b then Laws.once message else Laws.absent)) e))
]

has_key : Laws.value_of (one_message 1 (put_u64_be 5)) ≢ none
has_key e =
    let x : some message ≡ none =
      sym (
        ap (λ b. Laws.value_of (if b then Laws.once message else Laws.absent))
          (text_eq_refl (put_u64_be 5)))
      ∙ e in
    cc

abbrev stored : Sys Memory
stored = record jobs.sys { store = record jobs.sys.store { kinds = (codes "jobs", kind) ∷ [] } }

new_kueue-Reopened_example :
    Returns
      (new_kueue memory (codes "jobs") stored)
      (Reopened memory_laws kind 1 refl 5 (message ∷ []) (omega arith) (omega arith) stored)
new_kueue-Reopened_example =
    new_kueue-Reopened memory_laws kind 1 refl 5 (message ∷ []) (omega arith) (omega arith) stored
      (λ j. ap (λ f. f stored.world 1 j) memory_laws-view) (codes "jobs")
      (record { open-has_db = λ e. refl; below_batch = omega arith }) refl
      (unfold find text_eq c_str in refl)

abbrev unused : Sys Memory
unused = record stored { world = fresh_memory }

new_kueue-Started_example :
    Returns (new_kueue memory (codes "jobs") unused) (Started memory_laws kind 1 refl unused)
new_kueue-Started_example =
    new_kueue-Started memory_laws kind 1 refl unused
      (λ j. ap (λ f. f unused.world 1 j) memory_laws-view) (codes "jobs")
      (record { open-has_db = λ e. refl; below_batch = omega arith }) refl
      (unfold find text_eq c_str in refl)

new_kueue-Created_example :
    Returns (new_kueue memory (codes "mails") stored) (Created memory_laws (codes "mails") stored)
new_kueue-Created_example =
    new_kueue-Created memory_laws (codes "mails") stored
      (record { open-has_db = λ e. refl; below_batch = omega arith }) refl
      (unfold find text_eq c_str in refl)
