-- ===== src/Kueue/Threads/Forgotten.antt =====
-- A wake-up that is lost: the call that was notified leaves the message, and tells no other.
use librocks_dll.Prelude.{ℕ, true, false, none, some, List, [], ◌∷◌, ◌≡◌, inl, refl}
use librocks_dll.Prelude.Text.{Text}
use librocks_dll.Status.{IntPtr}
use librocks_dll.Engine.{Engine}
use librocks_dll.Codec.Bytes.{put_u64_be}
use librocks_dll.Kind.{Kind}
use librocks_dll.Store.State.{Sys, SizePtr, Reply}
use librocks_dll.Store.Write
use librocks_dll.Store.Read
use librocks_dll.Store.Update
use librocks_dll.Kueue.State.{KueueImpl, is_ok, local_state}
use librocks_dll.Kueue.Threads.State.{
  Waiter, take, take_timed, read_next, goes_on, put_free, take_free, chosen, take_leaving, Shared,
}
use librocks_dll.Kueue.Threads.Step
use librocks_dll.Kueue.Threads.Labels.{Label, removes, somebody}
use librocks_dll.Kueue.Threads.Step.{TakeStep, put_step, take_step}
use librocks_dll.Kueue.Threads.Runs.{Runs, stop, go}
use librocks_dll.Kueue.Threads.Progress.{IsQuiet}

-- an empty queue on which calls wait
abbrev pub asleep : {W : Type 0} → KueueImpl → Sys W → List Waiter → Shared W
asleep q sys waiting = record {
  queue = record q { count = 0; is_valid = true };
  sys = sys;
  put_side = put_free;
  take_side = take_free;
  signals = 0;
  waiting = waiting;
  woken = [];
  read_keys = [];
}

-- a run to a quiet queue with a message, where calls still wait
pub record Forgets {W : Type 0} (E : Engine W) (kind : Kind) (s : Shared W) (waiting : List Waiter)
    : Type 0 where
  pub labels : List Label
  pub last : Shared W
  pub run : Runs E kind s labels last
  pub quiet : IsQuiet last
  pub count : last.queue.count ≡ 1
  pub left : last.waiting ≡ waiting

goes_on-one : (c : Waiter) → goes_on c 1 ≡ true
goes_on-one take = refl
goes_on-one (take_timed n) = refl
goes_on-one (read_next n) = refl

module _ {W : Type 0} (E : Engine W) (kind : Kind) where
  -- The call of the store that a call makes for the message, and that leaves it there.
  pub data LeavesIt (c : Waiter) (key : Text) (u v : Sys W) : Type 0 where
    reads :
        (status : IntPtr) (len : SizePtr) (r : Reply)
        → removes c ≡ false
        → Read.get E (local_state status) kind len (some key) u ≡ some (r, v)
        → LeavesIt c key u v
    fails :
        (status : IntPtr) (len : SizePtr) (r : Reply)
        → removes c ≡ true
        → Update.single_remove_if_present E (local_state status) kind len (some key) u ≡ some (r, v)
        → is_ok r.status ≡ false
        → LeavesIt c key u v

  left_step :
      (s : Shared W) (c : Waiter) (v : Sys W)
      → s.take_side ≡ chosen c
      → LeavesIt c (put_u64_be s.queue.min_key) s.sys v
      → (l : Label) × (keys : List ℕ) × TakeStep E kind s l
          (record s { take_side = take_leaving none; sys = v; read_keys = keys })
  left_step s c v e (reads status len r d x) = (_, _, Step.read c status len r v e d x)
  left_step s c v e (fails status len r d x bad) =
      (_, _, Step.TakeStep.fail c status len r v e d x bad)

  -- Where at least two calls wait on an empty queue, and a put succeeds: if the one that is notified
  -- is readNext, or a take whose removal fails, then there is a run after which every thread is at
  -- rest, the message is in the queue and the others still wait.
  pub asleep-Forgets :
      (q : KueueImpl) (sys u v : Sys W) (c d : Waiter) (rest : List Waiter) (value : Text)
      (status r : IntPtr)
      → Write.put E (local_state status) kind (some (put_u64_be q.max_key)) value sys ≡ some (r, u)
      → is_ok r ≡ true
      → LeavesIt c (put_u64_be q.min_key) u v
      → Forgets E kind (asleep q sys (c ∷ d ∷ rest)) (d ∷ rest)
  asleep-Forgets q sys u v c d rest value status r x ok y = record {
    labels = _;
    last = _;
    run = go (put_step (Step.claim value refl refl)) (
        go (put_step (Step.store value q.max_key status r u refl x ok)) (
          go (put_step (Step.add refl)) (
            go (put_step (Step.PutStep.leave (some 0) refl)) (
              go (put_step (Step.enter_signal 0 refl refl)) (
                go (put_step (Step.signal (d ∷ rest) (c ∷ []) refl (somebody [] (d ∷ rest) c))) (
                  go (take_step (Step.enter_again [] [] c refl refl)) (
                    go (take_step (Step.TakeStep.choose c (inl refl) (goes_on-one c))) (
                      go (take_step (left_step _ c v refl y).2)
                        (go (take_step (Step.TakeStep.leave none refl refl)) stop)))))))));
    quiet = record { put_side = refl; take_side = refl; signals = refl; woken = refl };
    count = refl;
    left = refl;
  }
