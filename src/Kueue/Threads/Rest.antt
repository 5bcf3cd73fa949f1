-- ===== src/Kueue/Threads/Rest.antt =====
-- A queue whose threads are at rest is the queue of the operations one after the other.
use librocks_dll.Prelude.{List, [], ◌≡◌, subst, false≢true, refl, arith}
use librocks_dll.Prelude.Tests.{length}
use librocks_dll.Prelude.Text.{Text}
use librocks_dll.Engine.{Engine, Handle}
use librocks_dll.Engine.Laws.{Laws}
use librocks_dll.Kind.{KindImpl}
use librocks_dll.Kueue.State.{QueueSys}
use librocks_dll.Kueue.Contents.{Contains}
use librocks_dll.Kueue.IsQueue.{IsQueue}
use librocks_dll.Kueue.Threads.State.{put_free, take_free, Shared}
use librocks_dll.Kueue.Threads.Numbers.{Numbers}
use librocks_dll.Kueue.Threads.Invariant.{IsShared}
use librocks_dll.Kueue.Threads.Progress.{IsQuiet}

-- Nobody is in a call.
abbrev pub at_rest : {W : Type 0} → QueueSys W → Shared W
at_rest s = record {
  queue = s.queue;
  sys = s.sys;
  put_side = put_free;
  take_side = take_free;
  signals = 0;
  waiting = [];
  woken = [];
  read_keys = [];
}

module _ {W : Type 0} {E : Engine W} (L : Laws E) (k : KindImpl) (h : Handle)
    (items : List Text) where
  pub at_rest-IsShared : (s : QueueSys W) → IsQueue L k h items s → IsShared L k h items (at_rest s)
  at_rest-IsShared s q = record {
    lo = s.queue.min_key;
    kind = q.counted.kind;
    valid = q.counted.valid;
    numbers = record {
      min_key = omega arith;
      max_key = omega (arith, q.counted.max_key);
      key = tt;
      count = omega (arith, q.counted.count);
      bound = omega (arith, q.counted.max_key, q.counted.bound);
      seated = λ e. absurd (false≢true e);
      both = refl;
    };
    keys = record { known = tt; erases = tt };
    holds = record { store = q.store; opened = q.opened; contains = q.contains };
  }

  module _ (s : Shared W) (i : IsShared L k h items s) (q : IsQuiet s) where
    rest-Numbers : Numbers i.lo (length items) s.queue put_free take_free
    rest-Numbers =
        subst (λ t. Numbers i.lo (length items) s.queue put_free t) q.take_side
          (subst (λ p. Numbers i.lo (length items) s.queue p s.take_side) q.put_side i.numbers)

    first_key : i.lo ≡ s.queue.min_key
    first_key = omega (arith, rest-Numbers.min_key)

    -- Calls may wait there for a message.
    pub quiet-IsQueue : IsQueue L k h items (record { queue = s.queue; sys = s.sys })
    quiet-IsQueue = record {
      store = i.holds.store;
      opened = i.holds.opened;
      counted = record {
        kind = i.kind;
        valid = i.valid;
        count = omega (arith, rest-Numbers.count);
        max_key = omega (arith, rest-Numbers.max_key, first_key);
        bound = omega (arith, rest-Numbers.max_key, rest-Numbers.bound, first_key);
      };
      contains = subst (λ lo. Contains (L.view s.sys.world) h lo items) first_key i.holds.contains;
    }
