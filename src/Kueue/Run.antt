-- ===== src/Kueue/Run.antt =====
-- Any sequence of puts and takes against the abstract queue: a list, first in, first out.
use librocks_dll.Prelude.{
  ℕ, suc, ◌+◌, ◌<◌, ◌^◌, false, some, List, [], ◌∷◌, ◌++◌, ◌≡◌, ◌≢◌, sym, subst, arith,
}
use librocks_dll.Prelude.Tests.{ℤ}
use librocks_dll.Prelude.Text.{Text}
use librocks_dll.Prelude.Action.{Action, Returns, Returns-bind, Returns-some, pure, ◌>>=◌}
use librocks_dll.Status
use librocks_dll.Status.{IntPtr}
use librocks_dll.Engine.{Engine, Handle}
use librocks_dll.Engine.Laws.{Laws}
use librocks_dll.Kind.{KindImpl}
use librocks_dll.Store.State.{Reply}
use librocks_dll.Store.Reads.{copied}
use librocks_dll.Kueue.State.{QueueSys}
use librocks_dll.Kueue.Operations
use librocks_dll.Kueue.Operations.{Outcome, waiting, returned}
use librocks_dll.Kueue.IsQueue.{IsQueue}
use librocks_dll.Kueue.Fifo
use librocks_dll.Kueue.Fifo.{Added, put-IsQueue}
use librocks_dll.Kueue.Take
use librocks_dll.Kueue.Take.{Taken, take-IsQueue}

pub data Call : Type 0 where
  put_call : Text → Call
  take_call : Call

pub data Answer : Type 0 where
  put_answer : IntPtr → Answer
  take_answer : Outcome Reply → Answer

-- What the abstract queue may answer: from the messages, a sequence of calls, its answers and the
-- messages that are left. A call may fail, and then it changes nothing.
pub data Allows : List Text → List Call → List Answer → List Text → Type 0 where
  ended : {items : List Text} → Allows items [] [] items
  stored :
      {items out : List Text} {v : Text} {cs : List Call} {rs : List Answer}
      → Allows (items ++ v ∷ []) cs rs out
      → Allows items (put_call v ∷ cs) (put_answer (some Status.ok) ∷ rs) out
  refused :
      {items out : List Text} {v : Text} {cs : List Call} {rs : List Answer} {c : ℤ}
      → c ≢ Status.ok
      → Allows items cs rs out
      → Allows items (put_call v ∷ cs) (put_answer (some c) ∷ rs) out
  waits :
      {out : List Text} {cs : List Call} {rs : List Answer}
      → Allows [] cs rs out
      → Allows [] (take_call ∷ cs) (take_answer waiting ∷ rs) out
  delivered :
      {rest out : List Text} {v : Text} {cs : List Call} {rs : List Answer}
      → Allows rest cs rs out
      → Allows
          (v ∷ rest)
          (take_call ∷ cs)
          (take_answer (returned (copied (some Status.ok) 0 v)) ∷ rs)
          out
  failed :
      {items out : List Text} {cs : List Call} {rs : List Answer} {c : ℤ} {r : Reply}
      → c ≢ Status.ok
      → r.status ≡ some c
      → Allows items cs rs out
      → Allows items (take_call ∷ cs) (take_answer (returned r) ∷ rs) out

abbrev pub puts_in : List Call → ℕ
puts_in [] = 0
puts_in (put_call v ∷ cs) = suc (puts_in cs)
puts_in (take_call ∷ cs) = puts_in cs

module _ {W : Type 0} (E : Engine W) where
  unfoldable pub answer : Call → Action (QueueSys W) Answer
  answer (put_call v) = do st ← Operations.put E (some Status.ok) v; pure (put_answer st)
  answer take_call = do r ← Operations.take E (some Status.ok) (some 0); pure (take_answer r)

  unfoldable pub run : List Call → Action (QueueSys W) (List Answer)
  unfolding answer
  run [] = pure []
  run (c ∷ cs) = do a ← answer c; rs ← run cs; pure (a ∷ rs)

module _ {W : Type 0} {E : Engine W} (L : Laws E) (k : KindImpl) (h : Handle)
    (handle : k.handle_ ≡ some h) where
  -- after one call: the messages, and that every way to go on is one from before the call
  record Stepped (items : List Text) (c : Call) (cs : List Call) (a : Answer) (t : QueueSys W)
      : Type 0 where
    now : List Text
    queue : IsQueue L k h now t
    room : t.queue.max_key + puts_in cs < 2 ^ 63
    go_on :
        {rs : List Answer} {out : List Text}
        → Allows now cs rs out
        → Allows items (c ∷ cs) (a ∷ rs) out

  put_step :
      (items : List Text) (v : Text) (cs : List Call) (s : QueueSys W)
      → s.queue.max_key + suc (puts_in cs) < 2 ^ 63
      → (st : IntPtr) (t : QueueSys W) → Added L k h handle items v (some Status.ok) s st t
      → Stepped items (put_call v) cs (put_answer st) t
  put_step items v cs s b st t (Fifo.stored q m e) = record {
    now = items ++ v ∷ [];
    queue = q;
    room = omega (arith, m, b);
    go_on = λ {rs} {out} x.
        subst (λ p. Allows items (put_call v ∷ cs) (put_answer p ∷ rs) out) (sym e) (stored x);
  }
  put_step items v cs s b st t (Fifo.refused c n q m e) = record {
    now = items;
    queue = q;
    room = omega (arith, m, b);
    go_on = λ {rs} {out} x.
        subst (λ p. Allows items (put_call v ∷ cs) (put_answer p ∷ rs) out) (sym e) (refused n x);
  }

  take_step :
      (items : List Text) (cs : List Call) (s : QueueSys W)
      → IsQueue L k h items s
      → s.queue.max_key + puts_in cs < 2 ^ 63
      → (r : Outcome Reply) (t : QueueSys W)
      → Taken L k h handle false items (some Status.ok) 0 s r t
      → Stepped items take_call cs (take_answer r) t
  take_step items cs s q b r t (Take.waits e f x y) = record {
    now = [];
    queue = subst (λ t. IsQueue L k h [] t) (sym y) (subst (λ i. IsQueue L k h i s) e q);
    room = subst (λ t. t.queue.max_key + puts_in cs < 2 ^ 63) (sym y) b;
    go_on = λ {rs} {out} z.
        subst (λ i. Allows i (take_call ∷ cs) (take_answer r ∷ rs) out) (sym e)
          (subst (λ p. Allows [] (take_call ∷ cs) (take_answer p ∷ rs) out) (sym x) (waits z));
  }
  take_step items cs s q b r t (Take.timed_out e f x y) = cc
  take_step items cs s q b r t (Take.delivered v rest e x m y) = record {
    now = rest;
    queue = y;
    room = omega (arith, m, b);
    go_on = λ {rs} {out} z.
        subst (λ i. Allows i (take_call ∷ cs) (take_answer r ∷ rs) out) (sym e)
          (subst (λ p. Allows (v ∷ rest) (take_call ∷ cs) (take_answer p ∷ rs) out) (sym x)
            (delivered z));
  }
  take_step items cs s q b r t (Take.failed c reply n x p m y) = record {
    now = items;
    queue = y;
    room = omega (arith, m, b);
    go_on = λ {rs} {out} z.
        subst (λ p. Allows items (take_call ∷ cs) (take_answer p ∷ rs) out) (sym x) (failed n p z);
  }

  answer-Stepped :
      (items : List Text) (c : Call) (cs : List Call) (s : QueueSys W)
      → IsQueue L k h items s
      → s.queue.max_key + puts_in (c ∷ cs) < 2 ^ 63
      → Returns (answer E c s) (Stepped items c cs)
  unfolding answer
  answer-Stepped items (put_call v) cs s q b =
      Returns-bind _ _ _ _
        (put-IsQueue L k h handle items v (some Status.ok) s q
          (omega (arith, q.counted.max_key, b)))
        (λ st t a. Returns-some (put_step items v cs s b st t a))
  answer-Stepped items take_call cs s q b =
      Returns-bind _ _ _ _ (take-IsQueue L k h handle (some Status.ok) 0 s items q)
        (λ r t x. Returns-some (take_step items cs s q b r t x))

  -- From a valid queue of an open store with room for the keys of all puts, any sequence of puts
  -- and takes runs without a fault, and its answers are those of the abstract queue on the messages,
  -- where a call that fails changes nothing; the queue then holds what the abstract queue holds.
  pub run-Allows :
      (cs : List Call) (items : List Text) (s : QueueSys W)
      → IsQueue L k h items s
      → s.queue.max_key + puts_in cs < 2 ^ 63
      → Returns
          (run E cs s)
          (λ rs t. (out : List Text) × Allows items cs rs out × IsQueue L k h out t)
  unfolding run
  run-Allows [] items s q b = Returns-some (items, ended, q)
  run-Allows (c ∷ cs) items s q b = Returns-bind _ _ _ _ (answer-Stepped items c cs s q b) (λ a t x.
      Returns-bind _ _ _ _ (run-Allows cs x.now t x.queue x.room)
        (λ rs u y. Returns-some (y.0, x.go_on y.1, y.2)))
