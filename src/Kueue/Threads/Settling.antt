-- ===== src/Kueue/Threads/Settling.antt =====
-- Left to themselves, the threads of a queue come to rest.
use librocks_dll.Prelude.{
  ℕ, zero, suc, ◌<◌, ◌≤◌, Bool, true, some, List, [], ◌∷◌, ◌≡◌, ◌⊎◌, inl, inr, ◌∙◌, sym, ap,
  false≢true, arith,
}
use librocks_dll.Prelude.Tests.{length}
use librocks_dll.Prelude.Text.{Text}
use librocks_dll.Engine.{Engine, Handle}
use librocks_dll.Engine.Laws.{Laws}
use librocks_dll.Kind.{KindImpl, kind_impl}
use librocks_dll.Kueue.Threads.State.{Shared}
use librocks_dll.Kueue.Threads.Labels.{Label, claims}
use librocks_dll.Kueue.Threads.Step.{Step}
use librocks_dll.Kueue.Threads.Invariant.{IsShared, Next}
use librocks_dll.Kueue.Threads.Preserved.{step-Next}
use librocks_dll.Kueue.Threads.Runs.{Runs, stop, go}
use librocks_dll.Kueue.Threads.Order.{Ordered, cons-Ordered, interleaved-Ordered}
use librocks_dll.Kueue.Threads.Progress.{is_own, CanStep, IsQuiet, IsQuiet-or-CanStep}
use librocks_dll.Kueue.IsQueue.{IsQueue}
use librocks_dll.Kueue.Threads.Rest.{quiet-IsQueue}
use librocks_dll.Kueue.Threads.Weight.{weight, step-weight}

-- Every step satisfies a test on its label.
pub data All (p : Label → Bool) : List Label → Type 0 where
  all_nil : All p []
  all_cons : {l : Label} {ls : List Label} → p l ≡ true → All p ls → All p (l ∷ ls)

own-claims : (l : Label) → is_own l ≡ true → l ≡ claims → ⊥
own-claims l o e = false≢true (sym (ap is_own e) ∙ o)

module _ {W : Type 0} {E : Engine W} (L : Laws E) (k : KindImpl) (h : Handle)
    (handle : k.handle_ ≡ some h) where
  own_next :
      (items : List Text) (s : Shared W) (l : Label) (t : Shared W)
      → IsShared L k h items s
      → Step E (kind_impl k) s l t
      → is_own l ≡ true
      → Next L k h l items t
  own_next items s l t i x o =
      step-Next L k h handle items s i l t (λ e. absurd (own-claims l o e)) x

  -- From a queue with the messages `items`, no run of the threads is longer than `weight items s`, if
  -- no call begins in it, no timeout ends and no wake-up is spurious; and it can be continued in this
  -- way, unless no thread holds a lock, is on its way to signalNotEmpty or was notified: the threads
  -- neither block each other nor go round. This holds whatever the calls of the store report.
  pub own-run-length :
      (items : List Text) (s : Shared W) (ls : List Label) (t : Shared W)
      → IsShared L k h items s
      → Runs E (kind_impl k) s ls t
      → All is_own ls
      → (length ls ≤ weight items s) × (IsQuiet t ⊎ CanStep E (kind_impl k) t)
  own-run-length items s [] t i stop all_nil =
      (omega arith, IsQuiet-or-CanStep L k h handle items s i)
  own-run-length items s (l ∷ ls) u i (go {t} x r) (all_cons o a) =
      let (items', e, j) = own_next items s l t i x o in
      let (b, c) = own-run-length items' t ls u j r a in
      (omega (arith, b, step-weight (kind_impl k) items items' s l t x o e), c)

  -- A run to a quiet queue.
  pub record Way (items : List Text) (s : Shared W) : Type 0 where
    pub labels : List Label
    pub last : Shared W
    pub run : Runs E (kind_impl k) s labels last
    pub own : All is_own labels
    pub quiet : IsQuiet last
    pub ordered : Ordered L k h items labels last

  find-Way :
      (fuel : ℕ) (items : List Text) (s : Shared W)
      → weight items s < fuel
      → IsShared L k h items s
      → Way items s
  find-Way zero items s b i = absurd (omega (arith, b))
  find-Way (suc fuel) items s b i = elim (IsQuiet-or-CanStep L k h handle items s i) [
    | inl q ↦ record {
      labels = [];
      last = s;
      run = stop;
      own = all_nil;
      quiet = q;
      ordered =
          interleaved-Ordered L k h handle items s [] s (omega (arith, i.numbers.bound)) i stop;
    }
    | inr c ↦
        let (items', e, j) = own_next items s c.label c.next i c.step c.own in
        let r =
          find-Way fuel items' c.next
            (omega
              (arith, b, step-weight (kind_impl k) items items' s c.label c.next c.step c.own e))
            j in
        record {
          labels = c.label ∷ r.labels;
          last = r.last;
          run = go c.step r.run;
          own = all_cons c.own r.own;
          quiet = r.quiet;
          ordered = cons-Ordered L k h c.label items items' r.labels r.last e r.ordered;
        }
  ]

  -- Such a run, and there the queue is as if no call had been interleaved with another.
  pub record Settles (items : List Text) (s : Shared W) : Type 0 where
    pub way : Way items s
    pub rested :
        IsQueue L k h way.ordered.left (record { queue = way.last.queue; sys = way.last.sys })

  -- From a queue with the messages `items`, wherever its threads stand and whatever the calls of the
  -- store report, they can by themselves come to where none of them holds a lock, is on its way to
  -- signalNotEmpty or was notified. On the way the messages stay in order, and in the end the count,
  -- both keys and the column family are those of a queue that holds the messages that are left.
  pub threads-Settles :
      (items : List Text) (s : Shared W) → IsShared L k h items s → Settles items s
  threads-Settles items s i =
      let w : Way items s = find-Way (suc (weight items s)) items s (omega arith) i in
      record {
        way = w;
        rested = quiet-IsQueue L k h w.ordered.left w.last w.ordered.shared w.quiet;
      }
