-- ===== src/Kueue/Threads/Wakeup.antt =====
-- No wake-up is lost, as long as neither readNext is called nor a removal fails.
use librocks_dll.Prelude.{
  ◌+◌, ◌<◌, ◌^◌, some, List, [], ◌∷◌, ◌≡◌, ◌⊎◌, inl, inr, ◌∙◌, sym, ap, false≢true, arith,
}
use librocks_dll.Prelude.Text.{Text}
use librocks_dll.Engine.{Engine, Handle}
use librocks_dll.Engine.Laws.{Laws}
use librocks_dll.Kind.{KindImpl, kind_impl}
use librocks_dll.Kueue.Threads.State.{Shared}
use librocks_dll.Kueue.Threads.Labels.{Label}
use librocks_dll.Kueue.Threads.Invariant.{IsShared}
use librocks_dll.Kueue.Threads.Preserved.{step-Next}
use librocks_dll.Kueue.Threads.Runs.{Runs, stop, go, claim_count, claim_counts}
use librocks_dll.Kueue.Threads.Order.{step-max_key}
use librocks_dll.Kueue.Threads.Progress.{IsQuiet}
use librocks_dll.Kueue.Threads.Settling.{All, all_nil, all_cons}
use librocks_dll.Kueue.Threads.Attended
use librocks_dll.Kueue.Threads.Attended.{IsAttended, is_calm, checks, owes, step-IsAttended}

quiet-attended :
    {W : Type 0} (s : Shared W) → IsQuiet s → IsAttended s → (s.waiting ≡ []) ⊎ (s.queue.count ≡ 0)
quiet-attended s q (Attended.nobody_waits e) = inl e
quiet-attended s q (Attended.is_empty e) = inr e
quiet-attended s q (Attended.will_signal e) = absurd (omega (arith, e, q.signals))
quiet-attended s q (Attended.put_signals e) = absurd (false≢true (ap owes (sym q.put_side) ∙ e))
quiet-attended s q (Attended.was_woken c ws e) = absurd (cc (e, q.woken))
quiet-attended s q (Attended.will_check e) = absurd (false≢true (ap checks (sym q.take_side) ∙ e))

module _ {W : Type 0} {E : Engine W} (L : Laws E) (k : KindImpl) (h : Handle)
    (handle : k.handle_ ≡ some h) where
  run-IsAttended :
      (items : List Text) (s : Shared W) (ls : List Label) (t : Shared W)
      → s.queue.max_key + claim_counts ls < 2 ^ 63
      → IsShared L k h items s
      → IsAttended s
      → Runs E (kind_impl k) s ls t
      → All is_calm ls
      → IsAttended t
  run-IsAttended items s [] t b i a stop all_nil = a
  run-IsAttended items s (l ∷ ls) u b i a (go {t} x r) (all_cons m c) =
      let d = step-max_key L k h items s l t i x in
      let (items', e, j) =
        step-Next L k h handle items s i l t (λ e. omega (arith, ap claim_count e)) x in
      run-IsAttended items' t ls u (omega (arith, d)) j (step-IsAttended L k h items s i a l t x m)
        r c

  -- From a queue where nobody waits, or who waits is attended: whenever its threads, however they are
  -- interleaved, have come to where none holds a lock, is on its way to signalNotEmpty or was notified,
  -- no call of take waits or there is no message to take; as long as maxKey stays below 2 ^ 63, and
  -- readNext has not read and no removal of take, erase or clear has failed on the way.
  pub quiet-queue-wakes :
      (items : List Text) (s : Shared W) (ls : List Label) (t : Shared W)
      → s.queue.max_key + claim_counts ls < 2 ^ 63
      → IsShared L k h items s
      → IsAttended s
      → Runs E (kind_impl k) s ls t
      → All is_calm ls
      → IsQuiet t
      → (t.waiting ≡ []) ⊎ (t.queue.count ≡ 0)
  quiet-queue-wakes items s ls t b i a r c q =
      quiet-attended t q (run-IsAttended items s ls t b i a r c)
