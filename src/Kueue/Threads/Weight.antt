-- ===== src/Kueue/Threads/Weight.antt =====
-- A number that every step of the threads of a queue lowers, but those that come from outside.
use librocks_dll.Prelude.{
  ℕ, suc, ◌+◌, ◌*◌, ◌<◌, ◌≤◌, true, Option, some, List, [], ◌∷◌, ◌++◌, ◌≡◌, inl, inr, ap,
  false≢true, arith,
}
use librocks_dll.Prelude.Tests.{length, length-append, if◌then◌else◌}
use librocks_dll.Prelude.Text.{Text}
use librocks_dll.Engine.{Engine}
use librocks_dll.Kind.{Kind}
use librocks_dll.Kueue.Threads.State.{
  Waiter, PutSide, put_free, claimed, stored, refused, put_leaving, clear_waits, clear_inside,
  TakeSide, take_free, signalling, testing, expired, chosen, removed, advanced, take_leaving,
  erasing, erase_chosen, clear_testing, clear_chosen, clear_removed, clear_advanced, Shared,
}
use librocks_dll.Kueue.Threads.Step
use librocks_dll.Kueue.Threads.Labels.{Label, leaves_more, Notified, nobody, somebody, is_zero}
use librocks_dll.Kueue.Threads.Removals.{ClearStep, EraseStep}
use librocks_dll.Kueue.Threads.Step.{
  PutStep, TakeStep, Step, put_step, take_step, clear_step, erase_step,
}
use librocks_dll.Kueue.Threads.Invariant.{Effect}
use librocks_dll.Kueue.Threads.Progress.{is_own}

abbrev pub put_weight : PutSide → ℕ
put_weight put_free = 0
put_weight (claimed v key) = 18
put_weight stored = 11
put_weight refused = 11
put_weight (put_leaving c) = 10
put_weight clear_waits = 3
put_weight clear_inside = 0

abbrev pub take_weight : TakeSide → ℕ
take_weight take_free = 0
take_weight signalling = 8
take_weight (testing c) = 6
take_weight (expired c) = 6
take_weight (chosen c) = 5
take_weight (erasing key) = 6
take_weight erase_chosen = 5
take_weight removed = 10
take_weight advanced = 9
take_weight (take_leaving c) = if leaves_more c then 8 else 1
take_weight clear_testing = 2
take_weight clear_chosen = 1
take_weight clear_removed = 4
take_weight clear_advanced = 3

abbrev pub weight : {W : Type 0} → List Text → Shared W → ℕ
weight items s =
    6 * length items
    + put_weight s.put_side
    + take_weight s.take_side
    + 9 * s.signals
    + 7 * length s.woken

leaving_weight_le : (c : Option ℕ) → take_weight (take_leaving c) ≤ 8
leaving_weight_le c = ground arith

Notified-le :
    (waiting woken v w : List Waiter) → Notified waiting woken v w → length w ≤ length woken + 1
Notified-le waiting woken v w (nobody) = omega arith
Notified-le waiting woken v w (somebody front back c) = omega arith

without-length :
    (all front back : List Waiter) (c : Waiter)
    → all ≡ front ++ c ∷ back
    → length (front ++ back) + 1 ≡ length all
without-length all front back c e =
    omega (arith, ap length e, length-append front (c ∷ back), length-append front back)

signals_le : (c : Option ℕ) (m : ℕ) → (if is_zero c then suc m else m) ≤ m + 1
signals_le c m = ground arith

module _ {W : Type 0} {E : Engine W} (kind : Kind) (items items' : List Text) (s : Shared W) where
  PutStep-weight :
      (l : Label) (t : Shared W)
      → PutStep E kind s l t
      → is_own l ≡ true
      → Effect l items items'
      → weight items' t < weight items s
  PutStep-weight l t (Step.claim v e x) o f = absurd (false≢true o)
  PutStep-weight l t (Step.store v key status r u e x ok) o f =
      omega (arith, ap put_weight e, ap length f, length-append items (v ∷ []))
  PutStep-weight l t (PutStep.fail v key status r u e x ok) o f =
      omega (arith, ap put_weight e, ap length f)
  PutStep-weight l t (Step.add e) o f = omega (arith, ap put_weight e, ap length f)
  PutStep-weight l t (Step.give_back e) o f = omega (arith, ap put_weight e, ap length f)
  PutStep-weight l t (PutStep.leave c e) o f =
      omega (arith, ap put_weight e, ap length f, signals_le c s.signals)
  PutStep-weight l t (Step.enter_signal m x e) o f = omega (arith, ap take_weight e, ap length f, x)
  PutStep-weight l t (Step.signal v w e x) o f =
      omega (arith, ap take_weight e, ap length f, Notified-le s.waiting s.woken v w x)

  TakeStep-weight :
      (l : Label) (t : Shared W)
      → TakeStep E kind s l t
      → is_own l ≡ true
      → Effect l items items'
      → weight items' t < weight items s
  TakeStep-weight l t (TakeStep.enter c e x) o f = absurd (false≢true o)
  TakeStep-weight l t (Step.wait c e x) o f = omega (arith, ap take_weight e, ap length f)
  TakeStep-weight l t (Step.wake_up front back c e) o f = absurd (false≢true o)
  TakeStep-weight l t (Step.enter_again front back c x e) o f =
      omega (arith, ap take_weight e, ap length f, without-length s.woken front back c x)
  TakeStep-weight l t (Step.expire front back c x d e) o f = absurd (false≢true o)
  TakeStep-weight l t (Step.expire_woken front back c x d e) o f =
      omega (arith, ap take_weight e, ap length f, without-length s.woken front back c x)
  TakeStep-weight l t (Step.give_up c e x) o f = omega (arith, ap take_weight e, ap length f)
  TakeStep-weight l t (TakeStep.choose c (inl e) x) o f =
      omega (arith, ap take_weight e, ap length f)
  TakeStep-weight l t (TakeStep.choose c (inr e) x) o f =
      omega (arith, ap take_weight e, ap length f)
  TakeStep-weight l t (TakeStep.remove c status m r u e x run ok) o f =
      omega (arith, ap take_weight e, ap length f)
  TakeStep-weight l t (TakeStep.fail c status m r u e x run bad) o f =
      omega (arith, ap take_weight e, ap length f)
  TakeStep-weight l t (Step.read c status m r u e x run) o f =
      omega (arith, ap take_weight e, ap length f)
  TakeStep-weight l t (TakeStep.move_on e) o f = omega (arith, ap take_weight e, ap length f)
  TakeStep-weight l t (TakeStep.subtract e) o f =
      omega (arith, ap take_weight e, ap length f, leaving_weight_le (some s.queue.count))
  TakeStep-weight l t (TakeStep.leave c e x) o f =
      omega (arith, ap take_weight e, ap length f, ap {B = ℕ} (λ b. (if b then 8 else 1)) x)
  TakeStep-weight l t (Step.pass_on c v w e x y) o f = omega (
    arith,
    ap take_weight e,
    ap length f,
    ap {B = ℕ} (λ b. (if b then 8 else 1)) x,
    Notified-le s.waiting s.woken v w y,
  )

  ClearStep-weight :
      (l : Label) (t : Shared W)
      → ClearStep E kind s l t
      → is_own l ≡ true
      → Effect l items items'
      → weight items' t < weight items s
  ClearStep-weight l t (ClearStep.enter e x) o f = absurd (false≢true o)
  ClearStep-weight l t (ClearStep.enter_both e x) o f =
      omega (arith, ap put_weight e, ap take_weight x, ap length f)
  ClearStep-weight l t (ClearStep.choose e x) o f = omega (arith, ap take_weight e, ap length f)
  ClearStep-weight l t (ClearStep.remove status r u e run ok) o (v, f) =
      omega (arith, ap take_weight e, ap length f)
  ClearStep-weight l t (ClearStep.move_on e) o f = omega (arith, ap take_weight e, ap length f)
  ClearStep-weight l t (ClearStep.subtract e) o f = omega (arith, ap take_weight e, ap length f)
  ClearStep-weight l t (ClearStep.fail status r u e run bad) o f =
      omega (arith, ap take_weight e, ap length f)
  ClearStep-weight l t (ClearStep.leave e x) o f = omega (arith, ap take_weight e, ap length f)

  EraseStep-weight :
      (l : Label) (t : Shared W)
      → EraseStep E kind s l t
      → is_own l ≡ true
      → Effect l items items'
      → weight items' t < weight items s
  EraseStep-weight l t (EraseStep.enter front back key x e y) o f = absurd (false≢true o)
  EraseStep-weight l t (EraseStep.pass_by key e x) o f =
      omega (arith, ap take_weight e, ap length f)
  EraseStep-weight l t (EraseStep.choose key e x) o f = omega (arith, ap take_weight e, ap length f)
  EraseStep-weight l t (EraseStep.remove r u e run ok) o (v, f) =
      omega (arith, ap take_weight e, ap length f)
  EraseStep-weight l t (EraseStep.fail r u e run bad) o f =
      omega (arith, ap take_weight e, ap length f)

  pub step-weight :
      (l : Label) (t : Shared W)
      → Step E kind s l t
      → is_own l ≡ true
      → Effect l items items'
      → weight items' t < weight items s
  step-weight l t (put_step x) = PutStep-weight l t x
  step-weight l t (take_step x) = TakeStep-weight l t x
  step-weight l t (clear_step x) = ClearStep-weight l t x
  step-weight l t (erase_step x) = EraseStep-weight l t x
