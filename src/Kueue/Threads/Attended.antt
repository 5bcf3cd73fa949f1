-- ===== src/Kueue/Threads/Attended.antt =====
-- The notifications of notEmpty: a call that waits while there is a message is not forgotten.
use librocks_dll.Prelude.{
  ℕ, suc, ◌<◌, ◌≤◌, ◌^◌, Bool, true, false, some, List, [], ◌∷◌, ◌≡◌, ◌⊎◌, inl, inr, refl, ◌∙◌, sym,
  ap, false≢true, arith,
}
use librocks_dll.Prelude.Tests.{Bool-cases, if◌then◌else◌, ◌==◌}
use librocks_dll.Prelude.Text.{Text}
use librocks_dll.Engine.{Engine, Handle}
use librocks_dll.Engine.Laws.{Laws}
use librocks_dll.Kind.{KindImpl, kind_impl}
use librocks_dll.Kueue.State.{dec64, is_positive}
use librocks_dll.Kueue.Threads.State.{
  Waiter, PutSide, stored, put_leaving, TakeSide, take_free, testing, expired, advanced,
  take_leaving, erasing, clear_testing, Shared,
}
use librocks_dll.Kueue.Threads.Step
use librocks_dll.Kueue.Threads.Labels.{
  count_put, Label, peeks, abandons, is_zero, leaves_more, Notified, nobody, somebody,
}
use librocks_dll.Kueue.Threads.Removals.{ClearStep, EraseStep}
use librocks_dll.Kueue.Threads.Step.{
  PutStep, TakeStep, Step, put_step, take_step, clear_step, erase_step,
}
use librocks_dll.Kueue.Threads.Numbers.{overcounted}
use librocks_dll.Kueue.Threads.Moves.{goes_on-zero}
use librocks_dll.Kueue.Threads.Invariant.{IsShared, with_take}

-- neither the read of readNext nor a removal that failed
abbrev pub is_calm : Label → Bool
is_calm peeks = false
is_calm abandons = false
is_calm l = true

-- The thread tests the count again, or notifies, before it gives up takeLock for good.
abbrev pub checks : TakeSide → Bool
checks take_free = false
checks (erasing key) = false
checks (take_leaving c) = leaves_more c
checks t = true

-- The put will signal.
abbrev pub owes : PutSide → Bool
owes (put_leaving c) = is_zero c
owes p = false

-- Who waits while there is a message, has someone to wake it.
pub data IsAttended {W : Type 0} (s : Shared W) : Type 0 where
  nobody_waits : s.waiting ≡ [] → IsAttended s
  is_empty : s.queue.count ≡ 0 → IsAttended s
  will_signal : 0 < s.signals → IsAttended s
  put_signals : owes s.put_side ≡ true → IsAttended s
  was_woken : (c : Waiter) (ws : List Waiter) → s.woken ≡ c ∷ ws → IsAttended s
  will_check : checks s.take_side ≡ true → IsAttended s

Notified-cases :
    (waiting woken v w : List Waiter)
    → Notified waiting woken v w
    → (v ≡ []) ⊎ ((c : Waiter) × (ws : List Waiter) × (w ≡ c ∷ ws))
Notified-cases waiting woken v w nobody = inl refl
Notified-cases waiting woken v w (somebody front back c) = inr (c, woken, refl)

module _ {W : Type 0} where
  -- what a step leaves alone
  carry :
      (s t : Shared W)
      → t.waiting ≡ s.waiting
      → t.woken ≡ s.woken
      → t.queue.count ≡ s.queue.count
      → s.signals ≤ t.signals
      → (owes s.put_side ≡ true → owes t.put_side ≡ true)
      → (checks s.take_side ≡ true → checks t.take_side ≡ true)
      → IsAttended s
      → IsAttended t
  carry s t a b c d o k (nobody_waits e) = nobody_waits (a ∙ e)
  carry s t a b c d o k (is_empty e) = is_empty (c ∙ e)
  carry s t a b c d o k (will_signal e) = will_signal (omega (arith, d, e))
  carry s t a b c d o k (put_signals e) = put_signals (o e)
  carry s t a b c d o k (was_woken x xs e) = was_woken x xs (b ∙ e)
  carry s t a b c d o k (will_check e) = will_check (k e)

  -- A put that finds messages leaves it to the others.
  add-IsAttended :
      (s : Shared W)
      → s.put_side ≡ stored
      → (s.queue.count == 0) ≡ false
      → IsAttended s
      → IsAttended
          (record s { put_side = put_leaving (some s.queue.count); queue = count_put s.queue })
  add-IsAttended s e z (nobody_waits x) = nobody_waits x
  add-IsAttended s e z (is_empty x) = absurd (false≢true (sym z ∙ ap (λ c. c == 0) x))
  add-IsAttended s e z (will_signal x) = will_signal x
  add-IsAttended s e z (put_signals x) = absurd (false≢true (ap owes (sym e) ∙ x))
  add-IsAttended s e z (was_woken c ws x) = was_woken c ws x
  add-IsAttended s e z (will_check x) = will_check x

  notified-IsAttended :
      (s t : Shared W) → Notified s.waiting s.woken t.waiting t.woken → IsAttended t
  notified-IsAttended s t x = elim (Notified-cases s.waiting s.woken t.waiting t.woken x) [
    | inl e ↦ nobody_waits e
    | inr y ↦ was_woken y.0 y.1 y.2
  ]

last_taken : (count : ℕ) → 0 < count → leaves_more (some count) ≡ false → dec64 count ≡ 0
last_taken count p e = ground arith

not_positive : (count : ℕ) → count < 2 ^ 63 → is_positive count ≡ false → count ≡ 0
not_positive count b e = ground arith

module _ {W : Type 0} {E : Engine W} (L : Laws E) (k : KindImpl) (h : Handle) (items : List Text)
    (s : Shared W) (i : IsShared L k h items s) (a : IsAttended s) where
  count_lt : (t : TakeSide) → s.take_side ≡ t → overcounted t ≡ 0 → s.queue.count < 2 ^ 63
  count_lt t e o =
      let m = with_take L k h items s i t e in omega (arith, m.count, m.max_key, m.bound, o)

  put_step-IsAttended : (l : Label) (t : Shared W) → PutStep E (kind_impl k) s l t → IsAttended t
  put_step-IsAttended l t (Step.claim v e x) =
      carry s t refl refl refl (omega arith) (λ o. absurd (false≢true (ap owes (sym e) ∙ o)))
        (λ c. c) a
  put_step-IsAttended l t (Step.store v key status r u e x ok) =
      carry s t refl refl refl (omega arith) (λ o. absurd (false≢true (ap owes (sym e) ∙ o)))
        (λ c. c) a
  put_step-IsAttended l t (PutStep.fail v key status r u e x ok) =
      carry s t refl refl refl (omega arith) (λ o. absurd (false≢true (ap owes (sym e) ∙ o)))
        (λ c. c) a
  put_step-IsAttended l t (Step.add e) = elim (Bool-cases (s.queue.count == 0)) [
    | inl z ↦ put_signals z
    | inr z ↦ add-IsAttended s e z a
  ]
  put_step-IsAttended l t (Step.give_back e) =
      carry s t refl refl refl (omega arith) (λ o. absurd (false≢true (ap owes (sym e) ∙ o)))
        (λ c. c) a
  put_step-IsAttended l t (PutStep.leave c e) = elim (Bool-cases (is_zero c)) [
    | inl z ↦
        will_signal (omega (arith, ap {B = ℕ} (λ b. (if b then suc s.signals else s.signals)) z))
    | inr z ↦
        carry s t refl refl refl
          (omega (arith, ap {B = ℕ} (λ b. (if b then suc s.signals else s.signals)) z))
          (λ o. absurd (false≢true (sym z ∙ (ap owes (sym e) ∙ o)))) (λ c. c) a
  ]
  put_step-IsAttended l t (Step.enter_signal m x e) = will_check refl
  put_step-IsAttended l t (Step.signal v w e x) = notified-IsAttended s t x

  take_step-IsAttended :
      (l : Label) (t : Shared W) → TakeStep E (kind_impl k) s l t → is_calm l ≡ true → IsAttended t
  take_step-IsAttended l t (TakeStep.enter c e x) m = will_check refl
  take_step-IsAttended l t (Step.wait c e x) m =
      is_empty (goes_on-zero c s.queue.count (count_lt (testing c) e refl) x)
  take_step-IsAttended l t (Step.wake_up front back c e) m = was_woken c s.woken refl
  take_step-IsAttended l t (Step.enter_again front back c x e) m = will_check refl
  take_step-IsAttended l t (Step.expire front back c x d e) m = will_check refl
  take_step-IsAttended l t (Step.expire_woken front back c x d e) m = will_check refl
  take_step-IsAttended l t (Step.give_up c e x) m =
      is_empty (goes_on-zero c s.queue.count (count_lt (expired c) e refl) x)
  take_step-IsAttended l t (TakeStep.choose c e x) m = will_check refl
  take_step-IsAttended l t (TakeStep.remove c status n r u e x run ok) m = will_check refl
  take_step-IsAttended l t (TakeStep.fail c status n r u e x run bad) m = absurd (false≢true m)
  take_step-IsAttended l t (Step.read c status n r u e x run) m = absurd (false≢true m)
  take_step-IsAttended l t (TakeStep.move_on e) m = will_check refl
  take_step-IsAttended l t (TakeStep.subtract e) m =
      elim (Bool-cases (leaves_more (some s.queue.count))) [
        | inl z ↦ will_check z
        | inr z ↦
            is_empty
              (last_taken s.queue.count ((with_take L k h items s i advanced e).seated refl) z)
      ]
  take_step-IsAttended l t (TakeStep.leave c e x) m =
      carry s t refl refl refl (omega arith) (λ o. o)
        (λ y. absurd (false≢true (sym x ∙ (ap checks (sym e) ∙ y)))) a
  take_step-IsAttended l t (Step.pass_on c v w e x y) m = notified-IsAttended s t y

  clear_step-IsAttended :
      (l : Label) (t : Shared W) → ClearStep E (kind_impl k) s l t → is_calm l ≡ true → IsAttended t
  clear_step-IsAttended l t (ClearStep.enter e x) m =
      carry s t refl refl refl (omega arith) (λ o. absurd (false≢true (ap owes (sym e) ∙ o)))
        (λ c. c) a
  clear_step-IsAttended l t (ClearStep.enter_both e x) m = will_check refl
  clear_step-IsAttended l t (ClearStep.choose e x) m = will_check refl
  clear_step-IsAttended l t (ClearStep.remove status r u e run ok) m = will_check refl
  clear_step-IsAttended l t (ClearStep.move_on e) m = will_check refl
  clear_step-IsAttended l t (ClearStep.subtract e) m = will_check refl
  clear_step-IsAttended l t (ClearStep.fail status r u e run bad) m = absurd (false≢true m)
  clear_step-IsAttended l t (ClearStep.leave e x) m =
      is_empty (not_positive s.queue.count (count_lt clear_testing e refl) x)

  erase_step-IsAttended :
      (l : Label) (t : Shared W) → EraseStep E (kind_impl k) s l t → is_calm l ≡ true → IsAttended t
  erase_step-IsAttended l t (EraseStep.enter front back key x e y) m =
      carry s t refl refl refl (omega arith) (λ o. o)
        (λ c. absurd (false≢true (ap checks (sym e) ∙ c))) a
  erase_step-IsAttended l t (EraseStep.pass_by key e x) m =
      carry s t refl refl refl (omega arith) (λ o. o)
        (λ c. absurd (false≢true (ap checks (sym e) ∙ c))) a
  erase_step-IsAttended l t (EraseStep.choose key e x) m = will_check refl
  erase_step-IsAttended l t (EraseStep.remove r u e run ok) m = will_check refl
  erase_step-IsAttended l t (EraseStep.fail r u e run bad) m = absurd (false≢true m)

  pub step-IsAttended :
      (l : Label) (t : Shared W) → Step E (kind_impl k) s l t → is_calm l ≡ true → IsAttended t
  step-IsAttended l t (put_step x) m = put_step-IsAttended l t x
  step-IsAttended l t (take_step x) m = take_step-IsAttended l t x m
  step-IsAttended l t (clear_step x) m = clear_step-IsAttended l t x m
  step-IsAttended l t (erase_step x) m = erase_step-IsAttended l t x m
