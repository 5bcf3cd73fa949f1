-- ===== src/Kueue/Threads/Progress.antt =====
-- The threads of a queue do not block each other: while one of them is inside a call that does not wait
-- for a message, one of them can go on.
use librocks_dll.Prelude.{
  ℕ, zero, suc, Bool, true, false, Option, none, some, List, [], ◌∷◌, ◌≡◌, ◌⊎◌, inl, inr, refl, ◌∙◌,
  sym, ap, false≢true,
}
use librocks_dll.Prelude.Tests.{◌==◌, Bool-cases}
use librocks_dll.Prelude.Text.{Text}
use librocks_dll.Prelude.Action.{Returns}
use librocks_dll.Status
use librocks_dll.Status.{IntPtr}
use librocks_dll.Engine.{Engine, Handle}
use librocks_dll.Engine.Laws.{Laws}
use librocks_dll.Codec.Bytes.{put_u64_be}
use librocks_dll.Kind.{Kind, KindImpl, kind_impl}
use librocks_dll.Store.Writes.{put_lem, single_remove_lem}
use librocks_dll.Store.Reads.{get_lem}
use librocks_dll.Store.Updates.{single_remove_if_present_lem}
use librocks_dll.Kueue.State.{is_ok, is_positive}
use librocks_dll.Kueue.Threads.State.{
  Waiter, goes_on, PutSide, put_free, claimed, stored, refused, put_leaving, clear_waits,
  clear_inside, TakeSide, take_free, signalling, testing, expired, chosen, removed, advanced,
  take_leaving, erasing, erase_chosen, clear_testing, clear_chosen, clear_removed, clear_advanced,
  Shared,
}
use librocks_dll.Kueue.Threads.Step
use librocks_dll.Kueue.Threads.Labels.{
  Label, enters, claims, removes, leaves_more, Notified, nobody, somebody,
}
use librocks_dll.Kueue.Threads.Removals.{ClearStep, EraseStep}
use librocks_dll.Kueue.Threads.Step.{
  PutStep, TakeStep, Step, put_step, take_step, clear_step, erase_step,
}
use librocks_dll.Kueue.Threads.Numbers
use librocks_dll.Kueue.Threads.Invariant.{IsShared}

-- a step that the threads make by themselves
abbrev pub is_own : Label → Bool
is_own enters = false
is_own claims = false
is_own l = true

-- No thread holds a lock, is on its way to signalNotEmpty or was notified.
pub record IsQuiet {W : Type 0} (s : Shared W) : Type 0 where
  pub put_side : s.put_side ≡ put_free
  pub take_side : s.take_side ≡ take_free
  pub signals : s.signals ≡ 0
  pub woken : s.woken ≡ []

pub record CanStep {W : Type 0} (E : Engine W) (kind : Kind) (s : Shared W) : Type 0 where
  pub label : Label
  pub next : Shared W
  pub step : Step E kind s label next
  pub own : is_own label ≡ true

Returns-result :
    {S A : Type 0} {P : A → S → Type 0} (r : Option (A × S))
    → Returns r P
    → (a : A) × (s : S) × (r ≡ some (a, s))
Returns-result none h = absurd h.out
Returns-result (some (a, s)) h = (a, s, refl)

-- notify_one always can be called
notified :
    (waiting woken : List Waiter)
    → (v : List Waiter) × (w : List Waiter) × Notified waiting woken v w
notified [] woken = ([], woken, nobody)
notified (c ∷ cs) woken = (cs, c ∷ woken, somebody [] cs c)

module _ {W : Type 0} {E : Engine W} (L : Laws E) (k : KindImpl) (h : Handle)
    (handle : k.handle_ ≡ some h) (items : List Text) (s : Shared W)
    (i : IsShared L k h items s) where
  abbrev Can : Type 0
  Can = CanStep E (kind_impl k) s

  by_put : {l : Label} {t : Shared W} → is_own l ≡ true → PutStep E (kind_impl k) s l t → Can
  by_put o x = record { label = _; next = _; step = put_step x; own = o }

  by_take : {l : Label} {t : Shared W} → is_own l ≡ true → TakeStep E (kind_impl k) s l t → Can
  by_take o x = record { label = _; next = _; step = take_step x; own = o }

  by_clear : {l : Label} {t : Shared W} → is_own l ≡ true → ClearStep E (kind_impl k) s l t → Can
  by_clear o x = record { label = _; next = _; step = clear_step x; own = o }

  by_erase : {l : Label} {t : Shared W} → is_own l ≡ true → EraseStep E (kind_impl k) s l t → Can
  by_erase o x = record { label = _; next = _; step = erase_step x; own = o }

  put_can : (v : Text) (key : ℕ) → s.put_side ≡ claimed v key → Can
  put_can v key e =
      let (r, u, x) =
        Returns-result _ (
          put_lem L (some Status.ok) (kind_impl k) s.sys (some (put_u64_be key)) v i.holds.store) in
      elim (Bool-cases (is_ok r)) [
        | inl ok ↦ by_put refl (Step.store v key (some Status.ok) r u e x ok)
        | inr bad ↦ by_put refl (PutStep.fail v key (some Status.ok) r u e x bad)
      ]

  remove_can : (c : Waiter) → s.take_side ≡ chosen c → removes c ≡ true → Can
  remove_can c e d =
      let (r, u, x) = Returns-result _ (
        single_remove_if_present_lem L k h handle 0 (put_u64_be s.queue.min_key) (some Status.ok)
          s.sys i.holds.store i.holds.opened) in
      elim (Bool-cases (is_ok r.status)) [
        | inl ok ↦ by_take refl (TakeStep.remove c (some Status.ok) (some 0) r u e d x ok)
        | inr bad ↦ by_take refl (TakeStep.fail c (some Status.ok) (some 0) r u e d x bad)
      ]

  read_can : (c : Waiter) → s.take_side ≡ chosen c → removes c ≡ false → Can
  read_can c e d =
      let (r, u, x) = Returns-result _ (
        get_lem L (some Status.ok) (kind_impl k) (some 0) (some (put_u64_be s.queue.min_key)) s.sys
          i.holds.store) in
      by_take refl (Step.read c (some Status.ok) (some 0) r u e d x)

  discard_can : s.take_side ≡ clear_chosen → Can
  discard_can e =
      let (r, u, x) = Returns-result _ (
        single_remove_lem L (some Status.ok) (kind_impl k) s.sys (some (put_u64_be s.queue.min_key))
          i.holds.store) in
      elim (Bool-cases (is_ok r)) [
        | inl ok ↦ by_clear refl (ClearStep.remove (some Status.ok) r u e x ok)
        | inr bad ↦ by_clear refl (ClearStep.fail (some Status.ok) r u e x bad)
      ]

  erase_can : s.take_side ≡ erase_chosen → Can
  erase_can e =
      let (r, u, x) = Returns-result _ (
        single_remove_lem L (some Status.ok) (kind_impl k) s.sys (some (put_u64_be s.queue.min_key))
          i.holds.store) in
      elim (Bool-cases (is_ok r)) [
        | inl ok ↦ by_erase refl (EraseStep.remove r u e x ok)
        | inr bad ↦ by_erase refl (EraseStep.fail r u e x bad)
      ]

  -- the holder of takeLock
  take_can : (t : TakeSide) → s.take_side ≡ t → (t ≡ take_free) ⊎ Can
  take_can take_free e = inl refl
  take_can signalling e =
      let (v, w, x) = notified s.waiting s.woken in inr (by_put refl (Step.signal v w e x))
  take_can (testing c) e = inr (elim (Bool-cases (goes_on c s.queue.count)) [
    | inl g ↦ by_take refl (TakeStep.choose c (inl e) g)
    | inr g ↦ by_take refl (Step.wait c e g)
  ])
  take_can (expired c) e = inr (elim (Bool-cases (goes_on c s.queue.count)) [
    | inl g ↦ by_take refl (TakeStep.choose c (inr e) g)
    | inr g ↦ by_take refl (Step.give_up c e g)
  ])
  take_can (chosen c) e =
      inr (elim (Bool-cases (removes c)) [ inl d ↦ remove_can c e d | inr d ↦ read_can c e d ])
  take_can (erasing key) e = inr (elim (Bool-cases (key == s.queue.min_key)) [
    | inl x ↦ by_erase refl (EraseStep.choose key e x)
    | inr x ↦ by_erase refl (EraseStep.pass_by key e x)
  ])
  take_can erase_chosen e = inr (erase_can e)
  take_can removed e = inr (by_take refl (TakeStep.move_on e))
  take_can advanced e = inr (by_take refl (TakeStep.subtract e))
  take_can (take_leaving c) e = inr (elim (Bool-cases (leaves_more c)) [
    | inl m ↦ let (v, w, x) = notified s.waiting s.woken in by_take refl (Step.pass_on c v w e m x)
    | inr m ↦ by_take refl (TakeStep.leave c e m)
  ])
  take_can clear_testing e = inr (elim (Bool-cases (is_positive s.queue.count)) [
    | inl p ↦ by_clear refl (ClearStep.choose e p)
    | inr p ↦ by_clear refl (ClearStep.leave e p)
  ])
  take_can clear_chosen e = inr (discard_can e)
  take_can clear_removed e = inr (by_clear refl (ClearStep.move_on e))
  take_can clear_advanced e = inr (by_clear refl (ClearStep.subtract e))

  -- the holder of putLock, while takeLock is free
  put_side_can : (p : PutSide) → s.put_side ≡ p → s.take_side ≡ take_free → (p ≡ put_free) ⊎ Can
  put_side_can put_free e f = inl refl
  put_side_can (claimed v key) e f = inr (put_can v key e)
  put_side_can stored e f = inr (by_put refl (Step.add e))
  put_side_can refused e f = inr (by_put refl (Step.give_back e))
  put_side_can (put_leaving c) e f = inr (by_put refl (PutStep.leave c e))
  put_side_can clear_waits e f = inr (by_clear refl (ClearStep.enter_both e f))
  put_side_can clear_inside e f =
      absurd (false≢true (ap Numbers.is_clear (sym f) ∙ (i.numbers.both ∙ ap Numbers.is_inside e)))

  pending_can :
      (m : ℕ) (woken : List Waiter)
      → s.signals ≡ m
      → s.woken ≡ woken
      → s.put_side ≡ put_free
      → s.take_side ≡ take_free
      → IsQuiet s ⊎ Can
  pending_can zero [] a b p t = inl (record { put_side = p; take_side = t; signals = a; woken = b })
  pending_can zero (c ∷ woken) a b p t = inr (by_take refl (Step.enter_again [] woken c b t))
  pending_can (suc m) woken a b p t = inr (by_put refl (Step.enter_signal m a t))

  -- A queue in use never stands still: either it is quiet, or one of its threads can make a step of its
  -- own, whatever the calls of the store report.
  pub IsQuiet-or-CanStep : IsQuiet s ⊎ CanStep E (kind_impl k) s
  IsQuiet-or-CanStep = elim (take_can s.take_side refl) [
    | inr c ↦ inr c
    | inl t ↦ elim (put_side_can s.put_side refl t) [
      | inr c ↦ inr c
      | inl p ↦ pending_can s.signals s.woken refl refl p t
    ]
  ]
