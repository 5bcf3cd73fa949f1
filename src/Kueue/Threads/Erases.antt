-- ===== src/Kueue/Threads/Erases.antt =====
-- The steps of erase keep the numbers and the column family in line with the messages.
use librocks_dll.Prelude.{ℕ, true, none, ◌+◌, ◌<◌, some, List, ◌≡◌, refl, subst, arith}
use librocks_dll.Prelude.Tests.{length, ◌==◌}
use librocks_dll.Status
use librocks_dll.Prelude.Text.{Text}
use librocks_dll.Engine.{Engine, Handle}
use librocks_dll.Engine.Laws.{Laws}
use librocks_dll.Kind.{KindImpl, kind_impl}
use librocks_dll.Kueue.Threads.State.{
  erasing, erase_chosen, removed, take_leaving, take_free, Shared,
}
use librocks_dll.Kueue.Threads.Labels.{Label}
use librocks_dll.Kueue.Threads.Removals.{EraseStep}
use librocks_dll.Kueue.Threads.Numbers.{uncounted}
use librocks_dll.Kueue.Threads.Keys.{pick-Keys, ErasesBelow}
use librocks_dll.Kueue.Threads.Invariant.{
  with_take, take_side-Keys, IsShared, Next, with_take, moved, message, stood,
}
use librocks_dll.Kueue.Threads.First.{discard-Next}

module _ {W : Type 0} {E : Engine W} (L : Laws E) (k : KindImpl) (h : Handle) where
  module _ (handle : k.handle_ ≡ some h) (items : List Text) (s : Shared W)
      (i : IsShared L k h items s) where
    abbrev n : ℕ
    n = length items

    eq-from : (a b : ℕ) → (a == b) ≡ true → a ≡ b
    eq-from a b e = ground arith

    -- A key that readNext returned, and that is the first key, is the key of a counted message.
    counted_message :
        (key : ℕ) → s.take_side ≡ erasing key → (key == s.queue.min_key) ≡ true → 0 < s.queue.count
    counted_message key e x =
        let m = with_take L k h items s i (erasing key) e in
        let b : key + uncounted s.put_side < i.lo + n =
          subst (λ t. ErasesBelow (uncounted s.put_side) (i.lo + n) t) e i.keys.erases in
        omega (arith, m.min_key, m.count, eq-from key s.queue.min_key x, b)

    pub erase_step-Next :
        (l : Label) (t : Shared W) → EraseStep E (kind_impl k) s l t → Next L k h l items t
    erase_step-Next l t (EraseStep.enter front back key x e y) = (
      items,
      refl,
      record {
        lo = i.lo;
        kind = i.kind;
        valid = i.valid;
        keys =
            take_side-Keys L k h items s i (erasing key)
              (pick-Keys i.lo n s.put_side s.take_side front back key x i.keys);
        numbers = stood L k h items s i take_free (erasing key) e refl refl refl refl;
        holds = i.holds;
      },
    )
    erase_step-Next l t (EraseStep.pass_by key e x) = (
      items,
      refl,
      record {
        lo = i.lo;
        kind = i.kind;
        valid = i.valid;
        keys = take_side-Keys L k h items s i take_free tt;
        numbers = stood L k h items s i (erasing key) take_free e refl refl refl refl;
        holds = i.holds;
      },
    )
    erase_step-Next l t (EraseStep.choose key e x) = (
      items,
      refl,
      record {
        lo = i.lo;
        kind = i.kind;
        valid = i.valid;
        keys = take_side-Keys L k h items s i erase_chosen tt;
        numbers =
            moved L k h items s i (erasing key) erase_chosen e refl refl refl
              (λ z. counted_message key e x);
        holds = i.holds;
      },
    )
    erase_step-Next l t (EraseStep.remove r u e run ok) =
        (discard-Next L k h handle s erase_chosen removed items (some Status.ok) r u refl refl refl
            refl refl refl (λ _ _. tt) i (message L k h items s i erase_chosen e refl refl) e run).0
          ok
    erase_step-Next l t (EraseStep.fail r u e run bad) = (
      items,
      refl,
      record {
        lo = i.lo;
        kind = i.kind;
        valid = i.valid;
        keys = take_side-Keys L k h items s i (take_leaving none) tt;
        numbers = stood L k h items s i erase_chosen (take_leaving none) e refl refl refl refl;
        holds =
            (discard-Next L k h handle s erase_chosen removed items (some Status.ok) r u refl refl
                refl refl refl refl (λ _ _. tt) i (message L k h items s i erase_chosen e refl refl)
                e run).1
              bad;
      },
    )
