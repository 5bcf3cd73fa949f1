-- ===== src/Kueue/Threads/Clears.antt =====
-- The steps of clear keep the numbers and the column family in line with the messages.
use librocks_dll.Prelude.{ℕ, some, List, ◌≡◌, refl, subst, arith}
use librocks_dll.Prelude.Tests.{length}
use librocks_dll.Prelude.Text.{Text}
use librocks_dll.Engine.{Engine, Handle}
use librocks_dll.Engine.Laws.{Laws}
use librocks_dll.Kind.{KindImpl, kind_impl}
use librocks_dll.Kueue.Threads.State.{
  put_free, take_free, clear_inside, clear_waits, clear_testing, clear_chosen, clear_removed,
  clear_advanced, Shared,
}
use librocks_dll.Kueue.Threads.Labels.{Label}
use librocks_dll.Kueue.Threads.Removals.{ClearStep}
use librocks_dll.Kueue.Threads.Numbers.{Numbers, put_side-Numbers}
use librocks_dll.Kueue.Threads.Moves.{
  move_on-Numbers, subtract-Numbers, is_positive-positive, enter_both-Numbers, leave_both-Numbers,
}
use librocks_dll.Kueue.Threads.Keys.{move-Keys}
use librocks_dll.Kueue.Threads.Invariant.{
  put_side-Keys, take_side-Keys, IsShared, Next, with_put, with_take, moved, message,
}
use librocks_dll.Kueue.Threads.First.{discard-Next}

module _ {W : Type 0} {E : Engine W} (L : Laws E) (k : KindImpl) (h : Handle) where
  module _ (handle : k.handle_ ≡ some h) (items : List Text) (s : Shared W)
      (i : IsShared L k h items s) where
    abbrev n : ℕ
    n = length items

    pub clear_step-Next :
        (l : Label) (t : Shared W) → ClearStep E (kind_impl k) s l t → Next L k h l items t
    clear_step-Next l t (ClearStep.enter e x) = (
      items,
      refl,
      record {
        lo = i.lo;
        kind = i.kind;
        valid = i.valid;
        keys = put_side-Keys L k h items s i (clear_waits) (omega arith);
        numbers =
            put_side-Numbers i.lo n s.queue put_free clear_waits s.take_side refl refl refl tt
              (with_put L k h items s i put_free e);
        holds = i.holds;
      },
    )
    clear_step-Next l t (ClearStep.enter_both e x) = (
      items,
      refl,
      record {
        lo = i.lo;
        kind = i.kind;
        valid = i.valid;
        keys =
            move-Keys i.lo n s.put_side i.lo n clear_inside s.take_side clear_testing s.read_keys
              (omega arith) tt i.keys;
        numbers = enter_both-Numbers i.lo n s.queue (
            subst (λ t. Numbers i.lo n s.queue clear_waits t) x
              (with_put L k h items s i clear_waits e));
        holds = i.holds;
      },
    )
    clear_step-Next l t (ClearStep.choose e x) = (
      items,
      refl,
      record {
        lo = i.lo;
        kind = i.kind;
        valid = i.valid;
        keys = take_side-Keys L k h items s i (clear_chosen) tt;
        numbers =
            moved L k h items s i clear_testing clear_chosen e refl refl refl
              (λ z. is_positive-positive s.queue.count x);
        holds = i.holds;
      },
    )
    clear_step-Next l t (ClearStep.remove status r u e run ok) =
        (discard-Next L k h handle s clear_chosen clear_removed items status r u refl refl refl refl
            refl refl (λ _ _. tt) i (message L k h items s i clear_chosen e refl refl) e run).0
          ok
    clear_step-Next l t (ClearStep.move_on e) = (
      items,
      refl,
      record {
        lo = i.lo;
        kind = i.kind;
        valid = i.valid;
        keys = take_side-Keys L k h items s i (clear_advanced) tt;
        numbers =
            move_on-Numbers i.lo n s.queue s.put_side clear_removed clear_advanced refl refl refl
              refl refl (with_take L k h items s i clear_removed e);
        holds = i.holds;
      },
    )
    clear_step-Next l t (ClearStep.subtract e) = (
      items,
      refl,
      record {
        lo = i.lo;
        kind = i.kind;
        valid = i.valid;
        keys = take_side-Keys L k h items s i (clear_testing) tt;
        numbers =
            subtract-Numbers i.lo n s.queue s.put_side clear_advanced clear_testing refl refl refl
              refl refl refl (with_take L k h items s i clear_advanced e);
        holds = i.holds;
      },
    )
    clear_step-Next l t (ClearStep.fail status r u e run bad) = (
      items,
      refl,
      record {
        lo = i.lo;
        kind = i.kind;
        valid = i.valid;
        keys =
            move-Keys i.lo n s.put_side i.lo n put_free s.take_side take_free s.read_keys
              (omega arith) tt i.keys;
        numbers =
            leave_both-Numbers i.lo n s.queue s.put_side clear_chosen refl refl refl
              (with_take L k h items s i clear_chosen e);
        holds =
            (discard-Next L k h handle s clear_chosen clear_removed items status r u refl refl refl
                refl refl refl (λ _ _. tt) i (message L k h items s i clear_chosen e refl refl) e
                run).1
              bad;
      },
    )
    clear_step-Next l t (ClearStep.leave e x) = (
      items,
      refl,
      record {
        lo = i.lo;
        kind = i.kind;
        valid = i.valid;
        keys =
            move-Keys i.lo n s.put_side i.lo n put_free s.take_side take_free s.read_keys
              (omega arith) tt i.keys;
        numbers =
            leave_both-Numbers i.lo n s.queue s.put_side clear_testing refl refl refl
              (with_take L k h items s i clear_testing e);
        holds = i.holds;
      },
    )
