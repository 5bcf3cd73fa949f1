-- ===== src/Kueue/Threads/Takes.antt =====
-- The steps of both overloads of take and of readNext keep the numbers and the column family in line
-- with the messages.
use librocks_dll.Prelude.{arith, ◌+◌, ◌<◌, ℕ, none, some, List, ◌≡◌, inl, inr, refl}
use librocks_dll.Prelude.Tests.{length}
use librocks_dll.Prelude.Text.{Text}
use librocks_dll.Engine.{Engine, Handle}
use librocks_dll.Engine.Laws.{Laws}
use librocks_dll.Kind.{KindImpl, kind_impl}
use librocks_dll.Kueue.Threads.State.{
  Waiter, take_free, testing, expired, chosen, removed, advanced, take_leaving, Shared,
}
use librocks_dll.Kueue.Threads.Step
use librocks_dll.Kueue.Threads.Labels.{Label}
use librocks_dll.Kueue.Threads.Step.{PutStep, TakeStep, Step, put_step, take_step, clear_step}
use librocks_dll.Kueue.Threads.Moves.{
  move_on-Numbers, subtract-Numbers, notify-Numbers, goes_on-positive,
}
use librocks_dll.Kueue.Threads.Calls.{read-Holds}
use librocks_dll.Kueue.State.{is_ok}
use librocks_dll.Kueue.Threads.Numbers.{uncounted}
use librocks_dll.Kueue.Threads.Keys.{read-Keys}
use librocks_dll.Kueue.Threads.Invariant.{
  take_side-Keys, IsShared, Next, with_take, moved, stood, message,
}
use librocks_dll.Kueue.Threads.First.{take-Next}

module _ {W : Type 0} {E : Engine W} (L : Laws E) (k : KindImpl) (h : Handle) where
  module _ (handle : k.handle_ ≡ some h) (items : List Text) (s : Shared W)
      (i : IsShared L k h items s) where
    abbrev n : ℕ
    n = length items

    -- The first message has been counted.
    first_counted :
        (c : Waiter) → s.take_side ≡ chosen c → s.queue.min_key + uncounted s.put_side < i.lo + n
    first_counted c e =
        let m = with_take L k h items s i (chosen c) e in
        omega (arith, m.min_key, m.count, m.seated refl)

    pub take_step-Next :
        (l : Label) (t : Shared W) → TakeStep E (kind_impl k) s l t → Next L k h l items t
    take_step-Next l t (TakeStep.enter c e x) = (
      items,
      refl,
      record {
        lo = i.lo;
        kind = i.kind;
        valid = i.valid;
        keys = take_side-Keys L k h items s i (testing c) tt;
        numbers = stood L k h items s i take_free (testing c) e refl refl refl refl;
        holds = i.holds;
      },
    )
    take_step-Next l t (Step.wait c e x) = (
      items,
      refl,
      record {
        lo = i.lo;
        kind = i.kind;
        valid = i.valid;
        keys = take_side-Keys L k h items s i (take_free) tt;
        numbers = stood L k h items s i (testing c) take_free e refl refl refl refl;
        holds = i.holds;
      },
    )
    take_step-Next l t (Step.wake_up front back c e) = (
      items,
      refl,
      record {
        lo = i.lo;
        kind = i.kind;
        valid = i.valid;
        keys = i.keys;
        numbers = i.numbers;
        holds = i.holds;
      },
    )
    take_step-Next l t (Step.enter_again front back c x e) = (
      items,
      refl,
      record {
        lo = i.lo;
        kind = i.kind;
        valid = i.valid;
        keys = take_side-Keys L k h items s i (testing c) tt;
        numbers = stood L k h items s i take_free (testing c) e refl refl refl refl;
        holds = i.holds;
      },
    )
    take_step-Next l t (Step.expire front back c x d e) = (
      items,
      refl,
      record {
        lo = i.lo;
        kind = i.kind;
        valid = i.valid;
        keys = take_side-Keys L k h items s i (expired c) tt;
        numbers = stood L k h items s i take_free (expired c) e refl refl refl refl;
        holds = i.holds;
      },
    )
    take_step-Next l t (Step.expire_woken front back c x d e) = (
      items,
      refl,
      record {
        lo = i.lo;
        kind = i.kind;
        valid = i.valid;
        keys = take_side-Keys L k h items s i (expired c) tt;
        numbers = stood L k h items s i take_free (expired c) e refl refl refl refl;
        holds = i.holds;
      },
    )
    take_step-Next l t (Step.give_up c e x) = (
      items,
      refl,
      record {
        lo = i.lo;
        kind = i.kind;
        valid = i.valid;
        keys = take_side-Keys L k h items s i (take_free) tt;
        numbers = stood L k h items s i (expired c) take_free e refl refl refl refl;
        holds = i.holds;
      },
    )
    take_step-Next l t (TakeStep.choose c (inl e) x) = (
      items,
      refl,
      record {
        lo = i.lo;
        kind = i.kind;
        valid = i.valid;
        keys = take_side-Keys L k h items s i (chosen c) tt;
        numbers =
            moved L k h items s i (testing c) (chosen c) e refl refl refl
              (λ z. goes_on-positive c s.queue.count x);
        holds = i.holds;
      },
    )
    take_step-Next l t (TakeStep.choose c (inr e) x) = (
      items,
      refl,
      record {
        lo = i.lo;
        kind = i.kind;
        valid = i.valid;
        keys = take_side-Keys L k h items s i (chosen c) tt;
        numbers =
            moved L k h items s i (expired c) (chosen c) e refl refl refl
              (λ z. goes_on-positive c s.queue.count x);
        holds = i.holds;
      },
    )
    take_step-Next l t (TakeStep.remove c status m r u e x run ok) =
        (take-Next L k h handle s items c status m r u i
            (message L k h items s i (chosen c) e refl refl) e run).0
          ok
    take_step-Next l t (TakeStep.fail c status m r u e x run bad) =
        (take-Next L k h handle s items c status m r u i
            (message L k h items s i (chosen c) e refl refl) e run).1
          bad
    take_step-Next l t (Step.read c status m r u e x run) = (
      items,
      refl,
      record {
        lo = i.lo;
        kind = i.kind;
        valid = i.valid;
        keys =
            read-Keys (is_ok r.status) i.lo n s.put_side (take_leaving none) s.queue.min_key
              s.read_keys (first_counted c e)
              (take_side-Keys L k h items s i (take_leaving none) tt);
        numbers = stood L k h items s i (chosen c) (take_leaving none) e refl refl refl refl;
        holds = read-Holds L k h handle i.lo items status m _ s.sys r u i.holds run;
      },
    )
    take_step-Next l t (TakeStep.move_on e) = (
      items,
      refl,
      record {
        lo = i.lo;
        kind = i.kind;
        valid = i.valid;
        keys = take_side-Keys L k h items s i (advanced) tt;
        numbers =
            move_on-Numbers i.lo n s.queue s.put_side removed advanced refl refl refl refl refl
              (with_take L k h items s i removed e);
        holds = i.holds;
      },
    )
    take_step-Next l t (TakeStep.subtract e) = (
      items,
      refl,
      record {
        lo = i.lo;
        kind = i.kind;
        valid = i.valid;
        keys = take_side-Keys L k h items s i (take_leaving (some s.queue.count)) tt;
        numbers =
            subtract-Numbers i.lo n s.queue s.put_side advanced (take_leaving (some s.queue.count))
              refl refl refl refl refl refl (with_take L k h items s i advanced e);
        holds = i.holds;
      },
    )
    take_step-Next l t (TakeStep.leave c e x) = (
      items,
      refl,
      record {
        lo = i.lo;
        kind = i.kind;
        valid = i.valid;
        keys = take_side-Keys L k h items s i (take_free) tt;
        numbers = stood L k h items s i (take_leaving c) take_free e refl refl refl refl;
        holds = i.holds;
      },
    )
    take_step-Next l t (Step.pass_on c waiting woken e x y) = (
      items,
      refl,
      record {
        lo = i.lo;
        kind = i.kind;
        valid = i.valid;
        keys = take_side-Keys L k h items s i (take_free) tt;
        numbers =
            notify-Numbers i.lo n s.queue s.put_side take_free
              (stood L k h items s i (take_leaving c) take_free e refl refl refl refl);
        holds = i.holds;
      },
    )
