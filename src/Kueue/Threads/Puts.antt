-- ===== src/Kueue/Threads/Puts.antt =====
-- The steps of put keep the numbers and the column family in line with the messages.
use librocks_dll.Prelude.{
  ℕ, ◌+◌, ◌<◌, ◌^◌, none, some, List, [], ◌∷◌, ◌++◌, ◌≡◌, refl, ◌∙◌, sym, subst, false≢true, arith,
}
use librocks_dll.Prelude.Tests.{length, length-append}
use librocks_dll.Prelude.Text.{Text}
use librocks_dll.Engine.{Engine, Handle}
use librocks_dll.Engine.Laws.{Laws}
use librocks_dll.Kind.{KindImpl, kind_impl}
use librocks_dll.Kueue.Threads.State.{
  put_free, claimed, stored, refused, put_leaving, take_free, signalling, Shared,
}
use librocks_dll.Kueue.Threads.Step
use librocks_dll.Kueue.Threads.Labels.{Label, claims}
use librocks_dll.Kueue.Threads.Step.{PutStep, TakeStep, Step, put_step, take_step, clear_step}
use librocks_dll.Kueue.Threads.Numbers.{
  Numbers, claim-Numbers, store-Numbers, fail-Numbers, add-Numbers, give_back-Numbers,
  put_side-Numbers,
}
use librocks_dll.Kueue.Threads.Moves.{take_side-Numbers, notify-Numbers}
use librocks_dll.Kueue.Threads.Calls.{put-Holds}
use librocks_dll.Kueue.Threads.Keys.{put-Keys}
use librocks_dll.Kueue.Threads.Invariant.{
  put_side-Keys, take_side-Keys, IsShared, Next, with_put, with_take,
}

module _ {W : Type 0} {E : Engine W} (L : Laws E) (k : KindImpl) (h : Handle) where
  module _ (handle : k.handle_ ≡ some h) (items : List Text) (s : Shared W)
      (i : IsShared L k h items s) where
    abbrev n : ℕ
    n = length items

    pub put_step-Next :
        (l : Label) (t : Shared W)
        → (l ≡ claims → s.queue.max_key + 1 < 2 ^ 63)
        → PutStep E (kind_impl k) s l t
        → Next L k h l items t
    put_step-Next l t b (Step.claim v e x) = (
      items,
      refl,
      record {
        lo = i.lo;
        kind = i.kind;
        valid = i.valid;
        keys = put_side-Keys L k h items s i (claimed v s.queue.max_key) (omega arith);
        numbers =
            claim-Numbers i.lo n s.queue s.take_side v (b refl)
              (with_put L k h items s i put_free e);
        holds = i.holds;
      },
    )
    put_step-Next l t b (Step.store v key status r u e x ok) =
        let m = with_put L k h items s i (claimed v key) e in
        (
          items ++ v ∷ [],
          refl,
          record {
            lo = i.lo;
            kind = i.kind;
            valid = i.valid;
            keys =
                put-Keys i.lo n s.put_side (length (items ++ v ∷ [])) stored s.take_side s.read_keys
                  (omega (arith, length-append items (v ∷ []))) i.keys;
            numbers =
                subst (λ n. Numbers i.lo n s.queue stored s.take_side)
                  (sym (length-append items (v ∷ []) ∙ omega arith))
                  (store-Numbers i.lo n s.queue s.take_side v key m);
            holds =
                (put-Holds L k h handle i.lo key items v status s.sys r u m.key
                    (omega (arith, m.key, m.max_key, m.bound)) i.holds x).0
                  ok;
          },
        )
    put_step-Next l t b (Step.fail v key status r u e x ok) =
        let m = with_put L k h items s i (claimed v key) e in
        (
          items,
          refl,
          record {
            lo = i.lo;
            kind = i.kind;
            valid = i.valid;
            keys = put_side-Keys L k h items s i refused (omega arith);
            numbers = fail-Numbers i.lo n s.queue s.take_side v key m;
            holds =
                (put-Holds L k h handle i.lo key items v status s.sys r u m.key
                    (omega (arith, m.key, m.max_key, m.bound)) i.holds x).1
                  ok;
          },
        )
    put_step-Next l t b (Step.add e) = (
      items,
      refl,
      record {
        lo = i.lo;
        kind = i.kind;
        valid = i.valid;
        keys = put_side-Keys L k h items s i (put_leaving (some s.queue.count)) (omega arith);
        numbers =
            add-Numbers i.lo n s.queue s.take_side (some s.queue.count)
              (with_put L k h items s i stored e);
        holds = i.holds;
      },
    )
    put_step-Next l t b (Step.give_back e) = (
      items,
      refl,
      record {
        lo = i.lo;
        kind = i.kind;
        valid = i.valid;
        keys = put_side-Keys L k h items s i (put_leaving none) (omega arith);
        numbers = give_back-Numbers i.lo n s.queue s.take_side (with_put L k h items s i refused e);
        holds = i.holds;
      },
    )
    put_step-Next l t b (PutStep.leave c e) = (
      items,
      refl,
      record {
        lo = i.lo;
        kind = i.kind;
        valid = i.valid;
        keys = put_side-Keys L k h items s i (put_free) (omega arith);
        numbers =
            put_side-Numbers i.lo n s.queue (put_leaving c) put_free s.take_side refl refl refl tt
              (with_put L k h items s i (put_leaving c) e);
        holds = i.holds;
      },
    )
    put_step-Next l t b (Step.enter_signal m x e) = (
      items,
      refl,
      record {
        lo = i.lo;
        kind = i.kind;
        valid = i.valid;
        keys = take_side-Keys L k h items s i (signalling) tt;
        numbers =
            take_side-Numbers i.lo n s.queue s.put_side take_free signalling refl refl refl
              (λ z. absurd (false≢true z)) (with_take L k h items s i take_free e);
        holds = i.holds;
      },
    )
    put_step-Next l t b (Step.signal waiting woken e x) = (
      items,
      refl,
      record {
        lo = i.lo;
        kind = i.kind;
        valid = i.valid;
        keys = take_side-Keys L k h items s i (take_free) tt;
        numbers = notify-Numbers i.lo n s.queue s.put_side take_free (
            take_side-Numbers i.lo n s.queue s.put_side signalling take_free refl refl refl
              (λ z. absurd (false≢true z)) (with_take L k h items s i signalling e));
        holds = i.holds;
      },
    )
