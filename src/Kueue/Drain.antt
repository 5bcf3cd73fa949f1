-- ===== src/Kueue/Drain.antt =====
-- erase and clear: messages are dropped from the front.
use librocks_dll.Prelude.{
  ℕ, ◌&&◌, Bool, true, false, none, some, List, [], ◌∷◌, ◌++◌, ◌≡◌, ◌≢◌, refl, ◌∙◌, sym, ap, subst,
  false≢true, arith,
}
use mathlib.Core.Path.{ap₂}
use librocks_dll.Prelude.Tests.{ℤ, ◌==◌, if◌then◌else◌}
use librocks_dll.Prelude.Text.{Text}
use librocks_dll.Prelude.Action.{
  Action, Returns, Returns-then, Returns-some, Returns-if, Returns-mono, pure, ◌>>◌,
}
use librocks_dll.Status
use librocks_dll.Status.{IntPtr, assign}
use librocks_dll.Engine.{Engine, Handle}
use librocks_dll.Engine.Laws.{Laws, single_deletes}
use librocks_dll.Codec.Bytes.{put_u64_be}
use librocks_dll.Kind.{KindImpl, kind_impl}
use librocks_dll.Store.State.{Sys}
use librocks_dll.Store.Frame.{IsValid}
use librocks_dll.Store.Outcome.{Outcome}
use librocks_dll.Store.Write
use librocks_dll.Store.Writes.{single_remove_lem}
use librocks_dll.Store.RoundTrip.{Written-open}
use librocks_dll.Store.Updates.{int_ne}
use librocks_dll.Kueue.State.{
  KueueImpl, QueueSys, inc64, dec64, is_ok, taken, modify_queue, in_store-Returns,
}
use librocks_dll.Kueue.Operations.{erase, clear_round}
use librocks_dll.Kueue.IsQueue.{IsQueue}
use librocks_dll.Kueue.Fifo.{get_kind_ref-eq}
use librocks_dll.Kueue.Take.{rest_queue, same-IsQueue}

-- what a round of clear does to the fields
abbrev pub dropped : KueueImpl → KueueImpl
dropped q = record q {
  min_key = inc64 q.min_key;
  count = dec64 q.count;
  total_takes = inc64 q.total_takes;
}

same_key : (a b : ℕ) → a ≡ b → (a == b) ≡ true
same_key a b e = ground arith

module _ {W : Type 0} {E : Engine W} (L : Laws E) (k : KindImpl) (h : Handle)
    (handle : k.handle_ ≡ some h) where
  notified :
      (items : List Text) (q : KueueImpl) (u : Sys W) (m : ℕ)
      → IsQueue L k h items (record { queue = q; sys = u })
      → IsQueue L k h items (record { queue = record q { notifications = m }; sys = u })
  notified items q u m x = record {
    store = x.store;
    opened = x.opened;
    counted = record {
      kind = x.counted.kind;
      valid = x.counted.valid;
      count = x.counted.count;
      max_key = x.counted.max_key;
      bound = x.counted.bound;
    };
    contains = x.contains;
  }

  -- The first message is gone, or an error leaves all.
  pub data Erased (v : Text) (rest : List Text) (erased : Bool) (t : QueueSys W) : Type 0 where
    gone : erased ≡ true → IsQueue L k h rest t → Erased v rest erased t
    kept : erased ≡ false → IsQueue L k h (v ∷ rest) t → Erased v rest erased t

  -- One round of clear.
  pub data Round (v : Text) (rest : List Text) (p : Bool × IntPtr) (t : QueueSys W) : Type 0 where
    gone : p ≡ (true, some Status.ok) → IsQueue L k h rest t → Round v rest p t
    kept :
        (c : ℤ)
        → c ≢ Status.ok
        → p ≡ (false, some c)
        → IsQueue L k h (v ∷ rest) t
        → Round v rest p t

  -- What clear leaves. Without a message the status is as it was.
  pub data Cleared (items : List Text) (state state' : IntPtr) (t : QueueSys W) : Type 0 where
    was_empty : items ≡ [] → state' ≡ state → IsQueue L k h [] t → Cleared items state state' t
    emptied : state' ≡ some Status.ok → IsQueue L k h [] t → Cleared items state state' t
    stopped :
        (front left : List Text)
        → items ≡ front ++ left
        → (c : ℤ) → c ≢ Status.ok
        → state' ≡ some c
        → IsQueue L k h left t
        → Cleared items state state' t

  module _ (v : Text) (rest : List Text) (s : QueueSys W) (q : IsQueue L k h (v ∷ rest) s) where
    removed :
        (c : ℤ)
        → Returns
            (Write.single_remove E (some c) (kind_impl k) (some (put_u64_be s.queue.min_key)) s.sys)
            (λ st u.
              IsValid u
              × Outcome L
                  (single_deletes h (put_u64_be s.queue.min_key))
                  (some Status.ok)
                  s.sys
                  st
                  u)
    removed c =
        Returns-mono _
          (single_remove_lem L (some c) (kind_impl k) s.sys (some (put_u64_be s.queue.min_key))
            q.store)
          (λ st u w. (w.0, Written-open L k h handle _ s.sys q.store q.opened _ c st u w.1))

    after_erase : IntPtr → Action (QueueSys W) Bool
    after_erase st = do (if is_ok st then modify_queue taken else pure tt); pure (is_ok st)

    after_erase-Erased :
        (st : IntPtr) (u : Sys W)
        → IsValid u
        → Outcome L (single_deletes h (put_u64_be s.queue.min_key)) (some Status.ok) s.sys st u
        → Returns (after_erase st (record s { sys = u })) (Erased v rest)
    unfolding after_erase
    after_erase-Erased st u x (Outcome.done f a e) =
        Returns-then _ _ _
          (ap (λ p. (if is_ok p then modify_queue taken else pure tt) (record s { sys = u })) e)
          (Returns-some (
            gone (ap is_ok e)
              (rest_queue L k h handle false v rest none 0 s q u x (f.is_open ∙ q.opened) a)))
    after_erase-Erased st u x (Outcome.failed p c n e) =
        let e' : is_ok st ≡ false = ap is_ok e ∙ int_ne c Status.ok n in
        Returns-then _ _ _
          (ap (λ b. (if b then modify_queue taken else pure tt) (record s { sys = u })) e')
          (Returns-some (kept e' (same-IsQueue L k h handle false v rest none 0 s q u x p)))

    -- On a valid queue of an open store that holds a message, erase of its smallest key drops the
    -- first message, or returns false and drops none; with another key it returns false and does
    -- nothing.
    pub erase-IsQueue :
        (key : ℕ)
        → Returns (erase E key s) (λ b t.
          (key ≡ s.queue.min_key → Erased v rest b t)
          × (key ≢ s.queue.min_key → (b ≡ false) × (t ≡ s)))
    unfolding erase after_erase-Erased after_erase
    erase-IsQueue key =
        Returns-if (s.queue.is_valid && key == s.queue.min_key)
          (λ g.
            let e : key ≡ s.queue.min_key = ground arith in
            Returns-then _ _ _ (get_kind_ref-eq (kind_impl k) s q.counted.kind) (
              in_store-Returns _ _ _ _
                (subst
                  (λ x.
                    Returns
                      (Write.single_remove E (some Status.ok) (kind_impl k) (some (put_u64_be x))
                        s.sys)
                      (λ st u.
                        IsValid u
                        × Outcome L (single_deletes h (put_u64_be s.queue.min_key)) (some Status.ok)
                            s.sys st u))
                  (sym e) (removed Status.ok))
                (λ st u w.
                  Returns-mono _ (after_erase-Erased st u w.0 w.1)
                    (λ b t r. ((λ same. r), (λ other. absurd (other e)))))))
          (λ g. Returns-some (
            (λ e. absurd (
                false≢true
                  (sym g ∙ ap₂ (λ a b. a && b) q.counted.valid (same_key key s.queue.min_key e)))),
            (λ other. (refl, refl)),
          ))

    after_round : IntPtr → Action (QueueSys W) (Bool × IntPtr)
    after_round st = do (if is_ok st then modify_queue dropped else pure tt); pure (is_ok st, st)

    after_round-Round :
        (st : IntPtr) (u : Sys W)
        → IsValid u
        → Outcome L (single_deletes h (put_u64_be s.queue.min_key)) (some Status.ok) s.sys st u
        → Returns (after_round st (record s { sys = u })) (Round v rest)
    unfolding after_round
    after_round-Round st u x (Outcome.done f a e) =
        Returns-then _ _ _
          (ap (λ p. (if is_ok p then modify_queue dropped else pure tt) (record s { sys = u })) e)
          (Returns-some (
            gone (ap (λ p. (is_ok p, p)) e) (
              notified rest (taken s.queue) u s.queue.notifications
                (rest_queue L k h handle false v rest none 0 s q u x (f.is_open ∙ q.opened) a))))
    after_round-Round st u x (Outcome.failed p c n e) =
        let e' : is_ok st ≡ false = ap is_ok e ∙ int_ne c Status.ok n in
        Returns-then _ _ _
          (ap (λ b. (if b then modify_queue dropped else pure tt) (record s { sys = u })) e')
          (Returns-some (
            kept c n (ap₂ (λ a b. (a, b)) e' e)
              (same-IsQueue L k h handle false v rest none 0 s q u x p)))

    pub clear_round-Round :
        (c : ℤ) → Returns (clear_round E (kind_impl k) (some c) s) (Round v rest)
    unfolding clear_round after_round-Round after_round
    clear_round-Round c =
        in_store-Returns _ _ _ _ (removed c) (λ st u w. after_round-Round st u w.0 w.1)
