-- ===== src/Store/Absent.antt =====
-- putIfAbsent on an open store.
use librocks_dll.Prelude.{
  Bool, true, none, some, [], ◌∷◌, ◌≡◌, ◌≢◌, refl, sym, ◌∙◌, ap, subst, false≢true,
}
use mathlib.Core.Path.{ap₂}
use librocks_dll.Prelude.Tests.{ℤ, is_some, if◌then◌else◌}
use librocks_dll.Prelude.Text.{Text}
use librocks_dll.Prelude.Action.{
  Returns, Returns-bind, Returns-then, Returns-mono, Returns-some, Returns-if_at, pure,
}
use librocks_dll.Status
use librocks_dll.Status.{IntPtr, assign}
use librocks_dll.Engine.{Engine, Handle}
use librocks_dll.Engine.Laws.{Laws, Cell, Write, puts, Applied, value_of}
use librocks_dll.Kind.{KindImpl, kind_impl, is_valid}
use librocks_dll.Store.State.{Sys, Reply}
use librocks_dll.Store.Write.{put_}
use librocks_dll.Store.Read.{get_}
use librocks_dll.Store.Update.{assign_state, after_lookup, put_if_absent}
use librocks_dll.Store.Frame.{IsValid, Frame, Frame-IsValid, Quiet}
use librocks_dll.Store.Outcome.{Outcome, Outcome-before, write_kind-Outcome}
use librocks_dll.Store.Writes.{assign-assign, with_open-open, put-Stages}
use librocks_dll.Store.Reads
use librocks_dll.Store.Reads.{Found, copied, get_kind-Found}
use librocks_dll.Store.Updates.{int_ne}

module _ {W : Type 0} {E : Engine W} (L : Laws E) where
  -- The key was absent and is put; or it has a value; or an error.
  pub data Inserted (op : Write) (c : Cell) (status : IntPtr) (s : Sys W) (status' : IntPtr)
      (t : Sys W) : Type 0 where
    inserted :
        value_of c ≡ none
        → Frame s t
        → Applied op (L.view s.world) (L.view t.world)
        → status' ≡ assign Status.ok status
        → Inserted op c status s status' t
    present :
        (w : Text)
        → value_of c ≡ some w
        → Quiet L s t
        → status' ≡ assign Status.already_exists status
        → Inserted op c status s status' t
    failed :
        (e : ℤ)
        → e ≢ Status.ok
        → Quiet L s t
        → status' ≡ assign e status
        → Inserted op c status s status' t

  Inserted-assign :
      (op : Write) (c : Cell) (status : IntPtr) (s : Sys W) (p : IntPtr) (t : Sys W)
      → Inserted op c (assign Status.ok status) s p t
      → Inserted op c status s p t
  Inserted-assign op c status s p t (inserted e f a x) =
      inserted e f a (x ∙ assign-assign Status.ok Status.ok status)
  Inserted-assign op c status s p t (present w e q x) =
      present w e q (x ∙ assign-assign Status.already_exists Status.ok status)
  Inserted-assign op c status s p t (failed e n q x) =
      failed e n q (x ∙ assign-assign e Status.ok status)

  Inserted-IsValid :
      (op : Write) (c : Cell) (status : IntPtr) (s : Sys W) (p : IntPtr) (t : Sys W)
      → IsValid s
      → Inserted op c status s p t
      → IsValid t
  Inserted-IsValid op c status s p t v (inserted e f a x) = Frame-IsValid s t f v
  Inserted-IsValid op c status s p t v (present w e q x) = Frame-IsValid s t q.frame v
  Inserted-IsValid op c status s p t v (failed e n q x) = Frame-IsValid s t q.frame v

  module _ (k : KindImpl) (h : Handle) (handle : k.handle_ ≡ some h) (key value : Text) where
    module _ (status : IntPtr) (s t : Sys W) (v : IsValid t) (d : t.store.has_db ≡ true)
        (q : Quiet L s t) where
      put_absent :
          (c : Cell)
          → value_of c ≡ none
          → (a : IntPtr) (u : Sys W) → Outcome L (puts h key value) (some Status.ok) s a u
          → Inserted (puts h key value) c status s (assign_state a status) u
      put_absent c e a u (Outcome.done f x ea) = inserted e f x (ap (λ p. assign_state p status) ea)
      put_absent c e a u (Outcome.failed p n ne ea) =
          failed n ne p (ap (λ p. assign_state p status) ea)

      found_after :
          (c : Cell) (w : Text)
          → value_of c ≡ some w
          → Returns
              (after_lookup E (kind_impl k) key value status (copied (some Status.ok) 0 w) t)
              (Inserted (puts h key value) c status s)
      unfolding after_lookup
      found_after c [] e = Returns-then _ _ _ refl (Returns-some (present [] e q refl))
      found_after c (b ∷ w) e = Returns-then _ _ _ refl (Returns-some (present (b ∷ w) e q refl))

      after_lookup-Inserted :
          (c : Cell) (r : Reply)
          → Found c (some Status.ok) 0 r
          → Returns
              (after_lookup E (kind_impl k) key value status r t)
              (Inserted (puts h key value) c status s)
      after_lookup-Inserted c r (Reads.found w e f) =
          subst
            (λ x.
              Returns (after_lookup E (kind_impl k) key value status x t)
                (Inserted (puts h key value) c status s))
            (sym f) (found_after c w e)
      after_lookup-Inserted c r (Reads.missing e f) =
          subst
            (λ x.
              Returns (after_lookup E (kind_impl k) key value status x t)
                (Inserted (puts h key value) c status s))
            (sym f)
            (unfold after_lookup put_ in
              Returns-bind _ _ _ _
                (write_kind-Outcome L _ (some Status.ok) _ k h handle (put-Stages L key value h) t v
                  d)
                (λ a u o. Returns-some (
                  put_absent c e a u
                    (Outcome-before L (puts h key value) (some Status.ok) a s t u q o))))
      after_lookup-Inserted c r (Reads.failed e n m f) =
          subst
            (λ x.
              Returns (after_lookup E (kind_impl k) key value status x t)
                (Inserted (puts h key value) c status s))
            (sym f)
            (unfold after_lookup in
              Returns-then _ _ _
                (ap₂
                  (λ (x y : Bool).
                    (if x
                        then put_ E (some Status.ok) (kind_impl k) key value
                        else if y
                        then pure (some Status.already_exists)
                        else pure (some e))
                      t)
                  (int_ne e Status.not_found m) (int_ne e Status.ok n))
                (Returns-some (failed e n q refl)))

    -- On an open and valid store, with a kind that has a handle, putIfAbsent returns without a fault
    -- and the store stays valid. Where the key is absent the value is put; where it has a value,
    -- AlreadyExists is reported and the view is unchanged; or an error is reported and the view is
    -- unchanged.
    pub put_if_absent_lem :
        (status : IntPtr) (s : Sys W)
        → IsValid s
        → s.store.is_open ≡ true
        → Returns
            (put_if_absent E status (kind_impl k) (some key) value s)
            (λ p t. IsValid t × Inserted (puts h key value) (L.view s.world h key) status s p t)
    unfolding put_if_absent get_
    put_if_absent_lem status s v opened =
        Returns-if_at (is_valid (kind_impl k)) _ _ s
          (λ g. rw (with_open-open status (λ p. p) _ s opened) (
            Returns-bind _ _ _ _
              (get_kind-Found L k h key (some Status.ok) 0 s handle (v.open-has_db opened))
              (λ r t p.
                Returns-mono _
                  (after_lookup-Inserted (assign Status.ok status) s t
                    (Frame-IsValid s t p.0.frame v) (p.0.frame.has_db ∙ v.open-has_db opened) p.0 _
                    r p.1)
                  (λ r' u x.
                    let y = Inserted-assign _ _ status s r' u x in
                    (Inserted-IsValid _ _ status s r' u v y, y)))))
          (λ e. absurd (false≢true (sym e ∙ ap is_some handle)))
