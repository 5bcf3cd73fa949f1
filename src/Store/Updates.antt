-- ===== src/Store/Updates.antt =====
-- updateIfPresent, removeIfPresent, singleRemoveIfPresent and putIfAbsent on an open store.
use librocks_dll.Prelude.{
  ℕ, true, false, none, some, [], ◌∷◌, ◌≡◌, ◌≢◌, refl, sym, ◌∙◌, ap, subst, false≢true, arith,
}
use librocks_dll.Prelude.Tests.{ℤ, int_eq, int_eq_iff, is_some, if◌then◌else◌}
use librocks_dll.Prelude.Text.{Text}
use librocks_dll.Prelude.Action.{
  Action, Returns, Returns-bind, Returns-then, Returns-mono, Returns-some, Returns-if_at, pure,
}
use librocks_dll.Status
use librocks_dll.Status.{IntPtr, assign}
use librocks_dll.Engine.{Engine, Handle}
use librocks_dll.Engine.Laws.{Laws, Cell, Write, puts, deletes, single_deletes, Applied, value_of}
use librocks_dll.Kind.{KindImpl, kind_impl, is_valid}
use librocks_dll.Store.State.{Sys, Reply}
use librocks_dll.Store.Write.{put_, remove_, single_remove_}
use librocks_dll.Store.Read.{null_reply, get_}
use librocks_dll.Store.Update.{
  assign_state, after_read, if_present, update_if_present, single_remove_if_present,
  remove_if_present,
}
use librocks_dll.Store.Frame.{IsValid, Frame, Frame-IsValid, Quiet}
use librocks_dll.Store.Outcome.{Outcome, Outcome-before, write_kind-Outcome}
use librocks_dll.Store.Writes.{
  assign-assign, with_open-open, put-Stages, delete-Stages, single_delete-Stages,
}
use librocks_dll.Store.Reads
use librocks_dll.Store.Reads.{Found, copied, get_kind-Found}

pub int_ne : (e c : ℤ) → e ≢ c → int_eq e c ≡ false
int_ne e c n = ground (arith, int_eq_iff e c)

module _ {W : Type 0} {E : Engine W} (L : Laws E) where
  -- The write was made where there was a value, which is returned; or there was none; or an error.
  pub data Updated (op : Write) (c : Cell) (status : IntPtr) (s : Sys W) (r : Reply) (t : Sys W)
      : Type 0 where
    changed :
        (w : Text)
        → value_of c ≡ some w
        → Frame s t
        → Applied op (L.view s.world) (L.view t.world)
        → r ≡ copied (assign Status.ok status) 0 w
        → Updated op c status s r t
    missing :
        value_of c ≡ none
        → Quiet L s t
        → r ≡ null_reply (assign Status.not_found status) (some 0)
        → Updated op c status s r t
    failed :
        (e : ℤ)
        → e ≢ Status.ok
        → Quiet L s t
        → r.status ≡ assign e status
        → Updated op c status s r t

  module _ (op : Write) (write : IntPtr → Action (Sys W) IntPtr)
      (writes : (s : Sys W)
        → IsValid s
        → s.store.has_db ≡ true
        → Returns (write (some Status.ok) s) (Outcome L op (some Status.ok) s))
      (c : Cell) (status : IntPtr) (s t : Sys W) (v : IsValid t) (d : t.store.has_db ≡ true)
      (q : Quiet L s t) where
    finish :
        (w : Text) (old : Reply)
        → value_of c ≡ some w
        → record old { status = assign Status.ok status } ≡ copied (assign Status.ok status) 0 w
        → (a : IntPtr) (u : Sys W) → Outcome L op (some Status.ok) s a u
        → Updated op c status s (record old { status = assign_state a status }) u
    finish w old e r a u (Outcome.done f x ea) = changed w e f x (
        subst
          (λ p.
            record old { status = assign_state p status } ≡ copied (assign Status.ok status) 0 w)
          (sym ea) r)
    finish w old e r a u (Outcome.failed p n ne ea) =
        failed n ne p (ap (λ x. assign_state x status) ea)

    found_after :
        (w : Text)
        → value_of c ≡ some w
        → Returns (after_read write status (copied (some Status.ok) 0 w) t) (Updated op c status s)
    unfolding after_read
    found_after [] e = Returns-bind _ _ _ _ (writes t v d) (λ a u o. Returns-some (
        finish [] (copied (some Status.ok) 0 []) e refl a u
          (Outcome-before L op (some Status.ok) a s t u q o)))
    found_after (b ∷ w) e = Returns-bind _ _ _ _ (writes t v d) (λ a u o. Returns-some (
        finish (b ∷ w) (copied (some Status.ok) 0 (b ∷ w)) e refl a u
          (Outcome-before L op (some Status.ok) a s t u q o)))

    after_read-Updated :
        (r : Reply)
        → Found c (some Status.ok) 0 r
        → Returns (after_read write status r t) (Updated op c status s)
    after_read-Updated r (Reads.found w e f) =
        subst (λ x. Returns (after_read write status x t) (Updated op c status s)) (sym f)
          (found_after w e)
    after_read-Updated r (Reads.missing e f) =
        subst (λ x. Returns (after_read write status x t) (Updated op c status s)) (sym f)
          (unfold after_read in Returns-then _ _ _ refl (Returns-some (missing e q refl)))
    after_read-Updated r (Reads.failed e n m f) =
        subst (λ x. Returns (after_read write status x t) (Updated op c status s)) (sym f)
          (unfold after_read in
            Returns-then _ _ _
              (ap (λ b. (if b then write (some e) else pure (some e)) t) (int_ne e Status.ok n))
              (Returns-some (failed e n q refl)))

  Updated-assign :
      (op : Write) (c : Cell) (status : IntPtr) (s : Sys W) (r : Reply) (t : Sys W)
      → Updated op c (assign Status.ok status) s r t
      → Updated op c status s r t
  Updated-assign op c status s r t (changed w e f a x) =
      changed w e f a (x ∙ ap (λ p. copied p 0 w) (assign-assign Status.ok Status.ok status))
  Updated-assign op c status s r t (missing e q x) =
      missing e q
        (x ∙ ap (λ p. null_reply p (some 0)) (assign-assign Status.not_found Status.ok status))
  Updated-assign op c status s r t (failed e n q x) =
      failed e n q (x ∙ assign-assign e Status.ok status)

  Updated-IsValid :
      (op : Write) (c : Cell) (status : IntPtr) (s : Sys W) (r : Reply) (t : Sys W)
      → IsValid s
      → Updated op c status s r t
      → IsValid t
  Updated-IsValid op c status s r t v (changed w e f a x) = Frame-IsValid s t f v
  Updated-IsValid op c status s r t v (missing e q x) = Frame-IsValid s t q.frame v
  Updated-IsValid op c status s r t v (failed e n q x) = Frame-IsValid s t q.frame v

  module _ (k : KindImpl) (h : Handle) (handle : k.handle_ ≡ some h) (n : ℕ) (key : Text)
      (status : IntPtr) (s : Sys W) (v : IsValid s) (opened : s.store.is_open ≡ true) where
    if_present-Updated :
        (op : Write) (write : Text → IntPtr → Action (Sys W) IntPtr)
        → ((u : Sys W)
            → IsValid u
            → u.store.has_db ≡ true
            → Returns (write key (some Status.ok) u) (Outcome L op (some Status.ok) u))
        → Returns
            (if_present E write status (kind_impl k) (some n) (some key) s)
            (λ r t. IsValid t × Updated op (L.view s.world h key) status s r t)
    unfolding if_present get_
    if_present-Updated op write writes =
        Returns-if_at (is_valid (kind_impl k)) _ _ s
          (λ g. rw (with_open-open status _ _ s opened) (
            Returns-bind _ _ _ _
              (get_kind-Found L k h key (some Status.ok) 0 s handle (v.open-has_db opened))
              (λ r t p.
                Returns-mono _
                  (after_read-Updated op (write key) writes _ (assign Status.ok status) s t
                    (Frame-IsValid s t p.0.frame v) (p.0.frame.has_db ∙ v.open-has_db opened) p.0 r
                    p.1)
                  (λ r' u x.
                    let y = Updated-assign op _ status s r' u x in
                    (Updated-IsValid op _ status s r' u v y, y)))))
          (λ e. absurd (false≢true (sym e ∙ ap is_some handle)))

    -- On an open and valid store, with a kind that has a handle, updateIfPresent returns without a
    -- fault and the store stays valid. Where the key has a value, the new value is put and the old
    -- one is returned; where it has none, the view is unchanged and NotFound is reported; or an
    -- error is reported and the view is unchanged.
    pub update_if_present_lem :
        (value : Text)
        → Returns
            (update_if_present E status (kind_impl k) (some n) (some key) value s)
            (λ r t. IsValid t × Updated (puts h key value) (L.view s.world h key) status s r t)
    unfolding update_if_present put_
    update_if_present_lem value =
        if_present-Updated (puts h key value) _
          (λ u. write_kind-Outcome L _ (some Status.ok) _ k h handle (put-Stages L key value h) u)

    -- On an open and valid store, with a kind that has a handle, removeIfPresent returns without a
    -- fault and the store stays valid. Where the key has a value, the key is deleted and the value is
    -- returned; where it has none, the view is unchanged and NotFound is reported; or an error is
    -- reported and the view is unchanged.
    pub remove_if_present_lem :
        Returns
          (remove_if_present E status (kind_impl k) (some n) (some key) s)
          (λ r t. IsValid t × Updated (deletes h key) (L.view s.world h key) status s r t)
    unfolding remove_if_present remove_
    remove_if_present_lem =
        if_present-Updated (deletes h key) _
          (λ u. write_kind-Outcome L _ (some Status.ok) _ k h handle (delete-Stages L key h) u)

    -- On an open and valid store, with a kind that has a handle, singleRemoveIfPresent returns
    -- without a fault and the store stays valid. Where the key has a value, the value is returned and
    -- the key is gone, unless it was put more than once, when nothing is said of it; where it has
    -- none, the view is unchanged and NotFound is reported; or an error is reported and the view is
    -- unchanged.
    pub single_remove_if_present_lem :
        Returns
          (single_remove_if_present E status (kind_impl k) (some n) (some key) s)
          (λ r t. IsValid t × Updated (single_deletes h key) (L.view s.world h key) status s r t)
    unfolding single_remove_if_present single_remove_
    single_remove_if_present_lem =
        if_present-Updated (single_deletes h key) _ (λ u.
          write_kind-Outcome L _ (some Status.ok) _ k h handle (single_delete-Stages L key h) u)
