-- ===== src/Kueue/Created.antt =====
-- The constructor for an identifier that the store does not know: it creates the family.
use librocks_dll.Prelude.{true, false, none, some, ◌≡◌, ◌≢◌, ◌&&◌, refl, ◌∙◌, sym, ap, subst, arith}
use librocks_dll.Prelude.Tests.{pos, is_some, if◌then◌else◌}
use librocks_dll.Prelude.Text.{Text, c_str}
use librocks_dll.Prelude.Map.{find, assign_key}
use librocks_dll.Prelude.Action.{
  Returns, Returns-bind_eq, Returns-mono, Returns-then, Returns-some, bind-eq, pure,
}
use librocks_dll.Status
use librocks_dll.Status.{IntPtr, assign}
use librocks_dll.Engine.{Engine, Handle}
use librocks_dll.Engine.Laws.{Laws, View, with_empty_family, IsEmptyFamily}
use librocks_dll.Kind.{Kind, kind_impl, new_kind_impl}
use librocks_dll.Store.State.{Sys}
use librocks_dll.Store.Kinds.{get_kind_manager, get_or_create_kind, empty_kind}
use librocks_dll.Store.Frame.{IsValid}
use librocks_dll.Store.Writes.{validate_open-open}
use librocks_dll.Store.Updates.{int_ne}
use librocks_dll.Store.Families
use librocks_dll.Store.Families.{get_or_create_kind_lem}
use librocks_dll.Kueue.State.{KueueImpl}
use librocks_dll.Kueue.Recover.{blank, recover_min, new_kueue}
use librocks_dll.Kueue.Fresh.{Started, min_read}
use librocks_dll.Kueue.Constructed.{same-IsValid, started}

pub new_kind_impl-handle :
    (name : Text) (h : Handle) → (new_kind_impl name (some h)).handle_ ≡ some h
unfolding new_kind_impl
new_kind_impl-handle name h = refl

empty_there : (f : View) (h : Handle) → IsEmptyFamily (with_empty_family f h) h
empty_there f h j = ground arith

module _ {W : Type 0} {E : Engine W} (L : Laws E) where
  -- the call of getOrCreateKind in the constructor
  abbrev pub Gets : Text → Sys W → Kind × IntPtr → Sys W → Type 0
  Gets id s p t = get_or_create_kind E (some Status.ok) (c_str id) s ≡ some (p, t)

  -- A queue that starts on a family of its own, or RocksDB did not create the family and there is no
  -- queue.
  pub data Created (id : Text) (s : Sys W) (q : KueueImpl) (t : Sys W) : Type 0 where
    on_family :
        (h : Handle) (u : Sys W)
        → Gets id s (kind_impl (new_kind_impl (c_str id) (some h)), some Status.ok) u
        → u.store.kinds ≡ assign_key (c_str id) (new_kind_impl (c_str id) (some h)) s.store.kinds
        → Started L (new_kind_impl (c_str id) (some h)) h (new_kind_impl-handle (c_str id) h) u q t
        → Created id s q t
    not_created :
        pos (E.create_column_family (c_str id) s.world).0.0.code ≢ Status.ok
        → t.store ≡ s.store
        → q.is_valid ≡ false
        → Created id s q t

  start-Created :
      (id : Text) (s : Sys W) (p : Kind × IntPtr) (t : Sys W)
      → Gets id s p t
      → IsValid s
      → s.store.is_open ≡ true
      → find (c_str id) s.store.kinds ≡ none
      → Families.Got L (c_str id) (some Status.ok) s p t
      → Returns (started L p t) (Created id s)
  start-Created id s p t g v o e (Families.known k e' q x) = cc
  start-Created id s p t g v o e (Families.created h e' q x y) =
      let k = new_kind_impl (c_str id) (some h) in
      let a = new_kind_impl-handle (c_str id) h in
      subst (λ p. Returns (started L p t) (Created id s)) (sym q)
        (subst
          (λ b.
            Returns ((if is_some b then recover_min E (kind_impl k) else pure blank) t)
              (Created id s))
          (sym a)
          (Returns-mono _
            (min_read L k h a t (λ j. ap (λ f. f h j) y ∙ empty_there (L.view s.world) h j)
              (same-IsValid L s t (ap (λ st. st.is_open) x) (ap (λ st. st.has_db) x)
                (ap (λ st. st.total_since_last_sync) x) v)
              (ap (λ st. st.is_open) x ∙ o))
            (λ r u z. on_family h t (subst (λ p. Gets id s p t) q g) (ap (λ st. st.kinds) x) z)))
  start-Created id s p t g v o e (Families.failed c n code e' q x y) =
      subst (λ p. Returns (started L p t) (Created id s)) (sym q)
        (subst
          (λ b.
            Returns ((if b && false then recover_min E empty_kind else pure blank) t)
              (Created id s))
          (sym (int_ne c Status.ok n))
          (Returns-some (not_created (subst (λ c. c ≢ Status.ok) code n) x refl)))

  -- On an open and valid store that has no kind for the identifier, the constructor returns without a
  -- fault. It creates the family, enters its kind and leaves a valid queue on it, with no message,
  -- that starts at the key 0; or the queue is not valid, and RocksDB gave findMinKey or findMaxKey no
  -- iterator of the new family, or it did not create the family, and the store is as before.
  pub new_kueue-Created :
      (id : Text) (s : Sys W)
      → IsValid s
      → s.store.is_open ≡ true
      → find (c_str id) s.store.kinds ≡ none
      → Returns (new_kueue E id s) (Created id s)
  unfolding new_kueue get_kind_manager
  new_kueue-Created id s v o e =
      Returns-then _ _ _ (bind-eq _ _ s (validate_open-open (some Status.ok) s o)) (
        Returns-bind_eq _ _ _ _ (get_or_create_kind_lem L (c_str id) (some Status.ok) s v o)
          (λ p t g x. start-Created id s p t g v o e x))
