-- ===== src/Kueue/Constructed.antt =====
-- The constructor of a queue always returns, and leaves the store open.
use librocks_dll.Prelude.{
  ℕ, true, false, Option, none, some, ◌≡◌, ◌&&◌, ◌<◌, refl, ◌∙◌, sym, ap, subst,
}
use librocks_dll.Prelude.Tests.{is_some, if◌then◌else◌}
use librocks_dll.Prelude.Text.{Text, c_str}
use librocks_dll.Prelude.Action.{
  Action, Returns, Returns-bind, Returns-then, Returns-some, Returns-if_at, bind-eq, pure,
}
use librocks_dll.Status
use librocks_dll.Status.{IntPtr}
use librocks_dll.Engine.{Engine, Handle}
use librocks_dll.Engine.Laws.{Laws}
use librocks_dll.Kind
use librocks_dll.Kind.{KindImpl, Kind, kind_impl, new_kind_impl}
use librocks_dll.Store.State.{Sys, flush_batch}
use librocks_dll.Store.Kinds.{get_kind_manager, empty_kind}
use librocks_dll.Store.Updates.{int_ne}
use librocks_dll.Store.Frame.{IsValid}
use librocks_dll.Store.Writes.{validate_open-open}
use librocks_dll.Store.Ends.{find_min_key_lem, find_max_key_lem}
use librocks_dll.Store.Families
use librocks_dll.Store.Families.{get_or_create_kind_lem}
use librocks_dll.Kueue.State.{KueueImpl, is_ok}
use librocks_dll.Kueue.Recover.{blank, read_key, recover_max, recover_min, new_kueue}

module _ {W : Type 0} {E : Engine W} (L : Laws E) where
  -- open and valid
  abbrev pub Stays : {A : Type 0} → A → Sys W → Type 0
  Stays r t = IsValid t × (t.store.is_open ≡ true)

  recover_max-Stays :
      (k : KindImpl) (h : Handle) (smallest : Option ℕ) (s : Sys W)
      → k.handle_ ≡ some h
      → IsValid s
      → s.store.is_open ≡ true
      → Returns (recover_max E (kind_impl k) smallest s) Stays
  unfolding recover_max
  recover_max-Stays k h smallest s e v o =
      Returns-bind _ _ _ _ (find_max_key_lem L k h e (some Status.ok) 0 s v o)
        (λ r t x. Returns-some (x.0, x.1.frame.is_open ∙ o))

  recover_min-Stays :
      (k : KindImpl) (h : Handle) (s : Sys W)
      → k.handle_ ≡ some h
      → IsValid s
      → s.store.is_open ≡ true
      → Returns (recover_min E (kind_impl k) s) Stays
  unfolding recover_min
  recover_min-Stays k h s e v o =
      Returns-bind _ _ _ _ (find_min_key_lem L k h e (some Status.ok) 0 s v o) (λ r t x.
        Returns-if_at (is_ok r.status) _ _ t
          (λ g. recover_max-Stays k h (read_key r.value) t e x.0 (x.1.frame.is_open ∙ o))
          (λ g. Returns-some (x.0, x.1.frame.is_open ∙ o)))

  start-Stays :
      (k : KindImpl) (b : Option Handle) (s : Sys W)
      → k.handle_ ≡ b
      → IsValid s
      → s.store.is_open ≡ true
      → Returns ((if is_some b then recover_min E (kind_impl k) else pure blank) s) Stays
  start-Stays k none s e v o = Returns-some (v, o)
  start-Stays k (some h) s e v o = recover_min-Stays k h s e v o

  -- the fields that count, of a store that has the same ones
  pub same-IsValid :
      (s t : Sys W)
      → t.store.is_open ≡ s.store.is_open
      → t.store.has_db ≡ s.store.has_db
      → t.store.total_since_last_sync ≡ s.store.total_since_last_sync
      → IsValid s
      → IsValid t
  same-IsValid s t a b c v = record {
    open-has_db = λ e. b ∙ v.open-has_db (sym a ∙ e);
    below_batch = subst (λ n. n < flush_batch) (sym c) v.below_batch;
  }

  abbrev pub started : Kind × IntPtr → Action (Sys W) KueueImpl
  started p = if is_ok p.1 && Kind.is_valid p.0 then recover_min E p.0 else pure blank

  start_with :
      (name : Text) (s : Sys W) (p : Kind × IntPtr) (t : Sys W)
      → IsValid s
      → s.store.is_open ≡ true
      → Families.Got L name (some Status.ok) s p t
      → Returns (started p t) Stays
  unfolding new_kind_impl
  start_with name s p t v o (Families.known k e q x) =
      subst (λ p. Returns (started p t) Stays) (sym q)
        (subst (λ t. Returns (started (kind_impl k, some Status.ok) t) Stays) (sym x)
          (start-Stays k k.handle_ s refl v o))
  start_with name s p t v o (Families.created h e q x y) =
      subst (λ p. Returns (started p t) Stays) (sym q)
        (start-Stays (new_kind_impl name (some h)) (some h) t refl
          (same-IsValid s t (ap (λ st. st.is_open) x) (ap (λ st. st.has_db) x)
            (ap (λ st. st.total_since_last_sync) x) v)
          (ap (λ st. st.is_open) x ∙ o))
  start_with name s p t v o (Families.failed c n code e q x y) =
      subst (λ p. Returns (started p t) Stays) (sym q)
        (subst
          (λ b. Returns ((if b && false then recover_min E empty_kind else pure blank) t) Stays)
          (sym (int_ne c Status.ok n))
          (Returns-some (
            same-IsValid s t (ap (λ st. st.is_open) x) (ap (λ st. st.has_db) x)
                (ap (λ st. st.total_since_last_sync) x) v,
            ap (λ st. st.is_open) x ∙ o,
          )))

  -- On an open and valid store the constructor of a queue returns without a fault, and the store is
  -- open and valid afterwards.
  pub new_kueue-Stays :
      (id : Text) (s : Sys W)
      → IsValid s
      → s.store.is_open ≡ true
      → Returns (new_kueue E id s) Stays
  unfolding new_kueue get_kind_manager
  new_kueue-Stays id s v o =
      Returns-then _ _ _ (bind-eq _ _ s (validate_open-open (some Status.ok) s o)) (
        Returns-bind _ _ _ _ (get_or_create_kind_lem L (c_str id) (some Status.ok) s v o)
          (λ p t x. start_with (c_str id) s p t v o x))
