-- ===== src/Store/Families.antt =====
-- getOrCreateKind on an open store.
use librocks_dll.Prelude.{true, Option, none, some, ◌≡◌, ◌≢◌, refl, ◌∙◌, sym, ap, subst}
use librocks_dll.Prelude.Tests.{ℤ, pos}
use librocks_dll.Prelude.Text.{Text}
use librocks_dll.Prelude.Map.{find, assign_key}
use librocks_dll.Prelude.Action.{Returns, Returns-then, Returns-bind, Returns-some, Returns-if_at}
use librocks_dll.Status
use librocks_dll.Status.{IntPtr, assign}
use librocks_dll.Engine.{Engine, status_ok, Handle}
use librocks_dll.Engine.Laws.{Laws, with_empty_family}
use librocks_dll.Kind.{KindImpl, Kind, kind_impl, new_kind_impl}
use librocks_dll.Store.State.{Sys, on_db-Returns}
use librocks_dll.Store.Kinds.{
  empty_kind, add_created, create_kind, found_or_create, get_or_create_kind,
}
use librocks_dll.Store.Frame.{IsValid}
use librocks_dll.Store.Writes.{validate_open-open, assign-assign}
use librocks_dll.Store.Outcome.{code-ne-ok}

module _ {W : Type 0} {E : Engine W} (L : Laws E) where
  -- The kind was known, or it is created with an empty family, or an error.
  pub data Got (name : Text) (status : IntPtr) (s : Sys W) (p : Kind × IntPtr) (t : Sys W)
      : Type 0 where
    known :
        (k : KindImpl)
        → find name s.store.kinds ≡ some k
        → p ≡ (kind_impl k, assign Status.ok status)
        → t ≡ s
        → Got name status s p t
    created :
        (h : Handle)
        → find name s.store.kinds ≡ none
        → p ≡ (kind_impl (new_kind_impl name (some h)), assign Status.ok status)
        → t.store
          ≡ record s.store { kinds = assign_key name (new_kind_impl name (some h)) s.store.kinds }
        → L.view t.world ≡ with_empty_family (L.view s.world) h
        → Got name status s p t
    failed :
        (c : ℤ)
        → c ≢ Status.ok
        → c ≡ pos (E.create_column_family name s.world).0.0.code
        → find name s.store.kinds ≡ none
        → p ≡ (empty_kind, assign c status)
        → t.store ≡ s.store
        → L.view t.world ≡ L.view s.world
        → Got name status s p t

  module _ (name : Text) (status : IntPtr) (s : Sys W) (v : IsValid s)
      (opened : s.store.is_open ≡ true) where
    abbrev made : Sys W
    made = record s { world = (E.create_column_family name s.world).1 }

    create-Got :
        find name s.store.kinds ≡ none
        → Returns (create_kind E (assign Status.ok status) name s) (Got name status s)
    unfolding create_kind
    create-Got e =
        Returns-bind _ _ _ (λ r t. (r ≡ (E.create_column_family name s.world).0) × (t ≡ made))
          (on_db-Returns _ s (v.open-has_db opened) (refl, refl))
          (λ r t x.
            subst
              (λ t.
                Returns (add_created E (assign Status.ok status) name r.0 r.1 t)
                  (Got name status s))
              (sym x.1)
              (Returns-if_at (status_ok r.0) _ _ made
                (λ o.
                  let (h, eh, ev) =
                    L.create-ok name s.world (ap (λ q. status_ok q.0) (sym x.0) ∙ o) in
                  Returns-then _ _ _ refl (
                    Returns-some (
                      created h e
                        (ap (λ o. (kind_impl (new_kind_impl name o), assign Status.ok status))
                          (ap (λ q. q.1) x.0 ∙ eh))
                        (ap
                          (λ o. record s.store {
                            kinds = assign_key name (new_kind_impl name o) s.store.kinds;
                          })
                          (ap (λ q. q.1) x.0 ∙ eh))
                        ev)))
                (λ o. Returns-some (
                  failed (pos r.0.code) (code-ne-ok r.0 o) (ap (λ q. pos q.0.code) x.0) e
                    (ap (λ p. (empty_kind, p)) (assign-assign (pos r.0.code) Status.ok status)) refl
                    (L.create-failed name s.world (ap (λ q. status_ok q.0) (sym x.0) ∙ o))))))

    found-Got :
        (o : Option KindImpl)
        → find name s.store.kinds ≡ o
        → Returns (found_or_create E (assign Status.ok status) name o s) (Got name status s)
    found-Got (some k) e = Returns-some (known k e refl refl)
    found-Got none e = create-Got e

    -- On an open and valid store, getOrCreateKind returns without a fault. A known kind is returned
    -- and nothing changes; else a kind with a new and empty family is entered under its name and
    -- returned with Ok, or an error is reported with the empty kind and nothing changes.
    pub get_or_create_kind_lem : Returns (get_or_create_kind E status name s) (Got name status s)
    unfolding get_or_create_kind
    get_or_create_kind_lem =
        Returns-then _ _ _ (validate_open-open status s opened) (found-Got _ refl)
