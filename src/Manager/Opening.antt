-- ===== src/Manager/Opening.antt =====
-- openStore and openKueueManager, where RocksDB opens the database.
use librocks_dll.Prelude.{
  Bool, true, Option, none, some, [], ◌||◌, ◌&&◌, ◌≡◌, refl, ◌∙◌, sym, ap, false≢true,
}
use librocks_dll.Prelude.Tests.{if◌then◌else◌}
use librocks_dll.Prelude.Text.{Text}
use librocks_dll.Prelude.Action.{Returns, Returns-some, Returns-if}
use librocks_dll.Status
use librocks_dll.Status.{IntPtr, assign}
use librocks_dll.Engine.{Engine, status_ok}
use librocks_dll.Engine.Laws.{Laws}
use librocks_dll.Store.Open.{new_store}
use librocks_dll.Store.Writes.{assign-assign}
use librocks_dll.Store.Frame.{IsValid}
use librocks_dll.Store.Opened.{listing, opening, new_store-IsValid}
use librocks_dll.Manager.Defs.{
  ManagerSys, is_open, open_store, new_manager, open_kueue_manager, open_store_as, manager_of,
}

Returns-elim :
    {S A T B : Type 0} (P : A → S → Type 0) {Q : B → T → Type 0} (r : Option (A × S))
    (f : A → S → Option (B × T))
    → Returns r P
    → ((a : A) (s : S) → P a s → Returns (f a s) Q)
    → Returns (elim r as (λ _. Option (B × T)) [ none ↦ none | some (a, s) ↦ f a s ]) Q
Returns-elim P none f h k = absurd h.out
Returns-elim P (some (a, s)) f h k = k a s h.out

module _ {W : Type 0} {E : Engine W} (L : Laws E) (path : Text) (w : W) (status : IntPtr)
    (found : (status_ok (listing L path w).0.0 || (listing L path w).0.0.is_path_not_found) ≡ true)
    (ok : status_ok (opening L path w).0.status ≡ true) where
  open_store-Opens :
      Returns
        (open_store E status path w)
        (λ r s. (r ≡ (true, assign Status.ok status)) × IsValid s × (s.store.is_open ≡ true))
  unfolding open_store open_store_as
  open_store-Opens =
      Returns-elim _ (new_store E path w) _ (new_store-IsValid L path w found ok) (λ u s x.
        Returns-if s.store.is_open (λ o. Returns-some (refl, x.0, o))
          (λ o. absurd (false≢true (sym o ∙ x.1))))

module _ {W : Type 0} {E : Engine W} (L : Laws E) (path : Text) (w : W) (status : IntPtr)
    (found : (status_ok (listing L path w).0.0 || (listing L path w).0.0.is_path_not_found) ≡ true)
    (ok : status_ok (opening L path w).0.status ≡ true) where
  -- An open manager without queues, on a valid store.
  pub record Fresh (r : (Bool × IntPtr)) (m : ManagerSys W) : Type 0 where
    pub result : r ≡ (true, assign Status.ok status)
    pub opened : is_open m ≡ true
    pub store : IsValid m.sys
    pub queues : m.queues ≡ []
    pub version : m.version ≡ E.version_string

  -- Where RocksDB lists the families of the database, or reports that there is none, and then opens
  -- it, openKueueManager returns, without a fault and with Ok, a manager that is open, has the version
  -- of RocksDB and no queues, and whose store is valid.
  pub open_kueue_manager-Fresh : Returns (open_kueue_manager E status path w) Fresh
  unfolding open_kueue_manager new_manager manager_of
  open_kueue_manager-Fresh =
      Returns-elim (λ status' m. (status' ≡ assign Status.ok status) × Fresh (true, status') m) _ _
        (Returns-elim _ (open_store E (assign Status.ok status) path w) _
          (open_store-Opens L path w (assign Status.ok status) found ok)
          (λ r s x.
            let e : r.1 ≡ assign Status.ok status =
              ap (λ r. r.1) x.0 ∙ assign-assign Status.ok Status.ok status in
            let b : r.0 ≡ true = ap (λ r. r.0) x.0 in
            Returns-some (
              e,
              record {
                result = ap (λ p. (true, p)) e;
                opened = ap (λ b. b && s.store.is_open) b ∙ x.2;
                store = x.1;
                queues = refl;
                version = ap (λ b. if b then E.version_string else []) b;
              },
            )))
        (λ status' m x.
          Returns-if (is_open m) (λ o. Returns-some x.1)
            (λ o. absurd (false≢true (sym o ∙ x.1.opened))))
