-- ===== src/Store/Opened.antt =====
-- The constructor where RocksDB opens the database: the store that it leaves is open and valid.
use librocks_dll.Prelude.{
  ◌<◌, ◌||◌, true, false, none, some, List, [], ◌∷◌, ◌≡◌, refl, ◌∙◌, sym, subst, false≢true, arith,
}
use librocks_dll.Prelude.Tests.{length, is_some, All}
use librocks_dll.Prelude.Text.{Text}
use librocks_dll.Prelude.Map.{All-assign_key}
use librocks_dll.Prelude.Action.{Returns, Returns-then, Returns-bind, Returns-some, Returns-if_at}
use librocks_dll.Status
use librocks_dll.Engine.{Engine, EngineStatus, status_ok, Handle, Opened, Options}
use librocks_dll.Engine.Laws.{Laws}
use librocks_dll.Kind.{new_kind_impl}
use librocks_dll.Store.State.{Sys, flush_batch, on_db-Returns}
use librocks_dll.Store.Open.{
  store_options, or_default, add_kinds, open_families, open_database, opened_well, open_, new_store,
}
use librocks_dll.Store.Frame.{IsValid, reusable_tx-Quiet}

-- The database is there, the count of writes is below the batch, and every kind has a handle.
pub record IsReady {W : Type 0} (s : Sys W) : Type 0 where
  pub has_db : s.store.has_db ≡ true
  pub below_batch : s.store.total_since_last_sync < flush_batch
  pub handles : All (λ e. is_some (e.1).handle_ ≡ true) s.store.kinds

module _ {W : Type 0} {E : Engine W} (L : Laws E) where
  add_kinds-IsReady :
      (names : List Text) (handles : List Handle) (s : Sys W)
      → length handles ≡ length names
      → IsReady s
      → Returns (add_kinds E names handles s) (λ u t. IsReady t)
  unfolding add_kinds new_kind_impl
  add_kinds-IsReady [] hs s e r = Returns-some r
  add_kinds-IsReady (n ∷ ns) [] s e r = absurd (omega (arith, e))
  add_kinds-IsReady (n ∷ ns) (h ∷ hs) s e r = Returns-then _ _ _ refl (
      add_kinds-IsReady ns hs _ (omega (arith, e)) (record {
        has_db = r.has_db;
        below_batch = r.below_batch;
        handles =
            All-assign_key (λ k. is_some k.handle_ ≡ true) n (new_kind_impl n (some h))
              s.store.kinds r.handles refl;
      }))

  module _ (names : List Text) (s : Sys W)
      (ok : status_ok (E.open_db s.store.options s.store.path names s.world).0.status ≡ true)
      (below : s.store.total_since_last_sync < flush_batch)
      (handles : All (λ e. is_some (e.1).handle_ ≡ true) s.store.kinds) where
    abbrev result : Opened × W
    result = E.open_db s.store.options s.store.path names s.world

    abbrev entered : Sys W
    entered = record s { store = record s.store { has_db = result.0.has_db }; world = result.1 }

    entered-IsReady : IsReady entered
    entered-IsReady = record {
      has_db = (L.open-ok s.store.options s.store.path names s.world ok).0;
      below_batch = below;
      handles = handles;
    }

    open_families-IsReady :
        Returns (open_families E names s) (λ r t. (status_ok r ≡ true) × IsReady t)
    unfolding open_families
    open_families-IsReady = Returns-then _ _ _ refl (
        Returns-then _ _ _ refl (
          Returns-bind _ _ _ (λ u t. IsReady t)
            (Returns-if_at (status_ok result.0.status) _ _ entered
              (λ e.
                add_kinds-IsReady names result.0.handles entered
                  (L.open-ok s.store.options s.store.path names s.world ok).1 entered-IsReady)
              (λ e. Returns-some entered-IsReady))
            (λ u t r.
              Returns-bind _ _ _ (λ u t. IsReady t)
                (on_db-Returns _ t r.has_db
                  (record { has_db = r.has_db; below_batch = r.below_batch; handles = r.handles }))
                (λ u t r. Returns-some (ok, r)))))

  opened_well-IsReady :
      (s : Sys W)
      → IsReady s
      → Returns (opened_well E s) (λ u t. IsReady t × (t.store.is_open ≡ true))
  unfolding opened_well
  opened_well-IsReady s r = Returns-bind _ _ _ _ (reusable_tx-Quiet L s r.has_db) (λ o t q.
      Returns-then _ _ _ refl (
        Returns-some (
          record {
            has_db = q.frame.has_db ∙ r.has_db;
            below_batch = q.frame.batch r.below_batch;
            handles =
                subst (λ m. All (λ e. is_some (e.1).handle_ ≡ true) m) (sym q.frame.kinds)
                  r.handles;
          },
          refl,
        )))

  module _ (path : Text) (w : W) where
    abbrev options : Options
    options = store_options E.hardware_concurrency

    -- what RocksDB lists, and how it then opens
    abbrev pub listing : (EngineStatus × List Text) × W
    listing = E.list_column_families options path w

    abbrev pub opening : Opened × W
    opening = E.open_db options path (or_default listing.0.1) listing.1

    abbrev begun : W → Sys W
    begun w = record {
      store = record {
        is_open = false;
        code = Status.ok;
        has_db = false;
        reusable_tx = none;
        options = options;
        kinds = [];
        path = path;
        version = [];
        total_since_last_sync = 0;
        last_sync = 0;
      };
      world = w;
    }

    module _ (found : (status_ok listing.0.0 || listing.0.0.is_path_not_found) ≡ true)
        (ok : status_ok opening.0.status ≡ true) where
      open_database-IsReady :
          Returns (open_database E (begun w)) (λ r t. (status_ok r ≡ true) × IsReady t)
      unfolding open_database
      open_database-IsReady = Returns-then _ _ _ refl (
          Returns-if_at (status_ok listing.0.0 || listing.0.0.is_path_not_found) _ _
            (begun listing.1)
            (λ e.
              open_families-IsReady (or_default listing.0.1) (begun listing.1) ok (omega arith) tt)
            (λ e. absurd (false≢true (sym e ∙ found))))

      -- Where RocksDB lists the families of the database, or reports that there is none, and then
      -- opens it, the constructor returns without a fault, and the store that it leaves is open and
      -- valid, and each of its kinds has a handle.
      pub new_store-IsValid : Returns (new_store E path w) (λ u t.
          IsValid t
          × (t.store.is_open ≡ true)
          × All (λ e. is_some (e.1).handle_ ≡ true) t.store.kinds)
      unfolding new_store open_
      new_store-IsValid = Returns-then _ _ _ refl (
          Returns-bind _ _ _ _ open_database-IsReady (λ r t x.
            Returns-bind _ _ _ (λ u t. IsReady t × (t.store.is_open ≡ true))
              (Returns-if_at (status_ok r) _ _ t (λ e. opened_well-IsReady t x.1)
                (λ e. absurd (false≢true (sym e ∙ x.0))))
              (λ u t y. Returns-then _ _ _ refl (
                Returns-some (
                  record { open-has_db = λ e. y.0.has_db; below_batch = y.0.below_batch },
                  y.1,
                  y.0.handles,
                )))))
