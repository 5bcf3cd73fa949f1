-- ===== src/Store/Closing.antt =====
-- close of an open store.
use librocks_dll.Prelude.{Bool, true, false, Option, none, some, [], ◌∷◌, ◌≡◌, refl, ◌∙◌, ap}
use librocks_dll.Prelude.Tests.{if◌then◌else◌}
use librocks_dll.Prelude.Map.{Map}
use librocks_dll.Prelude.Action.{bind-eq}
use librocks_dll.Engine.{Engine, Handle}
use librocks_dll.Kind.{KindImpl}
use librocks_dll.Store.State.{Sys, on_world, sync_wal_no_lock, flush_no_lock}
use librocks_dll.Store.Maintain.{delete_handle, close_handles, close_open, close}

module _ {W : Type 0} (E : Engine W) where
  -- the world after the deletion of the handles of the kinds, in their order
  abbrev pub without_handle_of : Option Handle → W → W
  without_handle_of none w = w
  without_handle_of (some h) w = E.delete_handle h w

  abbrev pub without_handles : Map KindImpl → W → W
  without_handles [] w = w
  without_handles ((n, k) ∷ rest) w = without_handles rest (without_handle_of k.handle_ w)

  -- the state after a close: nothing was synced or flushed
  abbrev pub after_close : Sys W → Sys W
  after_close s = record {
    store = record s.store { is_open = false; kinds = []; has_db = false };
    world =
        if s.store.has_db
        then E.delete_db (without_handles s.store.kinds s.world)
        else without_handles s.store.kinds s.world;
  }

  delete_handle-eq :
      (o : Option Handle) (s : Sys W)
      → delete_handle E o s ≡ some (tt, record s { world = without_handle_of o s.world })
  unfolding delete_handle
  delete_handle-eq none s = refl
  delete_handle-eq (some h) s = refl

  close_handles-eq :
      (m : Map KindImpl) (s : Sys W)
      → close_handles E m s ≡ some (tt, record s { world = without_handles m s.world })
  unfolding close_handles
  close_handles-eq [] s = refl
  close_handles-eq ((n, k) ∷ rest) s =
      bind-eq _ _ s (delete_handle-eq k.handle_ s) ∙ close_handles-eq rest _

  delete_db-eq :
      (b : Bool) (s : Sys W)
      → (if b then on_world (λ w. (tt, E.delete_db w)) s else some (tt, s))
        ≡ some (tt, record s { world = if b then E.delete_db s.world else s.world })
  delete_db-eq true s = refl
  delete_db-eq false s = refl

  -- the states in between
  abbrev now_closed : Sys W → Sys W
  now_closed s = record s { store = record s.store { is_open = false } }

  abbrev kindless : Sys W → Sys W
  kindless s = record {
    store = record s.store { is_open = false; kinds = [] };
    world = without_handles s.store.kinds s.world;
  }

  close_open-eq : (s : Sys W) → close_open E s ≡ some (tt, after_close s)
  unfolding close_open sync_wal_no_lock flush_no_lock
  close_open-eq s =
      bind-eq _ _ s refl
      ∙ (bind-eq _ _ _ refl
          ∙ (bind-eq _ _ _ refl
              ∙ (bind-eq _ _ _ (close_handles-eq s.store.kinds (now_closed s))
                  ∙ (bind-eq _ _ _ refl
                      ∙ bind-eq _ _ _ (delete_db-eq s.store.has_db (kindless s))))))

  -- close of a store that is open deletes the handles of the kinds in their order and then the
  -- database, if there is one, and nothing else: the log is not synced and nothing is flushed,
  -- since `open` is false by then. The store is closed and without kinds or database. A second
  -- close does nothing.
  pub close_lem :
      (s : Sys W)
      → s.store.is_open ≡ true
      → (close E s ≡ some (tt, after_close s))
        × (close E (after_close s) ≡ some (tt, after_close s))
  unfolding close
  close_lem s e = (ap (λ b. if b then close_open E s else some (tt, s)) e ∙ close_open-eq s, refl)
