-- ===== src/Store/Opening.antt =====
-- openDatabase where RocksDB opens the database and where it does not.
use librocks_dll.Prelude.{true, false, none, some, List, ◌≡◌, ◌||◌, refl, ◌∙◌, ap}
use librocks_dll.Prelude.Tests.{if◌then◌else◌}
use librocks_dll.Prelude.Text.{Text}
use librocks_dll.Prelude.Action.{Action, bind-eq, pure, ◌>>=◌}
use librocks_dll.Engine.{Engine, status_ok, Opened}
use librocks_dll.Engine.Laws.{Laws}
use librocks_dll.Store.State.{Sys, on_db, db_call}
use librocks_dll.Store.Open.{or_default, add_kinds, open_families, open_database}

bind-fault :
    {S A B : Type 0} (m : Action S A) (f : A → Action S B) (s : S) → m s ≡ none → (m >>= f) s ≡ none
unfolding ◌>>=◌
bind-fault m f s e = ap (λ r. elim r [ none ↦ none | some (b, u) ↦ f b u ]) e

module _ {W : Type 0} {E : Engine W} (L : Laws E) where
  abbrev open_at : List Text → Sys W → Opened × W
  open_at names s = E.open_db s.store.options s.store.path names s.world

  abbrev entered : List Text → Sys W → Sys W
  entered names s = record {
    store = record s.store { has_db = (open_at names s).0.has_db };
    world = (open_at names s).1;
  }

  open_families-fault :
      (names : List Text) (s : Sys W)
      → status_ok (open_at names s).0.status ≡ false
      → open_families E names s ≡ none
  unfolding open_families on_db
  open_families-fault names s b =
      bind-eq _ _ s refl
      ∙ (bind-eq _ _ _ refl
          ∙ (bind-eq _ _ _ (
                ap
                  (λ c.
                    (if c then add_kinds E names (open_at names s).0.handles else pure tt)
                      (entered names s))
                  b)
              ∙ bind-fault _ _ _ (
                  ap (λ c. db_call c (λ w. (tt, E.enable_file_deletions w)) (entered names s))
                    (L.open-failed s.store.options s.store.path names s.world b))))

  abbrev names_of : Sys W → List Text
  names_of s = or_default (E.list_column_families s.store.options s.store.path s.world).0.1

  abbrev listed : Sys W → Sys W
  listed s = record s { world = (E.list_column_families s.store.options s.store.path s.world).1 }

  abbrev opened_by : Sys W → Opened × W
  opened_by s = E.open_db s.store.options s.store.path (names_of s) (listed s).world

  -- On a database whose families can be listed, or that is not there yet, openDatabase has undefined
  -- behaviour where TransactionDB::Open fails: it calls EnableFileDeletions through the pointer that
  -- Open did not set.
  pub open_database-fault :
      (s : Sys W)
      → let r = (E.list_column_families s.store.options s.store.path s.world).0.0 in
        (status_ok r || r.is_path_not_found) ≡ true
        → status_ok (opened_by s).0.status ≡ false
        → open_database E s ≡ none
  unfolding open_database
  open_database-fault s a b =
      bind-eq _ _ s refl
      ∙ (ap
            (λ c.
              (if c
                  then open_families E (names_of s)
                  else pure (E.list_column_families s.store.options s.store.path s.world).0.0)
                (listed s))
            a
          ∙ open_families-fault (names_of s) (listed s) b)
