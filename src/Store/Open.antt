-- ===== src/Store/Open.antt =====
-- The constructor, open_ and openDatabase of src/impl/StoreImpl.cpp, with the table options of
-- include/impl/BlockBasedTableConfig.h.
use librocks_dll.Prelude.{ℕ, ◌*◌, max, true, false, Option, none, some, List, [], ◌∷◌, ◌++◌, ◌||◌}
use librocks_dll.Prelude.Tests.{pos, if◌then◌else◌}
use librocks_dll.Prelude.Text.{Text, codes}
use librocks_dll.Prelude.Map.{assign_key}
use librocks_dll.Prelude.Action.{Action, pure, fault, ◌>>=◌, ◌>>◌}
use librocks_dll.Status
use librocks_dll.Engine.{Engine, Handle, EngineStatus, status_ok, Options}
use librocks_dll.Kind.{new_kind_impl}
use librocks_dll.Store.State.{Sys, on_world, on_db, modify, reusable_tx}
use librocks_dll.Store.Kinds.{default_cf}

-- open_ down to the call of openDatabase
unfoldable pub store_options : ℕ → Options
store_options concurrency = record {
  create_if_missing = true;
  error_if_exists = false;
  keep_log_file_num = 2;
  delete_obsolete_files_period_micros = 3_600_000_000;
  wal_ttl_seconds = 4 * 3_600;
  wal_size_limit_mb = 64;
  recycle_log_file_num = 10;
  parallelism = max concurrency 2;
  periodic_compaction_seconds = 1 * 24 * 60 * 60;
  optimize_filters_for_hits = true;
  memtable_memory_budget = 192 * 1024 * 1024;
  block_size = 16 * 1024;
  format_version = 6;
}

-- if (families.empty()) families.push_back(DefaultCF);
abbrev pub or_default : List Text → List Text
or_default [] = default_cf ∷ []
or_default (n ∷ ns) = n ∷ ns

module _ {W : Type 0} (E : Engine W) where
  -- for (…) kinds[cfDescs[i].name] = KindImpl(…, cfHandles[i]); a read past the handles faults
  unfoldable pub add_kinds : List Text → List Handle → Action (Sys W) (Unit {0})
  add_kinds [] handles = pure tt
  add_kinds (n ∷ ns) [] = fault
  add_kinds (n ∷ ns) (h ∷ hs) = do
    modify (λ st. record st { kinds = assign_key n (new_kind_impl n (some h)) st.kinds })
    add_kinds ns hs

  -- the body of `if (s.ok() || s.IsPathNotFound())`
  unfoldable pub open_families : List Text → Action (Sys W) EngineStatus
  unfolding add_kinds
  open_families names = do
    opened ← (λ s. on_world (E.open_db s.store.options s.store.path names) s)
    modify (λ st. record st { has_db = opened.has_db })
    (if status_ok opened.status then add_kinds names opened.handles else pure tt)
    on_db (λ w. (tt, E.enable_file_deletions w))
    pure opened.status

  unfoldable pub open_database : Action (Sys W) EngineStatus
  unfolding open_families
  open_database = do
    (s, families) ← (λ s. on_world (E.list_column_families s.store.options s.store.path) s)
    if status_ok s || s.is_path_not_found then open_families (or_default families) else pure s

  version_text : Text
  version_text =
      codes "RocksDB version: "
      ++ E.version_string
      ++ codes ", Git sha: "
      ++ E.build_git_sha
      ++ codes ", Compiled: "
      ++ E.build_date

  unfoldable pub opened_well : Action (Sys W) (Unit {0})
  unfolding version_text
  opened_well = do
    t ← reusable_tx E
    modify (λ st. record st { reusable_tx = t })
    modify (λ st. record st { version = st.version ++ version_text; is_open = true })

  unfoldable pub open_ : Action (Sys W) (Unit {0})
  unfolding opened_well
  open_ = do
    modify (λ st. record st { options = store_options E.hardware_concurrency })
    s ← open_database
    (if status_ok s then opened_well else modify (λ st. record st { code = pos s.code }))
    t ← on_world E.now
    modify (λ st. record st { last_sync = t })

  -- StoreImpl(path)
  unfoldable pub new_store : Text → W → Option (Unit {0} × Sys W)
  new_store path w = open_ (record {
    store = record {
      is_open = false;
      code = Status.ok;
      has_db = false;
      reusable_tx = none;
      options = store_options E.hardware_concurrency;
      kinds = [];
      path = path;
      version = [];
      total_since_last_sync = 0;
      last_sync = 0;
    };
    world = w;
  })
