-- ===== src/Engine/Types.antt =====
-- The calls of RocksDB and of the clock that include/impl and src/impl make.
use librocks_dll.Prelude.{ℕ, Bool, Option, List}
use librocks_dll.Prelude.Tests.{◌==◌}
use librocks_dll.Prelude.Text.{Text}

-- rocksdb::ColumnFamilyHandle*, rocksdb::Transaction* and rocksdb::Iterator*, where not null
abbrev pub Handle : Type 0
Handle = ℕ

abbrev pub Tx : Type 0
Tx = ℕ

abbrev pub Iter : Type 0
Iter = ℕ

-- rocksdb::Status, with what `code()` and `IsPathNotFound()` return
pub record EngineStatus : Type 0 where
  pub code : ℕ
  pub is_path_not_found : Bool

-- Status::ok()
abbrev pub status_ok : EngineStatus → Bool
status_ok s = s.code == 0

-- The options that a store sets; all others keep RocksDB's defaults.
pub record Options : Type 0 where
  pub create_if_missing : Bool
  pub error_if_exists : Bool
  pub keep_log_file_num : ℕ
  pub delete_obsolete_files_period_micros : ℕ
  pub wal_ttl_seconds : ℕ
  pub wal_size_limit_mb : ℕ
  pub recycle_log_file_num : ℕ
  pub parallelism : ℕ
  pub periodic_compaction_seconds : ℕ
  pub optimize_filters_for_hits : Bool
  pub memtable_memory_budget : ℕ
  pub block_size : ℕ
  pub format_version : ℕ

-- What TransactionDB::Open returns and writes through its pointers.
pub record Opened : Type 0 where
  pub status : EngineStatus
  pub handles : List Handle
  pub has_db : Bool

pub record Engine (W : Type 0) : Type 0 where
  pub hardware_concurrency : ℕ
  pub version_string : Text
  pub build_git_sha : Text
  pub build_date : Text
  pub list_column_families : Options → Text → W → (EngineStatus × List Text) × W
  pub open_db : Options → Text → List Text → W → Opened × W
  pub delete_db : W → W
  pub enable_file_deletions : W → W
  pub create_column_family : Text → W → (EngineStatus × Option Handle) × W
  pub delete_handle : Handle → W → W
  pub begin_transaction : Option Tx → W → Option Tx × W
  pub tx_put : Tx → Handle → Text → Text → W → EngineStatus × W
  pub tx_delete : Tx → Handle → Text → W → EngineStatus × W
  pub tx_single_delete : Tx → Handle → Text → W → EngineStatus × W
  pub tx_commit : Tx → W → EngineStatus × W
  pub delete_tx : Tx → W → W
  -- WriteBatch::DeleteRange on an empty batch, and Write of the batch that holds it
  pub batch_delete_range : Handle → Text → Text → EngineStatus
  pub write_delete_range : Handle → Text → Text → W → EngineStatus × W
  pub get : Handle → Text → W → (EngineStatus × Text) × W
  pub flush_wal : Bool → W → EngineStatus × W
  -- Flush with `wait`
  pub flush : Bool → W → EngineStatus × W
  pub compact_range : Handle → W → EngineStatus × W
  pub new_iterator : Handle → W → Option Iter × W
  pub seek_to_first : Iter → W → W
  pub seek_to_last : Iter → W → W
  pub iter_valid : Iter → W → Bool
  pub iter_key : Iter → W → Text
  pub delete_iter : Iter → W → W
  -- steady_clock::now(), in nanoseconds
  pub now : W → ℕ × W
