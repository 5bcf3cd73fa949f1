-- ===== src/Store/State.antt =====
-- The fields of StoreImpl, its private helpers on them, and utils.h's `since`.
use librocks_dll.Prelude.{
  ℕ, ◌+◌, ◌-◌, ◌/◌, ◌%◌, ◌^◌, Bool, true, false, Option, none, some, ◌||◌, ◌≡◌,
}
use librocks_dll.Prelude.Tests.{ℤ, leb, ◌==◌, if◌then◌else◌}
use librocks_dll.Prelude.Text.{Text}
use librocks_dll.Prelude.Map.{Map}
use librocks_dll.Prelude.Action.{Action, Returns, pure, fault, ◌>>=◌, ◌>>◌}
use librocks_dll.Status
use librocks_dll.Status.{IntPtr, assign}
use librocks_dll.Engine.{Engine, Tx, Options}
use librocks_dll.Kind.{KindImpl, Kind, kind_impl, other_kind}

-- `has_db` says whether `txnDb` is not null. Times are those of steady_clock, in nanoseconds.
pub record StoreImpl : Type 0 where
  pub is_open : Bool
  pub code : ℤ
  pub has_db : Bool
  pub reusable_tx : Option Tx
  pub options : Options
  pub kinds : Map KindImpl
  pub path : Text
  pub version : Text
  pub total_since_last_sync : ℕ
  pub last_sync : ℕ

pub record Sys (W : Type 0) : Type 0 where
  pub store : StoreImpl
  pub world : W

-- a `size_t*`: null, or the value of the cell that it points to
abbrev pub SizePtr : Type 0
SizePtr = Option ℕ

-- What a call that returns a `char*` leaves: the two out-parameters, and the buffer or null.
pub record Reply : Type 0 where
  pub status : IntPtr
  pub result_len : SizePtr
  pub value : Option Text

-- FLUSH_BATCH_SIZE + 1 and FLUSH_TIME_WINDOW_MILLIS
abbrev pub flush_batch : ℕ
flush_batch = 16384

abbrev pub flush_time_window_millis : ℕ
flush_time_window_millis = 985

abbrev pub deref : {S A : Type 0} → Option A → Action S A
deref none = fault
deref (some a) = pure a

-- *p = n
abbrev pub write_len : {S : Type 0} → SizePtr → ℕ → Action S SizePtr
write_len none n = fault
write_len (some _) n = pure (some n)

-- toKindImpl
abbrev pub to_kind_impl : Kind → IntPtr → Option KindImpl × IntPtr
to_kind_impl (kind_impl k) status = (some k, status)
to_kind_impl (other_kind n v) status = (none, assign Status.invalid_argument status)

abbrev pub opt_eq : Option ℕ → Option ℕ → Bool
opt_eq none none = true
opt_eq none (some _) = false
opt_eq (some _) none = false
opt_eq (some a) (some b) = a == b

module _ {W : Type 0} where
  abbrev pub modify : (StoreImpl → StoreImpl) → Action (Sys W) (Unit {0})
  modify f s = some (tt, record s { store = f s.store })

  -- a call of RocksDB or of the clock
  abbrev pub on_world : {A : Type 0} → (W → A × W) → Action (Sys W) A
  on_world f s = let (a, w) = f s.world in some (a, record s { world = w })

  -- a call through `txnDb`, by whether it is not null
  abbrev pub db_call : {A : Type 0} → Bool → (W → A × W) → Action (Sys W) A
  db_call true f s = on_world f s
  db_call false f s = none

  unfoldable pub on_db : {A : Type 0} → (W → A × W) → Action (Sys W) A
  on_db f s = db_call s.store.has_db f s

  db_call-Returns :
      {A : Type 0} (b : Bool) (f : W → A × W) (s : Sys W) {P : A → Sys W → Type 0}
      → b ≡ true
      → P (f s.world).0 (record s { world = (f s.world).1 })
      → Returns (db_call b f s) P
  db_call-Returns true f s e p = record { out = p }
  db_call-Returns false f s e p = cc

  pub on_db-Returns :
      {A : Type 0} (f : W → A × W) (s : Sys W) {P : A → Sys W → Type 0}
      → s.store.has_db ≡ true
      → P (f s.world).0 (record s { world = (f s.world).1 })
      → Returns (on_db f s) P
  unfolding on_db
  on_db-Returns f s h p = db_call-Returns s.store.has_db f s h p

  -- StoreImpl::validateOpen, by `isOpen()`
  abbrev pub validate_at : Bool → IntPtr → Action (Sys W) (Bool × IntPtr)
  validate_at true status s = some ((true, assign Status.ok status), s)
  validate_at false status s = some (
    (false, assign Status.closed status),
    record s { store = record s.store { code = Status.closed } },
  )

  unfoldable pub validate_open : IntPtr → Action (Sys W) (Bool × IntPtr)
  validate_open status s = validate_at s.store.is_open status s

  -- if (validateOpen(status)) { … } else { assign(Status::Closed, status); return …; }
  unfoldable pub with_open :
      {A : Type 0} → IntPtr → (IntPtr → A) → (IntPtr → Action (Sys W) A) → Action (Sys W) A
  with_open status refuse body = do
    (opened, status') ← validate_open status
    if opened then body status' else pure (refuse (assign Status.closed status'))

module _ {W : Type 0} (E : Engine W) where
  -- StoreImpl::reusableTx
  abbrev pub reusable_from : Option Tx → Action (Sys W) (Option Tx)
  reusable_from (some t) = pure (some t)
  reusable_from none = do
    t ← on_db (E.begin_transaction none)
    modify (λ st. record st { reusable_tx = t })
    pure t

  unfoldable pub reusable_tx : Action (Sys W) (Option Tx)
  reusable_tx s = reusable_from s.store.reusable_tx s

  abbrev pub delete_tx : Option Tx → Action (Sys W) (Unit {0})
  delete_tx none s = some (tt, s)
  delete_tx (some t) s = some (tt, record s { world = E.delete_tx t s.world })

  -- StoreImpl::deleteIfNewTx; `delete` of a null pointer does nothing
  unfoldable pub delete_if_new_tx : Option Tx → Action (Sys W) (Unit {0})
  delete_if_new_tx tx s = if opt_eq tx s.store.reusable_tx then some (tt, s) else delete_tx tx s

  -- StoreImpl::syncWALNoLock; the status of FlushWAL is dropped
  unfoldable pub sync_wal_no_lock : Action (Sys W) (Unit {0})
  sync_wal_no_lock s =
      if s.store.is_open then (do dropped ← on_db (E.flush_wal true); pure tt) s else some (tt, s)

  -- StoreImpl::flushNoLock
  unfoldable pub flush_no_lock : Bool → Action (Sys W) (Unit {0})
  flush_no_lock wait s =
      if s.store.is_open then (do dropped ← on_db (E.flush wait); pure tt) s else some (tt, s)

  -- StoreImpl::syncAndReset
  unfoldable pub sync_and_reset : Action (Sys W) (Unit {0})
  unfolding sync_wal_no_lock
  sync_and_reset = do
    sync_wal_no_lock
    t ← on_world E.now
    modify (λ st. record st { last_sync = t; total_since_last_sync = 0 })

  -- since(start), in milliseconds; the clock never goes back
  abbrev pub since : ℕ → Action (Sys W) ℕ
  since start = on_world (λ w. let (t, w') = E.now w in ((t - start) / 10 ^ 6, w'))

  -- if (…) syncAndReset();
  abbrev pub sync_if : Bool → Action (Sys W) (Unit {0})
  sync_if true = sync_and_reset
  sync_if false = pure tt

  -- StoreImpl::occasionalWalSync. `x & FLUSH_BATCH_SIZE` keeps the low 14 bits.
  unfoldable pub occasional_wal_sync : Action (Sys W) (Unit {0})
  unfolding sync_and_reset
  occasional_wal_sync = do
    modify (λ st. record st { total_since_last_sync = (st.total_since_last_sync + 1) % 2 ^ 64 })
    elapsed ← (λ s. since s.store.last_sync s)
    λ s.
        sync_if
          (leb flush_time_window_millis elapsed || s.store.total_since_last_sync % flush_batch == 0)
          s
