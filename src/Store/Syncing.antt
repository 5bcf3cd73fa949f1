-- ===== src/Store/Syncing.antt =====
-- occasionalWalSync: after how many writes, or how long, RocksDB is asked to sync the log.
use librocks_dll.Prelude.{
  ℕ, ◌+◌, ◌-◌, ◌/◌, ◌%◌, ◌^◌, ◌≤◌, ◌<◌, Bool, true, false, some, ◌||◌, ◌≡◌, ◌⊎◌, refl, arith,
}
use librocks_dll.Prelude.Tests.{leb, ◌==◌}
use librocks_dll.Prelude.Action.{Returns, Returns-then, Returns-some, ◌>>=◌}
use librocks_dll.Engine.{Engine}
use librocks_dll.Store.State.{
  Sys, flush_batch, flush_time_window_millis, sync_if, sync_wal_no_lock, sync_and_reset,
  occasional_wal_sync, on_db,
}
use librocks_dll.Store.Frame.{IsValid}

module _ {W : Type 0} (E : Engine W) where
  -- since(lastSync) at a write
  abbrev pub elapsed : Sys W → ℕ
  elapsed s = ((E.now s.world).0 - s.store.last_sync) / 10 ^ 6

  -- the world after FlushWAL(true)
  abbrev pub flushed : Sys W → W
  flushed s = (E.flush_wal true (E.now s.world).1).1

  -- The write is counted and the log is left, or FlushWAL(true) is called and the count starts again.
  pub data SyncsOrCounts (s t : Sys W) : Type 0 where
    counted :
        t.store.total_since_last_sync ≡ s.store.total_since_last_sync + 1
        → t.store.total_since_last_sync < flush_batch
        → elapsed s < flush_time_window_millis
        → t.store.last_sync ≡ s.store.last_sync
        → t.world ≡ (E.now s.world).1
        → SyncsOrCounts s t
    synced :
        (flush_time_window_millis ≤ elapsed s) ⊎ (s.store.total_since_last_sync + 1 ≡ flush_batch)
        → t.store.total_since_last_sync ≡ 0
        → t.store.last_sync ≡ (E.now (flushed s)).0
        → t.world ≡ (E.now (flushed s)).1
        → SyncsOrCounts s t

  is_due : ℕ → ℕ → Bool
  is_due total time = leb flush_time_window_millis time || (total + 1) % 2 ^ 64 % flush_batch == 0

  due :
      (total time : ℕ)
      → total < flush_batch
      → is_due total time ≡ true
      → (flush_time_window_millis ≤ time) ⊎ (total + 1 ≡ flush_batch)
  unfolding is_due
  due total time b e = ground arith

  not_due :
      (total time : ℕ)
      → total < flush_batch
      → is_due total time ≡ false
      → (time < flush_time_window_millis)
        × ((total + 1) % 2 ^ 64 ≡ total + 1)
        × (total + 1 < flush_batch)
  unfolding is_due
  not_due total time b e = ground arith

  sync_wal_no_lock-open :
      (u : Sys W)
      → u.store.is_open ≡ true
      → u.store.has_db ≡ true
      → sync_wal_no_lock E u ≡ some (tt, record u { world = (E.flush_wal true u.world).1 })
  unfolding sync_wal_no_lock on_db ◌>>=◌
  sync_wal_no_lock-open u o d = rw (o, d)

  module _ (s : Sys W) (v : IsValid s) (opened : s.store.is_open ≡ true) where
    -- the state when the time is tested
    abbrev tested : Sys W
    tested = record s {
      store = record s.store {
        total_since_last_sync = (s.store.total_since_last_sync + 1) % 2 ^ 64;
      };
      world = (E.now s.world).1;
    }

    sync_if-SyncsOrCounts :
        (b : Bool)
        → is_due s.store.total_since_last_sync (elapsed s) ≡ b
        → Returns (sync_if E b tested) (λ o t. SyncsOrCounts s t)
    unfolding sync_and_reset
    sync_if-SyncsOrCounts true e =
        Returns-then _ _ _ (sync_wal_no_lock-open tested opened (v.open-has_db opened))
          (Returns-then _ _ _ refl (Returns-some (synced (due _ _ v.below_batch e) refl refl refl)))
    sync_if-SyncsOrCounts false e =
        let (t, m, b) = not_due _ _ v.below_batch e in
        Returns-some (counted m (omega (arith, m, b)) t refl refl)

    -- On a valid and open store, a write that was committed is counted; and if it is the last one of a
    -- batch of 16384, or comes 985 ms or more after the last sync, RocksDB is asked to sync the log,
    -- and the count and the time start again, whatever FlushWAL returns. Else the log is left, the
    -- count is below 16384 and the time below 985 ms.
    pub occasional_wal_sync_lem : Returns (occasional_wal_sync E s) (λ o t. SyncsOrCounts s t)
    unfolding occasional_wal_sync is_due
    occasional_wal_sync_lem =
        Returns-then _ _ _ refl (Returns-then _ _ _ refl (sync_if-SyncsOrCounts _ refl))
