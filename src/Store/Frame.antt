-- ===== src/Store/Frame.antt =====
-- What the private helpers of StoreImpl leave alone, and the invariant of a store.
use librocks_dll.Prelude.{
  ℕ, ◌+◌, ◌%◌, ◌^◌, ◌<◌, Bool, true, false, Option, none, some, ◌≡◌, ◌||◌, refl, ◌∙◌, arith,
}
use librocks_dll.Prelude.Tests.{◌==◌}
use librocks_dll.Prelude.Action.{
  Returns, Returns-bind, Returns-then, Returns-mono, Returns-some, Returns-if,
}
use librocks_dll.Engine.{Engine, Tx}
use librocks_dll.Engine.Laws.{Laws}
use librocks_dll.Store.State.{
  Sys, flush_batch, opt_eq, on_db-Returns, reusable_from, reusable_tx, delete_tx, sync_if,
  delete_if_new_tx, sync_wal_no_lock, sync_and_reset, occasional_wal_sync,
}

-- An open store has a database, and the count of writes since the last sync is below a batch.
pub record IsValid {W : Type 0} (s : Sys W) : Type 0 where
  pub open-has_db : s.store.is_open ≡ true → s.store.has_db ≡ true
  pub below_batch : s.store.total_since_last_sync < flush_batch

-- The fields that reads and writes leave alone.
pub record Frame {W : Type 0} (s t : Sys W) : Type 0 where
  pub is_open : t.store.is_open ≡ s.store.is_open
  pub has_db : t.store.has_db ≡ s.store.has_db
  pub kinds : t.store.kinds ≡ s.store.kinds
  pub code : t.store.code ≡ s.store.code
  pub batch :
      s.store.total_since_last_sync < flush_batch → t.store.total_since_last_sync < flush_batch

pub Frame-refl : {W : Type 0} (s : Sys W) → Frame s s
Frame-refl s = record { is_open = refl; has_db = refl; kinds = refl; code = refl; batch = λ h. h }

pub Frame-trans : {W : Type 0} (s t u : Sys W) → Frame s t → Frame t u → Frame s u
Frame-trans s t u f g = record {
  is_open = g.is_open ∙ f.is_open;
  has_db = g.has_db ∙ f.has_db;
  kinds = g.kinds ∙ f.kinds;
  code = g.code ∙ f.code;
  batch = λ h. g.batch (f.batch h);
}

-- a change of the world alone
pub Frame-world : {W : Type 0} (s : Sys W) (w : W) → Frame s (record s { world = w })
Frame-world s w = record {
  is_open = refl;
  has_db = refl;
  kinds = refl;
  code = refl;
  batch = λ h. h;
}

pub Frame-IsValid : {W : Type 0} (s t : Sys W) → Frame s t → IsValid s → IsValid t
Frame-IsValid s t f v = record {
  open-has_db = λ o. f.has_db ∙ v.open-has_db (ground arith);
  below_batch = f.batch v.below_batch;
}

or-false : (a b : Bool) → (a || b) ≡ false → b ≡ false
or-false a b e = ground arith

-- A count that is not at a multiple of a batch has not passed one.
next_below :
    (n : ℕ)
    → (n + 1) % 2 ^ 64 % flush_batch == 0 ≡ false
    → n < flush_batch
    → (n + 1) % 2 ^ 64 < flush_batch
next_below n t h = ground arith

pub world_IsValid : {W : Type 0} (s : Sys W) (w : W) → IsValid s → IsValid (record s { world = w })
world_IsValid s w v = Frame-IsValid s _ (Frame-world s w) v

module _ {W : Type 0} {E : Engine W} (L : Laws E) where
  -- The frame, and what a reader sees.
  pub record Quiet (s t : Sys W) : Type 0 where
    pub frame : Frame s t
    pub view : L.view t.world ≡ L.view s.world

  pub Quiet-refl : (s : Sys W) → Quiet s s
  Quiet-refl s = record { frame = Frame-refl s; view = refl }

  pub Quiet-trans : (s t u : Sys W) → Quiet s t → Quiet t u → Quiet s u
  Quiet-trans s t u q r = record {
    frame = Frame-trans s t u q.frame r.frame;
    view = r.view ∙ q.view;
  }

  -- a change of the world that a reader does not see
  pub Quiet-world :
      (s : Sys W) (w : W) → L.view w ≡ L.view s.world → Quiet s (record s { world = w })
  Quiet-world s w e = record { frame = Frame-world s w; view = e }

  Quiet-reusable :
      (s : Sys W) (o : Option Tx)
      → Quiet s (record s { store = record s.store { reusable_tx = o } })
  Quiet-reusable s o = record {
    frame = record { is_open = refl; has_db = refl; kinds = refl; code = refl; batch = λ h. h };
    view = refl;
  }

  Quiet-synced :
      (s : Sys W) (n at : ℕ)
      → (s.store.total_since_last_sync < flush_batch → n < flush_batch)
      → Quiet s (record s { store = record s.store { total_since_last_sync = n; last_sync = at } })
  Quiet-synced s n at b = record {
    frame = record { is_open = refl; has_db = refl; kinds = refl; code = refl; batch = b };
    view = refl;
  }

  reusable_from-Quiet :
      (o : Option Tx) (s : Sys W)
      → s.store.has_db ≡ true
      → Returns (reusable_from E o s) (λ o t. Quiet s t)
  reusable_from-Quiet (some t) s h = Returns-some (Quiet-refl s)
  reusable_from-Quiet none s h =
      Returns-bind _ _ _ (λ o t. Quiet s t)
        (on_db-Returns _ s h (Quiet-world s _ (L.begin-view none s.world)))
        (λ o t q. Returns-then _ _ _ refl (Returns-some (Quiet-trans s t _ q (Quiet-reusable t o))))

  pub reusable_tx-Quiet :
      (s : Sys W) → s.store.has_db ≡ true → Returns (reusable_tx E s) (λ o t. Quiet s t)
  unfolding reusable_tx
  reusable_tx-Quiet s h = reusable_from-Quiet s.store.reusable_tx s h

  delete_tx-Quiet : (tx : Option Tx) (s : Sys W) → Returns (delete_tx E tx s) (λ o t. Quiet s t)
  delete_tx-Quiet none s = Returns-some (Quiet-refl s)
  delete_tx-Quiet (some t) s = Returns-some (Quiet-world s _ (L.delete_tx-view t s.world))

  pub delete_if_new_tx-Quiet :
      (tx : Option Tx) (s : Sys W) → Returns (delete_if_new_tx E tx s) (λ o t. Quiet s t)
  unfolding delete_if_new_tx
  delete_if_new_tx-Quiet tx s =
      Returns-if (opt_eq tx s.store.reusable_tx) (λ e. Returns-some (Quiet-refl s))
        (λ e. delete_tx-Quiet tx s)

  pub sync_wal_no_lock-Quiet :
      (s : Sys W) → s.store.has_db ≡ true → Returns (sync_wal_no_lock E s) (λ o t. Quiet s t)
  unfolding sync_wal_no_lock
  sync_wal_no_lock-Quiet s h =
      Returns-if s.store.is_open
        (λ e.
          Returns-bind _ _ _ (λ o t. Quiet s t)
            (on_db-Returns _ s h (Quiet-world s _ (L.flush_wal-view true s.world)))
            (λ o t q. Returns-some q))
        (λ e. Returns-some (Quiet-refl s))

  sync_and_reset-Quiet :
      (s : Sys W)
      → s.store.has_db ≡ true
      → Returns
          (sync_and_reset E s)
          (λ o t. Quiet s t × (t.store.total_since_last_sync < flush_batch))
  unfolding sync_and_reset
  sync_and_reset-Quiet s h =
      Returns-bind _ _ _ (λ o t. Quiet s t) (sync_wal_no_lock-Quiet s h)
        (λ o t q. Returns-then _ _ _ refl (
          Returns-some (
            Quiet-trans s _ _ q (
                Quiet-trans t _ _ (Quiet-world t _ (L.now-view t.world))
                  (Quiet-synced _ 0 _ (λ b. omega arith))),
            omega arith,
          )))

  sync_if-Quiet :
      (b : Bool) (s : Sys W)
      → s.store.has_db ≡ true
      → (b ≡ false → s.store.total_since_last_sync < flush_batch)
      → Returns (sync_if E b s) (λ o t. Quiet s t × (t.store.total_since_last_sync < flush_batch))
  sync_if-Quiet true s h k = sync_and_reset-Quiet s h
  sync_if-Quiet false s h k = Returns-some (Quiet-refl s, k refl)

  -- The write is counted, and a batch of them, or the time window, ends in a sync.
  pub occasional_wal_sync-Quiet :
      (s : Sys W)
      → IsValid s
      → s.store.has_db ≡ true
      → Returns (occasional_wal_sync E s) (λ o t. Quiet s t)
  unfolding occasional_wal_sync
  occasional_wal_sync-Quiet s v h = Returns-then _ _ _ refl (
      Returns-then _ _ _ refl (
        Returns-mono _
          (sync_if-Quiet _ _ h
            (λ e. next_below s.store.total_since_last_sync (or-false _ _ e) v.below_batch))
          (λ o t p. record {
            frame = record {
              is_open = p.0.frame.is_open;
              has_db = p.0.frame.has_db;
              kinds = p.0.frame.kinds;
              code = p.0.frame.code;
              batch = λ b. p.1;
            };
            view = p.0.view ∙ L.now-view s.world;
          })))
