-- ===== src/Store/Write.antt =====
-- The writes of src/impl/StoreImpl.cpp: put, remove, singleRemove, removeRange, and the private
-- put_, remove_ and singleRemove_, which differ only in the call that stages the write.
use librocks_dll.Prelude.{Option, none, some}
use librocks_dll.Prelude.Tests.{pos, if◌then◌else◌}
use librocks_dll.Prelude.Text.{Text}
use librocks_dll.Prelude.Action.{Action, pure, ◌>>=◌, ◌>>◌}
use librocks_dll.Status
use librocks_dll.Status.{IntPtr, assign}
use librocks_dll.Engine.{Engine, EngineStatus, status_ok, Handle, Tx}
use librocks_dll.Kind.{KindImpl, Kind, is_valid}
use librocks_dll.Store.State.{
  Sys, deref, to_kind_impl, on_world, on_db, with_open, reusable_tx, delete_if_new_tx,
  occasional_wal_sync,
}

module _ {W : Type 0} where
  -- the same where the call returns nothing
  abbrev pub when_open : IntPtr → (IntPtr → Action (Sys W) IntPtr) → Action (Sys W) IntPtr
  when_open status = with_open status (λ p. p)

module _ {W : Type 0} (E : Engine W) where
  -- if (s.ok()) { s = tx->Commit(); … }
  unfoldable pub commit_staged : IntPtr → Tx → EngineStatus → Action (Sys W) IntPtr
  commit_staged status t staged =
      if status_ok staged
      then (do
        s ← on_world (E.tx_commit t)
        if status_ok s
            then (do occasional_wal_sync E; pure status)
            else pure (assign (pos s.code) status))
      else pure (assign (pos staged.code) status)

  -- the body of `if (tx) … else …`
  unfoldable pub write_in :
      IntPtr → KindImpl → (Handle → Tx → W → EngineStatus × W) → Option Tx → Action (Sys W) IntPtr
  write_in status kind stage none = pure (assign Status.no_transaction status)
  write_in status kind stage (some t) = do
    h ← deref kind.handle_
    s ← on_world (stage h t)
    commit_staged status t s

  unfoldable pub write_kind :
      IntPtr → Option KindImpl → (Handle → Tx → W → EngineStatus × W) → Action (Sys W) IntPtr
  write_kind status none stage = pure status
  write_kind status (some kind) stage = do
    old ← reusable_tx E
    tx ← on_db (E.begin_transaction old)
    status' ← write_in status kind stage tx
    delete_if_new_tx E tx
    pure status'

  unfoldable pub put_ : IntPtr → Kind → Text → Text → Action (Sys W) IntPtr
  put_ status k key value =
      let (kind, status') = to_kind_impl k status in
      write_kind status' kind (λ h t. E.tx_put t h key value)

  unfoldable pub remove_ : IntPtr → Kind → Text → Action (Sys W) IntPtr
  remove_ status k key =
      let (kind, status') = to_kind_impl k status in
      write_kind status' kind (λ h t. E.tx_delete t h key)

  unfoldable pub single_remove_ : IntPtr → Kind → Text → Action (Sys W) IntPtr
  single_remove_ status k key =
      let (kind, status') = to_kind_impl k status in
      write_kind status' kind (λ h t. E.tx_single_delete t h key)

  -- if (!key || !kind.isValid()) { assign(Status::InvalidArgument, status); return; }
  unfoldable pub put : IntPtr → Kind → Option Text → Text → Action (Sys W) IntPtr
  put status kind none value = pure (assign Status.invalid_argument status)
  put status kind (some key) value =
      if is_valid kind
      then when_open status (λ st. put_ st kind key value)
      else pure (assign Status.invalid_argument status)

  unfoldable pub remove : IntPtr → Kind → Option Text → Action (Sys W) IntPtr
  remove status kind none = pure (assign Status.invalid_argument status)
  remove status kind (some key) =
      if is_valid kind
      then when_open status (λ st. remove_ st kind key)
      else pure (assign Status.invalid_argument status)

  unfoldable pub single_remove : IntPtr → Kind → Option Text → Action (Sys W) IntPtr
  single_remove status kind none = pure (assign Status.invalid_argument status)
  single_remove status kind (some key) =
      if is_valid kind
      then when_open status (λ st. single_remove_ st kind key)
      else pure (assign Status.invalid_argument status)

  -- the body of removeRange, behind its guards
  unfoldable pub remove_range_in : IntPtr → Option KindImpl → Text → Text → Action (Sys W) IntPtr
  remove_range_in status none b e = pure status
  remove_range_in status (some kind) b e = do
    h ← deref kind.handle_
    let batched = E.batch_delete_range h b e
    if status_ok batched
        then (do
          s ← on_db (E.write_delete_range h b e)
          if status_ok s then pure status else pure (assign (pos s.code) status))
        else pure (assign (pos batched.code) status)

  unfoldable pub remove_range : IntPtr → Kind → Option Text → Option Text → Action (Sys W) IntPtr
  unfolding remove_range_in
  remove_range status k none e = pure (assign Status.invalid_argument status)
  remove_range status k (some b) none = pure (assign Status.invalid_argument status)
  remove_range status k (some b) (some e) =
      if is_valid k
      then when_open status
          (λ st. let (kind, st') = to_kind_impl k st in remove_range_in st' kind b e)
      else pure (assign Status.invalid_argument status)
