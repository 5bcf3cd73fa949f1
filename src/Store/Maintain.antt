-- ===== src/Store/Maintain.antt =====
-- syncWAL, flush, flushNoWait, compact, compactAll and close of src/impl/StoreImpl.cpp.
use librocks_dll.Prelude.{Bool, true, false, Option, none, some, [], ◌∷◌}
use librocks_dll.Prelude.Tests.{pos, if◌then◌else◌}
use librocks_dll.Prelude.Map.{Map}
use librocks_dll.Prelude.Action.{Action, pure, fault, ◌>>=◌, ◌>>◌}
use librocks_dll.Status
use librocks_dll.Status.{IntPtr, assign}
use librocks_dll.Engine.{Engine, Handle, status_ok}
use librocks_dll.Kind.{KindImpl, Kind, kind_impl, other_kind, is_valid}
use librocks_dll.Store.State.{
  Sys, deref, to_kind_impl, on_world, on_db, modify, sync_wal_no_lock, flush_no_lock,
}
use librocks_dll.Store.Write.{when_open}

module _ {W : Type 0} (E : Engine W) where
  unfoldable pub sync_wal : Action (Sys W) (Unit {0})
  sync_wal = sync_wal_no_lock E

  unfoldable pub flush : Action (Sys W) (Unit {0})
  flush = flush_no_lock E true

  unfoldable pub flush_no_wait : Action (Sys W) (Unit {0})
  flush_no_wait = flush_no_lock E false

  -- compactKind, with the result and the status; the cast to a reference of another class throws
  unfoldable pub compact_kind : IntPtr → Kind → Action (Sys W) (Bool × IntPtr)
  compact_kind status (other_kind n v) = fault
  compact_kind status (kind_impl k) = do
    h ← deref k.handle_
    s ← on_db (E.compact_range h)
    if status_ok s then pure (true, status) else pure (false, assign (pos s.code) status)

  compact_cast : IntPtr → Kind → Option KindImpl → Action (Sys W) IntPtr
  compact_cast status k none = pure status
  compact_cast status k (some kind) =
      when_open status (λ st. (do (done, st') ← compact_kind st k; pure st'))

  unfoldable pub compact : IntPtr → Kind → Action (Sys W) IntPtr
  unfolding compact_cast
  compact status k =
      if is_valid k
      then (let (kind, status') = to_kind_impl k status in compact_cast status' k kind)
      else pure (assign Status.invalid_argument status)

  -- the loop over `kinds`, which stops at the first failure
  unfoldable pub compact_each : IntPtr → Map KindImpl → Action (Sys W) IntPtr
  compact_each status [] = pure status
  compact_each status ((n, k) ∷ rest) = do
    (done, status') ← compact_kind status (kind_impl k)
    if done then compact_each status' rest else pure status'

  unfoldable pub compact_all : IntPtr → Action (Sys W) IntPtr
  compact_all status s = when_open status (λ st. compact_each st s.store.kinds) s

  unfoldable pub delete_handle : Option Handle → Action (Sys W) (Unit {0})
  delete_handle none = pure tt
  delete_handle (some h) = on_world (λ w. (tt, E.delete_handle h w))

  -- for (auto& it : kinds) it.second.closeHandle();
  unfoldable pub close_handles : Map KindImpl → Action (Sys W) (Unit {0})
  unfolding delete_handle
  close_handles [] = pure tt
  close_handles ((n, k) ∷ rest) = do delete_handle k.handle_; close_handles rest

  -- between `open = false;` and `delete txnDb;`. `open` is already false, so the calls of
  -- syncWALNoLock and flushNoLock do nothing.
  unfoldable pub close_open : Action (Sys W) (Unit {0})
  close_open = do
    modify (λ st. record st { is_open = false })
    sync_wal_no_lock E
    flush_no_lock E true
    (λ s. close_handles s.store.kinds s)
    modify (λ st. record st { kinds = [] })
    (λ s. (if s.store.has_db then on_world (λ w. (tt, E.delete_db w)) s else some (tt, s)))
    modify (λ st. record st { has_db = false })

  unfoldable pub close : Action (Sys W) (Unit {0})
  unfolding close_open
  close s = if s.store.is_open then close_open s else some (tt, s)

  -- ~StoreImpl
  unfoldable pub destroy : Action (Sys W) (Unit {0})
  destroy s = if s.store.is_open then close s else some (tt, s)
