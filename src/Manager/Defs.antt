-- ===== src/Manager/Defs.antt =====
-- KueueManagerImpl, openStore and openKueueManager.
use librocks_dll.Prelude.{Bool, true, false, Option, none, some, [], ◌&&◌}
use librocks_dll.Prelude.Tests.{if◌then◌else◌}
use librocks_dll.Prelude.Text.{Text}
use librocks_dll.Prelude.Map.{Map, find, assign_key}
use librocks_dll.Prelude.Action.{Action, pure, ◌>>◌}
use librocks_dll.Status
use librocks_dll.Status.{IntPtr, assign}
use librocks_dll.Engine.{Engine}
use librocks_dll.Store.State.{Sys}
use librocks_dll.Store.Open.{new_store}
use librocks_dll.Store.Maintain
use librocks_dll.Kueue.State.{KueueImpl}
use librocks_dll.Kueue.Recover.{new_kueue}

-- `has_store` says whether `store` is not null. A KueueImpl* is the identifier under which the
-- manager holds the queue.
pub record ManagerSys (W : Type 0) : Type 0 where
  pub has_store : Bool
  pub version : Text
  pub queues : Map KueueImpl
  pub sys : Sys W

module _ {W : Type 0} where
  abbrev pub is_open : ManagerSys W → Bool
  is_open s = s.has_store && s.sys.store.is_open

  -- getRocksDBVersion
  abbrev pub get_rocks_db_version : ManagerSys W → Text
  get_rocks_db_version s = s.version

  -- validateOpen
  abbrev pub validate : IntPtr → ManagerSys W → Bool × IntPtr
  validate status s =
      if is_open s then (true, assign Status.ok status) else (false, assign Status.closed status)

module _ {W : Type 0} (E : Engine W) where
  abbrev pub through_store : {A : Type 0} → Action (Sys W) A → Action (ManagerSys W) A
  through_store m s = elim (m s.sys) [ none ↦ none | some (a, t) ↦ some (a, record s { sys = t }) ]

  unfoldable pub create_queue : Text → Action (ManagerSys W) (Unit {0})
  create_queue id s = elim (new_kueue E id s.sys) [
    | none ↦ none
    | some (q, t) ↦ some (tt, record s { sys = t; queues = assign_key id q s.queues })
  ]

  unfoldable pub found_queue : Text → Option KueueImpl → Action (ManagerSys W) (Unit {0})
  unfolding create_queue
  found_queue id (some q) s = some (tt, s)
  found_queue id none s = create_queue id s

  -- get: the identifier of the queue, or null; `id` is a C string
  unfoldable pub get : IntPtr → Text → Action (ManagerSys W) (Option Text × IntPtr)
  unfolding found_queue
  get status id s =
      let (opened, status') = validate status s in
      if opened
      then (do found_queue id (find id s.queues); pure (some id, status')) s
      else some ((none, status'), s)

  -- `delete store` runs the destructor of the store
  unfoldable pub close_ : Action (ManagerSys W) (Unit {0})
  close_ s =
      if is_open s
      then (do
        (λ t. some (tt, record t { queues = [] }))
        through_store (Maintain.destroy E)
        (λ t. some (tt, record t { has_store = false })))
          s
      else some (tt, s)

  unfoldable pub close : Action (ManagerSys W) (Unit {0})
  unfolding close_
  close = close_

  -- ~KueueManagerImpl
  unfoldable pub destroy : Action (ManagerSys W) (Unit {0})
  unfolding close_
  destroy = close_

  unfoldable pub compact_all : IntPtr → Action (ManagerSys W) IntPtr
  compact_all status s =
      let (opened, status') = validate status s in
      if opened then through_store (Maintain.compact_all E status') s else some (status', s)

  unfoldable pub sync_wal : IntPtr → Action (ManagerSys W) IntPtr
  sync_wal status s =
      let (opened, status') = validate status s in
      if opened then (do through_store (Maintain.sync_wal E); pure status') s else some (status', s)

  -- what openStore returns: a store or null, and the status
  unfoldable pub open_store_as : IntPtr → Sys W → Option ((Bool × IntPtr) × Sys W)
  open_store_as status s =
      if s.store.is_open
      then some ((true, status), s)
      else (do Maintain.close E; Maintain.destroy E; pure (false, assign s.store.code status)) s

  unfoldable pub open_store : IntPtr → Text → W → Option ((Bool × IntPtr) × Sys W)
  unfolding open_store_as
  open_store status path w = elim (new_store E path w) [
    | none ↦ none
    | some (u, s) ↦ open_store_as (assign Status.ok status) s
  ]

  unfoldable pub manager_of : Bool → Sys W → ManagerSys W
  manager_of opened s = record {
    has_store = opened;
    version = if opened then E.version_string else [];
    queues = [];
    sys = s;
  }

  -- KueueManagerImpl(status, path): on failure as openStore does, with `store` null
  unfoldable pub new_manager : IntPtr → Text → W → Option (IntPtr × ManagerSys W)
  unfolding open_store_as manager_of
  new_manager status path w = elim (open_store status path w) [
    | none ↦ none
    | some ((opened, status'), s) ↦ some (status', manager_of opened s)
  ]

  -- openKueueManager: a manager or null
  unfoldable pub open_kueue_manager : IntPtr → Text → W → Option ((Bool × IntPtr) × ManagerSys W)
  open_kueue_manager status path w = elim (new_manager (assign Status.ok status) path w) [
    | none ↦ none
    | some (status', m) ↦
        if is_open m
        then some ((true, status'), m)
        else (do close; destroy; pure (false, status')) m
  ]
