-- ===== src/Store/Kinds.antt =====
-- The KindManager of src/impl/StoreImpl.cpp.
use librocks_dll.Prelude.{Option, none, some, List, [], ◌∷◌}
use librocks_dll.Prelude.Tests.{pos, length, if◌then◌else◌}
use librocks_dll.Prelude.Text.{Text, codes}
use librocks_dll.Prelude.Map.{Map, find, assign_key}
use librocks_dll.Prelude.Action.{Action, pure, ◌>>=◌, ◌>>◌}
use librocks_dll.Status
use librocks_dll.Status.{IntPtr, assign}
use librocks_dll.Engine.{Engine, Handle, EngineStatus, status_ok}
use librocks_dll.Kind.{KindImpl, Kind, kind_impl, empty_kind_impl, new_kind_impl}
use librocks_dll.Store.State.{Sys, SizePtr, write_len, on_db, modify, validate_open}

-- StoreImpl::DefaultCF and StoreImpl::EmptyKind
abbrev pub default_cf : Text
default_cf = codes "default"

abbrev pub empty_kind : Kind
empty_kind = kind_impl empty_kind_impl

abbrev pub kind_list : Map KindImpl → List Kind
kind_list [] = []
kind_list ((n, k) ∷ rest) = kind_impl k ∷ kind_list rest

abbrev pub found_default : Option KindImpl → IntPtr → Kind × IntPtr
found_default none status = (empty_kind, assign Status.not_found status)
found_default (some k) status = (kind_impl k, status)

module _ {W : Type 0} where
  -- getKindManager returns this object, open or not
  unfoldable pub get_kind_manager : IntPtr → Action (Sys W) IntPtr
  get_kind_manager status = do (opened, status') ← validate_open status; pure status'

  -- getKinds: the array or null, and the out-parameters
  unfoldable pub get_kinds :
      IntPtr → SizePtr → Action (Sys W) (Option (List Kind) × IntPtr × SizePtr)
  get_kinds status result_len s =
      (do
        (opened, status') ← validate_open status
        if opened
            then (do
              n ← write_len result_len (length s.store.kinds)
              pure (some (kind_list s.store.kinds), status', n))
            else pure (none, assign Status.closed status', result_len))
        s

  unfoldable pub get_default_kind : IntPtr → Action (Sys W) (Kind × IntPtr)
  get_default_kind status s =
      (do
        (opened, status') ← validate_open status
        if opened
            then pure (found_default (find default_cf s.store.kinds) status')
            else pure (empty_kind, status'))
        s

module _ {W : Type 0} (E : Engine W) where
  abbrev pub add_created :
      IntPtr → Text → EngineStatus → Option Handle → Action (Sys W) (Kind × IntPtr)
  add_created status name s handle =
      if status_ok s
      then (do
        modify (λ st. record st { kinds = assign_key name (new_kind_impl name handle) st.kinds })
        pure (kind_impl (new_kind_impl name handle), status))
      else pure (empty_kind, assign (pos s.code) status)

  -- createKind; `kindName` is a C string
  unfoldable pub create_kind : IntPtr → Text → Action (Sys W) (Kind × IntPtr)
  create_kind status kind_name = do
    (s, handle) ← on_db (E.create_column_family kind_name)
    add_created status kind_name s handle

  abbrev pub found_or_create : IntPtr → Text → Option KindImpl → Action (Sys W) (Kind × IntPtr)
  found_or_create status name (some k) = pure (kind_impl k, status)
  found_or_create status name none = create_kind status name

  -- getOrCreateKind; `kindName` is a C string
  unfoldable pub get_or_create_kind : IntPtr → Text → Action (Sys W) (Kind × IntPtr)
  get_or_create_kind status kind_name s =
      (do
        (opened, status') ← validate_open status
        if opened
            then found_or_create status' kind_name (find kind_name s.store.kinds)
            else pure (empty_kind, status'))
        s
