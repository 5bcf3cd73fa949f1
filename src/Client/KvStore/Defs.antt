-- ===== src/Client/KvStore/Defs.antt =====
-- KVStore: each operation calls the store, and throws on a status that it does not expect.
use librocks_dll.Prelude.{Bool, true, false, Option, none, some, List, [], ◌∷◌, ◌||◌}
use librocks_dll.Prelude.Tests.{ℤ, int_eq, if◌then◌else◌}
use librocks_dll.Prelude.Text.{Text, codes, c_str}
use librocks_dll.Prelude.Action.{Action, pure, ◌>>=◌, ◌>>◌}
use librocks_dll.Status
use librocks_dll.Status.{IntPtr}
use librocks_dll.Engine.{Engine}
use librocks_dll.Kind.{KindImpl, Kind, kind_impl, other_kind, kind_lt}
use librocks_dll.Store.State.{Sys}
use librocks_dll.Store.Kinds
use librocks_dll.Store.Write
use librocks_dll.Store.Read
use librocks_dll.Store.Update
use librocks_dll.Store.Maintain
use librocks_dll.Manager.Defs.{open_store}
use librocks_dll.Client.RocksException.{RocksException, new_exception}

-- A call returns, or throws.
pub data Result (A : Type 0) : Type 0 where
  returned : A → Result A
  thrown : RocksException → Result A

-- initCodes and KVStore::codes
abbrev pub init_codes : List (ℤ × Text)
init_codes =
    (Status.invalid, codes "Invalid")
    ∷ (Status.no_iterator, codes "NoIterator")
    ∷ (Status.already_exists, codes "AlreadyExists")
    ∷ (Status.no_transaction, codes "NoTransaction")
    ∷ (Status.closed, codes "Closed")
    ∷ (Status.ok, codes "Ok")
    ∷ (Status.not_found, codes "NotFound")
    ∷ (Status.corruption, codes "Corruption")
    ∷ (Status.not_supported, codes "NotSupported")
    ∷ (Status.invalid_argument, codes "InvalidArgument")
    ∷ (Status.io_error, codes "IOError")
    ∷ (Status.merge_in_progress, codes "MergeInProgress")
    ∷ (Status.incomplete, codes "Incomplete")
    ∷ (Status.shutdown_in_progress, codes "ShutdownInProgress")
    ∷ (Status.timed_out, codes "TimedOut")
    ∷ (Status.aborted, codes "Aborted")
    ∷ (Status.busy, codes "Busy")
    ∷ (Status.expired, codes "Expired")
    ∷ (Status.try_again, codes "TryAgain")
    ∷ (Status.compaction_too_large, codes "CompactionTooLarge")
    ∷ (Status.column_family_dropped, codes "ColumnFamilyDropped")
    ∷ (Status.unknown, codes "Unknown")
    ∷ []

-- codes.count and codes.at
unfoldable pub code_name : ℤ → List (ℤ × Text) → Option Text
code_name c [] = none
code_name c ((d, t) ∷ rest) = if int_eq d c then some t else code_name c rest

abbrev pub name_or_unknown : Option Text → Text
name_or_unknown none = codes "Unknown"
name_or_unknown (some t) = t

-- throwForStatus
unfoldable pub throw_for_status : ℤ → Result Bool
unfolding code_name
throw_for_status status =
    if int_eq status Status.ok
    then returned false
    else thrown (new_exception status (name_or_unknown (code_name status init_codes)))

-- `int status = Status::Ok` passed by its address
abbrev pub value_of : IntPtr → ℤ
value_of none = Status.ok
value_of (some c) = c

abbrev pub rethrow : {A : Type 0} → Result Bool → A → Result A
rethrow (returned _) a = returned a
rethrow (thrown e) a = thrown e

-- if (status != Status::Ok) throwForStatus(status); return a;
unfoldable pub check : {A : Type 0} → IntPtr → A → Result A
unfolding throw_for_status
check status a = rethrow (throw_for_status (value_of status)) a

-- the same with NotFound let through
unfoldable pub check_found : {A : Type 0} → IntPtr → A → Result A
unfolding check
check_found status a =
    if int_eq (value_of status) Status.ok || int_eq (value_of status) Status.not_found
    then returned a
    else check status a

-- the end of putIfAbsent
abbrev pub was_absent : IntPtr → Result Bool
was_absent status =
    if int_eq (value_of status) Status.ok
    then returned true
    else if int_eq (value_of status) Status.already_exists
    then returned false
    else throw_for_status (value_of status)

abbrev pub text_of : Option Text → Text
text_of none = []
text_of (some t) = t

-- std::set<…, comparator>::insert of a reference to a kind
unfoldable pub set_insert : KindImpl → List KindImpl → List KindImpl
set_insert k [] = k ∷ []
set_insert k (j ∷ js) =
    if kind_lt k (kind_impl j)
    then k ∷ j ∷ js
    else if kind_lt j (kind_impl k)
    then j ∷ set_insert k js
    else j ∷ js

unfoldable pub kind_set : List KindImpl → List KindImpl → List KindImpl
unfolding set_insert
kind_set done [] = done
kind_set done (k ∷ ks) = kind_set (set_insert k done) ks

abbrev pub impls : List Kind → List KindImpl
impls [] = []
impls (kind_impl k ∷ ks) = k ∷ impls ks
impls (other_kind n v ∷ ks) = impls ks

-- `has_store` says whether `store` is not null. A std::string_view is null or its bytes.
pub record ClientSys (W : Type 0) : Type 0 where
  pub has_store : Bool
  pub sys : Sys W

module _ {W : Type 0} where
  -- store->…
  abbrev pub on_store : {A : Type 0} → Action (Sys W) A → Action (ClientSys W) A
  on_store m s =
      if s.has_store
      then elim (m s.sys) [ none ↦ none | some (a, t) ↦ some (a, record s { sys = t }) ]
      else none

  -- getKindManager, and the call of `m` on the manager
  abbrev via_manager : {A : Type 0} → Action (Sys W) (Result A) → Action (ClientSys W) (Result A)
  via_manager m = on_store (do
    state ← Kinds.get_kind_manager (some Status.ok)
    (elim (throw_for_status (value_of state)) [ thrown e ↦ pure (thrown e) | returned b ↦ m ]))

  unfoldable pub is_open : Action (ClientSys W) Bool
  is_open = on_store (λ s. some (s.store.is_open, s))

  unfoldable pub get_default_kind : Action (ClientSys W) (Result Kind)
  get_default_kind =
      via_manager (do (k, status) ← Kinds.get_default_kind (some Status.ok); pure (check status k))

  unfoldable pub kinds_result :
      Option (List Kind) → IntPtr → Action (Sys W) (Result (List KindImpl))
  kinds_result none status = pure (check status [])
  kinds_result (some ks) status = pure (check status (kind_set [] (impls ks)))

  unfoldable pub get_kinds : Action (ClientSys W) (Result (List KindImpl))
  unfolding kinds_result
  get_kinds =
      via_manager
        (do (ks, status, n) ← Kinds.get_kinds (some Status.ok) (some 0); kinds_result ks status)

module _ {W : Type 0} (E : Engine W) where
  -- KVStore(path): whether `store` is not null, where the constructor does not throw
  unfoldable pub new_kv_store : Text → W → Option (Result (Unit {0}) × ClientSys W)
  new_kv_store path w = elim (open_store E (some Status.ok) (c_str path) w) [
    | none ↦ none
    | some ((opened, status), s) ↦ some (check status tt, record { has_store = opened; sys = s })
  ]

  unfoldable pub close : Action (ClientSys W) (Unit {0})
  close s = if s.has_store then on_store (Maintain.close E) s else some (tt, s)

  -- ~KVStore
  unfoldable pub destroy : Action (ClientSys W) (Unit {0})
  destroy s =
      if s.has_store
      then (do on_store (Maintain.destroy E); (λ s. some (tt, record s { has_store = false }))) s
      else some (tt, s)

  unfoldable pub get_or_create_kind : Text → Action (ClientSys W) (Result Kind)
  get_or_create_kind kind_name = via_manager (do
    (k, status) ← Kinds.get_or_create_kind E (some Status.ok) (c_str kind_name)
    pure (check status k))

  unfoldable pub put : Kind → Option Text → Option Text → Action (ClientSys W) (Result (Unit {0}))
  put kind key value =
      on_store
        (do status ← Write.put E (some Status.ok) kind key (text_of value); pure (check status tt))

  unfoldable pub remove : Kind → Option Text → Action (ClientSys W) (Result (Unit {0}))
  remove kind key =
      on_store (do status ← Write.remove E (some Status.ok) kind key; pure (check status tt))

  unfoldable pub single_remove : Kind → Option Text → Action (ClientSys W) (Result (Unit {0}))
  single_remove kind key =
      on_store (do status ← Write.single_remove E (some Status.ok) kind key; pure (check status tt))

  -- A `bytes` is here what it holds: the buffer of the reply, or nothing.
  unfoldable pub get : Kind → Option Text → Action (ClientSys W) (Result (Option Text))
  get kind key =
      on_store
        (do r ← Read.get E (some Status.ok) kind (some 0) key; pure (check_found r.status r.value))

  unfoldable pub update_if_present :
      Kind → Option Text → Option Text → Action (ClientSys W) (Result (Option Text))
  update_if_present kind key value = on_store (do
    r ← Update.update_if_present E (some Status.ok) kind (some 0) key (text_of value)
    pure (check_found r.status r.value))

  unfoldable pub single_remove_if_present :
      Kind → Option Text → Action (ClientSys W) (Result (Option Text))
  single_remove_if_present kind key = on_store (do
    r ← Update.single_remove_if_present E (some Status.ok) kind (some 0) key
    pure (check_found r.status r.value))

  unfoldable pub remove_if_present :
      Kind → Option Text → Action (ClientSys W) (Result (Option Text))
  remove_if_present kind key = on_store (do
    r ← Update.remove_if_present E (some Status.ok) kind (some 0) key
    pure (check_found r.status r.value))

  unfoldable pub put_if_absent :
      Kind → Option Text → Option Text → Action (ClientSys W) (Result Bool)
  put_if_absent kind key value = on_store (do
    status ← Update.put_if_absent E (some Status.ok) kind key (text_of value)
    pure (was_absent status))

  unfoldable pub find_min_key : Kind → Action (ClientSys W) (Result (Option Text))
  find_min_key kind =
      on_store
        (do r ← Read.find_min_key E (some Status.ok) kind (some 0); pure (check r.status r.value))

  unfoldable pub find_max_key : Kind → Action (ClientSys W) (Result (Option Text))
  find_max_key kind =
      on_store
        (do r ← Read.find_max_key E (some Status.ok) kind (some 0); pure (check r.status r.value))

  unfoldable pub compact : Kind → Action (ClientSys W) (Result (Unit {0}))
  compact kind =
      on_store (do status ← Maintain.compact E (some Status.ok) kind; pure (check status tt))

  unfoldable pub compact_all : Action (ClientSys W) (Result (Unit {0}))
  compact_all =
      on_store (do status ← Maintain.compact_all E (some Status.ok); pure (check status tt))
