-- ===== src/Kueue/Recover.antt =====
-- The constructor of KueueImpl: the counters are recovered from the smallest and the greatest key.
use librocks_dll.Prelude.{ℕ, false, Option, none, some, ◌&&◌}
use librocks_dll.Prelude.Tests.{leb, ◌==◌, length, if◌then◌else◌}
use librocks_dll.Prelude.Text.{Text, c_str}
use librocks_dll.Prelude.Action.{Action, pure, ◌>>=◌}
use librocks_dll.Status
use librocks_dll.Engine.{Engine}
use librocks_dll.Codec.Bytes.{get_u64_be}
use librocks_dll.Kind
use librocks_dll.Kind.{Kind}
use librocks_dll.Store.State.{Sys}
use librocks_dll.Store.Kinds.{get_kind_manager, get_or_create_kind}
use librocks_dll.Store.Read.{find_min_key, find_max_key}
use librocks_dll.Kueue.State.{KueueImpl, inc64, sub64, is_nonnegative, is_ok}

-- MIN_KEY
abbrev pub min_key : ℕ
min_key = 0

abbrev pub blank : KueueImpl
blank = record {
  total_puts = 0;
  total_takes = 0;
  count = 0;
  min_key = min_key;
  max_key = min_key;
  queue_kind = none;
  is_valid = false;
  notifications = 0;
}

-- if (key && length == sizeof(unsigned __int64))
abbrev pub read_key : Option Text → Option ℕ
read_key none = none
read_key (some k) = if length k == 8 then some (get_u64_be k) else none

abbrev pub or_min_key : Option ℕ → ℕ
or_min_key none = min_key
or_min_key (some k) = k

-- maxKey: one more than the greatest key, or MIN_KEY
abbrev pub next_max : Option ℕ → ℕ
next_max none = min_key
next_max (some k) = inc64 k

-- from the two keys on: `lastMax`, `maxKey`, and the last `if`
unfoldable pub recovered : Kind → Option ℕ → Option ℕ → KueueImpl
recovered kind smallest greatest =
    let lo = or_min_key smallest in
    let hi = next_max greatest in
    let q : KueueImpl = record blank { queue_kind = some kind; min_key = lo; max_key = hi } in
    if leb lo (or_min_key greatest)
    then record q { count = sub64 hi lo; is_valid = is_nonnegative (sub64 hi lo) }
    else q

module _ {W : Type 0} (E : Engine W) where
  unfoldable pub recover_max : Kind → Option ℕ → Action (Sys W) KueueImpl
  recover_max kind smallest = do
    greatest ← find_max_key E (some Status.ok) kind (some 0)
    pure (
        if is_ok greatest.status
        then recovered kind smallest (read_key greatest.value)
        else record blank { queue_kind = some kind; min_key = or_min_key smallest })

  unfoldable pub recover_min : Kind → Action (Sys W) KueueImpl
  unfolding recover_max
  recover_min kind = do
    smallest ← find_min_key E (some Status.ok) kind (some 0)
    if is_ok smallest.status
        then recover_max kind (read_key smallest.value)
        else pure (record blank { queue_kind = some kind })

  -- KueueImpl(kvStore, id)
  unfoldable pub new_kueue : Text → Action (Sys W) KueueImpl
  unfolding recover_min
  new_kueue id = do
    state ← get_kind_manager (some Status.ok)
    if is_ok state
        then (do
          (kind, state') ← get_or_create_kind E state (c_str id)
          if is_ok state' && Kind.is_valid kind then recover_min kind else pure blank)
        else pure blank
