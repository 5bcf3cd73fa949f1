-- ===== src/Store/Read.antt =====
-- The reads of src/impl/StoreImpl.cpp: get and get_, findMinKey and findMaxKey, which differ only in
-- the seek.
use librocks_dll.Prelude.{Option, none, some, [], ◌∷◌}
use librocks_dll.Prelude.Tests.{pos, if◌then◌else◌, length}
use librocks_dll.Prelude.Text.{Text}
use librocks_dll.Prelude.Action.{Action, pure, ◌>>=◌, ◌>>◌}
use librocks_dll.Status
use librocks_dll.Status.{IntPtr, assign}
use librocks_dll.Engine.{Engine, status_ok, Iter}
use librocks_dll.Kind.{KindImpl, Kind, is_valid}
use librocks_dll.Store.State.{
  Sys, SizePtr, Reply, deref, write_len, to_kind_impl, on_world, on_db, with_open,
}

abbrev pub null_reply : IntPtr → SizePtr → Reply
null_reply status result_len = record { status = status; result_len = result_len; value = none }

-- *resultLen = slice.size(), and a copy of the slice; null where the slice is empty
abbrev pub copy_out : {W : Type 0} → IntPtr → SizePtr → Text → Action (Sys W) Reply
copy_out status result_len [] = pure (null_reply status result_len)
copy_out status result_len (c ∷ slice) = do
  n ← write_len result_len (length (c ∷ slice))
  pure (record { status = status; result_len = n; value = some (c ∷ slice) })

module _ {W : Type 0} (E : Engine W) where
  unfoldable pub get_kind : IntPtr → Option KindImpl → SizePtr → Text → Action (Sys W) Reply
  get_kind status none result_len key = pure (null_reply status result_len)
  get_kind status (some kind) result_len key = do
    h ← deref kind.handle_
    (s, slice) ← on_db (E.get h key)
    if status_ok s
        then copy_out status result_len slice
        else pure (null_reply (assign (pos s.code) status) result_len)

  unfoldable pub get_ : IntPtr → Kind → SizePtr → Text → Action (Sys W) Reply
  get_ status k result_len key =
      let (kind, status') = to_kind_impl k status in get_kind status' kind result_len key

  unfoldable pub get : IntPtr → Kind → SizePtr → Option Text → Action (Sys W) Reply
  get status kind result_len none =
      pure (null_reply (assign Status.invalid_argument status) result_len)
  get status kind none (some key) = pure (null_reply (assign Status.invalid_argument status) none)
  get status kind (some n) (some key) =
      if is_valid kind
      then with_open status (λ p. null_reply p (some 0)) (λ st. get_ st kind (some 0) key)
      else pure (null_reply (assign Status.invalid_argument status) (some n))

  -- `it` is not null: seek, read the key if the iterator is valid, and delete it
  unfoldable pub read_end : IntPtr → SizePtr → (Iter → W → W) → Iter → Action (Sys W) Reply
  read_end status result_len seek it = do
    on_world (λ w. (tt, seek it w))
    reply ← (λ s.
        if E.iter_valid it s.world
        then copy_out status result_len (E.iter_key it s.world) s
        else pure (null_reply status result_len) s)
    on_world (λ w. (tt, E.delete_iter it w))
    pure reply

  -- behind `if (validateOpen(status))`
  unfoldable pub find_end_open : IntPtr → KindImpl → SizePtr → (Iter → W → W) → Action (Sys W) Reply
  find_end_open status kind result_len seek = do
    h ← deref kind.handle_
    it ← on_db (E.new_iterator h)
    elim it [
      | none ↦ pure (null_reply (assign Status.no_iterator status) result_len)
      | some i ↦ read_end status result_len seek i
    ]

  unfoldable pub find_end_kind :
      IntPtr → Option KindImpl → SizePtr → (Iter → W → W) → Action (Sys W) Reply
  find_end_kind status none result_len seek = pure (null_reply status result_len)
  find_end_kind status (some kind) result_len seek = do
    n ← write_len result_len 0
    with_open status (λ p. null_reply p n) (λ st. find_end_open st kind n seek)

  unfoldable pub find_end : IntPtr → Kind → SizePtr → (Iter → W → W) → Action (Sys W) Reply
  unfolding find_end_kind
  find_end status k result_len seek =
      if is_valid k
      then (let (kind, status') = to_kind_impl k status in
          find_end_kind status' kind result_len seek)
      else pure (null_reply (assign Status.invalid_argument status) result_len)

  unfoldable pub find_min_key : IntPtr → Kind → SizePtr → Action (Sys W) Reply
  find_min_key status k result_len = find_end status k result_len E.seek_to_first

  unfoldable pub find_max_key : IntPtr → Kind → SizePtr → Action (Sys W) Reply
  find_max_key status k result_len = find_end status k result_len E.seek_to_last
