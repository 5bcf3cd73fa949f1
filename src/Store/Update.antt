-- ===== src/Store/Update.antt =====
-- The operations of src/impl/StoreImpl.cpp that read and then write: updateIfPresent,
-- removeIfPresent, singleRemoveIfPresent, which differ only in the write, and putIfAbsent.
use librocks_dll.Prelude.{Bool, false, Option, none, some}
use librocks_dll.Prelude.Tests.{ℤ, int_eq, if◌then◌else◌}
use librocks_dll.Prelude.Text.{Text}
use librocks_dll.Prelude.Action.{Action, pure, ◌>>=◌}
use librocks_dll.Status
use librocks_dll.Status.{IntPtr, assign}
use librocks_dll.Engine.{Engine}
use librocks_dll.Kind.{Kind, is_valid}
use librocks_dll.Store.State.{Sys, SizePtr, Reply, with_open}
use librocks_dll.Store.Write.{put_, remove_, single_remove_, when_open}
use librocks_dll.Store.Read.{get_, null_reply}

-- The local `int state` is passed by its address, so it comes back as a pointer that is not null.
abbrev pub state_is : IntPtr → ℤ → Bool
state_is none c = false
state_is (some state) c = int_eq state c

-- assign(state, status)
abbrev pub assign_state : IntPtr → IntPtr → IntPtr
assign_state none status = status
assign_state (some state) status = assign state status

module _ {W : Type 0} where
  -- from `if (state == Status::Ok)` on
  unfoldable pub after_read :
      (IntPtr → Action (Sys W) IntPtr) → IntPtr → Reply → Action (Sys W) Reply
  after_read write status old = do
    state ← (if state_is old.status Status.ok then write old.status else pure old.status)
    pure (record old { status = assign_state state status })

module _ {W : Type 0} (E : Engine W) where
  -- what the three operations do behind `if (validateOpen(status))`
  unfoldable pub if_present_open :
      (IntPtr → Action (Sys W) IntPtr) → IntPtr → Kind → Text → Action (Sys W) Reply
  if_present_open write status kind key = do
    old ← get_ E (some Status.ok) kind (some 0) key
    after_read write status old

  -- their guards
  unfoldable pub if_present :
      (Text → IntPtr → Action (Sys W) IntPtr)
      → IntPtr
      → Kind
      → SizePtr
      → Option Text
      → Action (Sys W) Reply
  unfolding if_present_open
  if_present write status kind result_len none =
      pure (null_reply (assign Status.invalid_argument status) result_len)
  if_present write status kind none (some key) =
      pure (null_reply (assign Status.invalid_argument status) none)
  if_present write status kind (some n) (some key) =
      if is_valid kind
      then with_open status (λ p. null_reply p (some 0))
          (λ st. if_present_open (write key) st kind key)
      else pure (null_reply (assign Status.invalid_argument status) (some n))

  unfoldable pub update_if_present :
      IntPtr → Kind → SizePtr → Option Text → Text → Action (Sys W) Reply
  update_if_present status kind result_len key value =
      if_present (λ k state. put_ E state kind k value) status kind result_len key

  unfoldable pub single_remove_if_present :
      IntPtr → Kind → SizePtr → Option Text → Action (Sys W) Reply
  single_remove_if_present status kind result_len key =
      if_present (λ k state. single_remove_ E state kind k) status kind result_len key

  unfoldable pub remove_if_present : IntPtr → Kind → SizePtr → Option Text → Action (Sys W) Reply
  remove_if_present status kind result_len key =
      if_present (λ k state. remove_ E state kind k) status kind result_len key

  -- putIfAbsent from `if (state == Status::NotFound)` on
  unfoldable pub after_lookup : Kind → Text → Text → IntPtr → Reply → Action (Sys W) IntPtr
  after_lookup kind key value status old = do
    state ←
        (if state_is old.status Status.not_found
          then put_ E (some Status.ok) kind key value
          else if state_is old.status Status.ok
          then pure (some Status.already_exists)
          else pure old.status)
    pure (assign_state state status)

  -- putIfAbsent behind `if (validateOpen(status))`; `dummyLen` starts with no value of its own
  unfoldable pub put_if_absent_open : IntPtr → Kind → Text → Text → Action (Sys W) IntPtr
  put_if_absent_open status kind key value = do
    old ← get_ E (some Status.ok) kind (some 0) key
    after_lookup kind key value status old

  unfoldable pub put_if_absent : IntPtr → Kind → Option Text → Text → Action (Sys W) IntPtr
  unfolding put_if_absent_open
  put_if_absent status kind none value = pure (assign Status.invalid_argument status)
  put_if_absent status kind (some key) value =
      if is_valid kind
      then when_open status (λ st. put_if_absent_open st kind key value)
      else pure (assign Status.invalid_argument status)
