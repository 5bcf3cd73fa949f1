-- ===== src/Kueue/Operations.antt =====
-- put, take, readNext, erase and clear of KueueImpl, each from the lock that it takes to the end.
use librocks_dll.Prelude.{ℕ, zero, suc, ◌+◌, Bool, true, false, Option, none, some, ◌&&◌}
use librocks_dll.Prelude.Tests.{ltb, ◌==◌, if◌then◌else◌}
use librocks_dll.Prelude.Text.{Text}
use librocks_dll.Prelude.Action.{Action, pure, ◌>>=◌, ◌>>◌}
use librocks_dll.Status
use librocks_dll.Status.{IntPtr, assign}
use librocks_dll.Engine.{Engine}
use librocks_dll.Codec.Bytes.{put_u64_be}
use librocks_dll.Kind.{Kind}
use librocks_dll.Store.State.{SizePtr, Reply}
use librocks_dll.Store.Write
use librocks_dll.Store.Read
use librocks_dll.Store.Read.{null_reply}
use librocks_dll.Store.Update
use librocks_dll.Kueue.State.{
  KueueImpl, QueueSys, inc64, dec64, is_positive, local_state, hand_back, is_ok, taken,
  modify_queue, in_store, get_kind_ref,
}

-- A call either returns, or waits on `notEmpty` with no timeout until another thread puts.
pub data Outcome (A : Type 0) : Type 0 where
  waiting : Outcome A
  returned : A → Outcome A

-- The last argument of readNext: the cell that `pKey` points to.
pub record Next : Type 0 where
  pub reply : Reply
  pub key : Option ℕ

abbrev pub with_status : IntPtr → Reply → Reply
with_status status r = record r { status = hand_back status r.status }

-- ++totalPuts_, count.fetch_add(1), and signalNotEmpty if the queue was empty
abbrev pub added : KueueImpl → KueueImpl
added q = record q {
  count = inc64 q.count;
  total_puts = inc64 q.total_puts;
  notifications = if q.count == 0 then q.notifications + 1 else q.notifications;
}

-- if (pKey) *pKey = minKey;
abbrev pub key_read : Reply → Option ℕ → ℕ → Option ℕ
key_read r none min_key = none
key_read r (some k) min_key = if is_ok r.status then some min_key else some k

module _ {W : Type 0} (E : Engine W) where
  unfoldable pub put_valid : IntPtr → Text → Action (QueueSys W) IntPtr
  put_valid status value = do
    kind ← get_kind_ref
    (λ s.
        (do
          modify_queue (λ q. record q { max_key = inc64 q.max_key })
          state ←
              in_store
                (Write.put E (local_state status) kind (some (put_u64_be s.queue.max_key)) value)
          (if is_ok state
              then modify_queue added
              else modify_queue (λ q. record q { max_key = dec64 q.max_key }))
          pure (hand_back status state))
          s)

  unfoldable pub put : IntPtr → Text → Action (QueueSys W) IntPtr
  unfolding put_valid
  put status value s =
      if s.queue.is_valid
      then put_valid status value s
      else some (hand_back status (some Status.invalid), s)

  -- from `char* value = store->singleRemoveIfPresent(…)` on, in both overloads of take
  unfoldable pub take_first : IntPtr → SizePtr → Action (QueueSys W) Reply
  take_first status val_len s =
      (do
        kind ← get_kind_ref
        r ← in_store (
            Update.single_remove_if_present E (local_state status) kind val_len
              (some (put_u64_be s.queue.min_key)))
        (if is_ok r.status then modify_queue taken else pure tt)
        pure (with_status status r))
        s

  -- take(status, valLen): waits while `count` is 0
  unfoldable pub take : IntPtr → SizePtr → Action (QueueSys W) (Outcome Reply)
  take status val_len s =
      if s.queue.is_valid
      then (if s.queue.count == 0
          then some (waiting, s)
          else (do r ← take_first status val_len; pure (returned r)) s)
      else some (returned (null_reply (hand_back status (some Status.invalid)) val_len), s)

  -- The overload with a timeout, in milliseconds; 0 stands for every timeout that is not positive.
  unfoldable pub take_timed : IntPtr → SizePtr → ℕ → Action (QueueSys W) (Outcome Reply)
  take_timed status val_len timeout s =
      if s.queue.is_valid
      then (if is_positive s.queue.count
          then (do r ← take_first status val_len; pure (returned r)) s
          else if ltb 0 timeout
          then some (returned (null_reply (hand_back status (some Status.timed_out)) val_len), s)
          else some (waiting, s))
      else some (returned (null_reply (hand_back status (some Status.invalid)) val_len), s)

  unfoldable pub read_first : IntPtr → SizePtr → Option ℕ → Action (QueueSys W) Next
  read_first status val_len p_key s =
      (do
        kind ← get_kind_ref
        r ←
            in_store
              (Read.get E (local_state status) kind val_len (some (put_u64_be s.queue.min_key)))
        pure (record { reply = with_status status r; key = key_read r p_key s.queue.min_key }))
        s

  unfoldable pub read_next : IntPtr → SizePtr → Option ℕ → ℕ → Action (QueueSys W) (Outcome Next)
  read_next status val_len p_key timeout s =
      if s.queue.is_valid
      then (if is_positive s.queue.count
          then (do r ← read_first status val_len p_key; pure (returned r)) s
          else if ltb 0 timeout
          then some (
            returned (record {
              reply = null_reply (hand_back status (some Status.timed_out)) val_len;
              key = p_key;
            }),
            s,
          )
          else some (waiting, s))
      else some (
        returned (record {
          reply = null_reply (hand_back status (some Status.invalid)) val_len;
          key = p_key;
        }),
        s,
      )

  -- the second `if (key == minKey)`, under the lock, tests the same with no step between
  unfoldable pub erase : ℕ → Action (QueueSys W) Bool
  erase key s =
      if s.queue.is_valid && key == s.queue.min_key
      then (do
        kind ← get_kind_ref
        state ← in_store (Write.single_remove E (some Status.ok) kind (some (put_u64_be key)))
        (if is_ok state then modify_queue taken else pure tt)
        pure (is_ok state))
          s
      else some (false, s)

  -- One round of the loop in clear: the new status, and whether the loop goes on. No notification.
  unfoldable pub clear_round : Kind → IntPtr → Action (QueueSys W) (Bool × IntPtr)
  clear_round kind state s =
      (do
        state' ← in_store (Write.single_remove E state kind (some (put_u64_be s.queue.min_key)))
        (if is_ok state'
            then modify_queue (λ q. record q {
              min_key = inc64 q.min_key;
              count = dec64 q.count;
              total_takes = inc64 q.total_takes;
            })
            else pure tt)
        pure (is_ok state', state'))
        s

  -- while (count.load() > 0) …, with fuel
  unfoldable pub clear_loop : ℕ → Kind → IntPtr → Action (QueueSys W) IntPtr
  clear_loop zero kind state s = some (state, s)
  clear_loop (suc fuel) kind state s = elim (is_positive s.queue.count) [
    | false ↦ some (state, s)
    | true ↦
        (do
          (more, state') ← clear_round kind state
          elim more [ true ↦ clear_loop fuel kind state' | false ↦ pure state' ])
          s
  ]

  unfoldable pub clear : IntPtr → Action (QueueSys W) IntPtr
  unfolding clear_loop
  clear status s =
      if s.queue.is_valid
      then (do
        kind ← get_kind_ref
        state ← clear_loop s.queue.count kind (local_state status)
        pure (hand_back status state))
          s
      else some (hand_back status (some Status.invalid), s)
