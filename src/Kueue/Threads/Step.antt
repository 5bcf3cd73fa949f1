-- ===== src/Kueue/Threads/Step.antt =====
-- One step of one thread of a queue: an access to what the threads share.
use librocks_dll.Prelude.{ℕ, suc, true, false, Option, none, some, List, ◌∷◌, ◌++◌, ◌≡◌, ◌⊎◌}
use librocks_dll.Prelude.Tests.{if◌then◌else◌}
use librocks_dll.Prelude.Text.{Text}
use librocks_dll.Status.{IntPtr}
use librocks_dll.Engine.{Engine}
use librocks_dll.Codec.Bytes.{put_u64_be}
use librocks_dll.Kind.{Kind}
use librocks_dll.Store.State.{Sys, SizePtr, Reply}
use librocks_dll.Store.Write
use librocks_dll.Store.Read
use librocks_dll.Store.Update
use librocks_dll.Kueue.State.{inc64, dec64, is_ok, local_state}
use librocks_dll.Kueue.Threads.State.{
  Waiter, goes_on, has_deadline, put_free, claimed, stored, refused, put_leaving, take_free,
  signalling, testing, expired, chosen, removed, advanced, take_leaving, Shared,
}
use librocks_dll.Kueue.Threads.Labels.{
  Label, silent, enters, claims, stores, delivers, peeks, abandons, text_of, is_zero, leaves_more,
  count_put, count_take, advance, notify, Notified, removes,
}
use librocks_dll.Kueue.Threads.Removals.{EraseStep, ClearStep}

module _ {W : Type 0} (E : Engine W) (kind : Kind) where
  -- The steps of put.
  pub data PutStep (s : Shared W) : Label → Shared W → Type 0 where
    claim :
        (value : Text)
        → s.put_side ≡ put_free
        → s.queue.is_valid ≡ true
        → PutStep s claims (record s {
          put_side = claimed value s.queue.max_key;
          queue = record s.queue { max_key = inc64 s.queue.max_key };
        })
    store :
        (value : Text) (key : ℕ) (status r : IntPtr) (u : Sys W)
        → s.put_side ≡ claimed value key
        → Write.put E (local_state status) kind (some (put_u64_be key)) value s.sys ≡ some (r, u)
        → is_ok r ≡ true
        → PutStep s (stores value) (record s { put_side = stored; sys = u })
    fail :
        (value : Text) (key : ℕ) (status r : IntPtr) (u : Sys W)
        → s.put_side ≡ claimed value key
        → Write.put E (local_state status) kind (some (put_u64_be key)) value s.sys ≡ some (r, u)
        → is_ok r ≡ false
        → PutStep s silent (record s { put_side = refused; sys = u })
    add :
        s.put_side ≡ stored
        → PutStep s silent
            (record s { put_side = put_leaving (some s.queue.count); queue = count_put s.queue })
    give_back :
        s.put_side ≡ refused
        → PutStep s silent (record s {
          put_side = put_leaving none;
          queue = record s.queue { max_key = dec64 s.queue.max_key };
        })
    leave :
        (c : Option ℕ)
        → s.put_side ≡ put_leaving c
        → PutStep s silent (record s {
          put_side = put_free;
          signals = if is_zero c then suc s.signals else s.signals;
        })
    enter_signal :
        (n : ℕ)
        → s.signals ≡ suc n
        → s.take_side ≡ take_free
        → PutStep s silent (record s { take_side = signalling; signals = n })
    signal :
        (waiting woken : List Waiter)
        → s.take_side ≡ signalling
        → Notified s.waiting s.woken waiting woken
        → PutStep s silent (record s {
          take_side = take_free;
          waiting = waiting;
          woken = woken;
          queue = notify s.queue;
        })

  -- The steps of both overloads of take and of readNext. After fetch_sub and after a removal that
  -- failed, erase goes on like take. A call whose time is over counts as waiting until it has the lock;
  -- where it is notified in between, its time may be over all the same.
  pub data TakeStep (s : Shared W) : Label → Shared W → Type 0 where
    enter :
        (c : Waiter)
        → s.take_side ≡ take_free
        → s.queue.is_valid ≡ true
        → TakeStep s enters (record s { take_side = testing c })
    wait :
        (c : Waiter)
        → s.take_side ≡ testing c
        → goes_on c s.queue.count ≡ false
        → TakeStep s silent (record s { take_side = take_free; waiting = c ∷ s.waiting })
    wake_up :
        (front back : List Waiter) (c : Waiter)
        → s.waiting ≡ front ++ c ∷ back
        → TakeStep s enters (record s { waiting = front ++ back; woken = c ∷ s.woken })
    enter_again :
        (front back : List Waiter) (c : Waiter)
        → s.woken ≡ front ++ c ∷ back
        → s.take_side ≡ take_free
        → TakeStep s silent (record s { take_side = testing c; woken = front ++ back })
    expire :
        (front back : List Waiter) (c : Waiter)
        → s.waiting ≡ front ++ c ∷ back
        → has_deadline c ≡ true
        → s.take_side ≡ take_free
        → TakeStep s enters (record s { take_side = expired c; waiting = front ++ back })
    expire_woken :
        (front back : List Waiter) (c : Waiter)
        → s.woken ≡ front ++ c ∷ back
        → has_deadline c ≡ true
        → s.take_side ≡ take_free
        → TakeStep s silent (record s { take_side = expired c; woken = front ++ back })
    give_up :
        (c : Waiter)
        → s.take_side ≡ expired c
        → goes_on c s.queue.count ≡ false
        → TakeStep s silent (record s { take_side = take_free })
    choose :
        (c : Waiter)
        → (s.take_side ≡ testing c) ⊎ (s.take_side ≡ expired c)
        → goes_on c s.queue.count ≡ true
        → TakeStep s silent (record s { take_side = chosen c })
    remove :
        (c : Waiter) (status : IntPtr) (len : SizePtr) (r : Reply) (u : Sys W)
        → s.take_side ≡ chosen c
        → removes c ≡ true
        → Update.single_remove_if_present E
            (local_state status)
            kind
            len
            (some (put_u64_be s.queue.min_key))
            s.sys
          ≡ some (r, u)
        → is_ok r.status ≡ true
        → TakeStep s (delivers (text_of r.value)) (record s { take_side = removed; sys = u })
    fail :
        (c : Waiter) (status : IntPtr) (len : SizePtr) (r : Reply) (u : Sys W)
        → s.take_side ≡ chosen c
        → removes c ≡ true
        → Update.single_remove_if_present E
            (local_state status)
            kind
            len
            (some (put_u64_be s.queue.min_key))
            s.sys
          ≡ some (r, u)
        → is_ok r.status ≡ false
        → TakeStep s abandons (record s { take_side = take_leaving none; sys = u })
    read :
        (c : Waiter) (status : IntPtr) (len : SizePtr) (r : Reply) (u : Sys W)
        → s.take_side ≡ chosen c
        → removes c ≡ false
        → Read.get E (local_state status) kind len (some (put_u64_be s.queue.min_key)) s.sys
          ≡ some (r, u)
        → TakeStep s peeks (record s {
          take_side = take_leaving none;
          sys = u;
          read_keys = if is_ok r.status then s.queue.min_key ∷ s.read_keys else s.read_keys;
        })
    move_on :
        s.take_side ≡ removed
        → TakeStep s silent (record s { take_side = advanced; queue = advance s.queue })
    subtract :
        s.take_side ≡ advanced
        → TakeStep s silent
            (record s { take_side = take_leaving (some s.queue.count); queue = count_take s.queue })
    leave :
        (c : Option ℕ)
        → s.take_side ≡ take_leaving c
        → leaves_more c ≡ false
        → TakeStep s silent (record s { take_side = take_free })
    pass_on :
        (c : Option ℕ) (waiting woken : List Waiter)
        → s.take_side ≡ take_leaving c
        → leaves_more c ≡ true
        → Notified s.waiting s.woken waiting woken
        → TakeStep s silent (record s {
          take_side = take_free;
          waiting = waiting;
          woken = woken;
          queue = notify s.queue;
        })

  pub data Step (s : Shared W) (l : Label) (t : Shared W) : Type 0 where
    put_step : PutStep s l t → Step s l t
    take_step : TakeStep s l t → Step s l t
    clear_step : ClearStep E kind s l t → Step s l t
    erase_step : EraseStep E kind s l t → Step s l t
