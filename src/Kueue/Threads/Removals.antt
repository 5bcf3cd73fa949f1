-- ===== src/Kueue/Threads/Removals.antt =====
-- The steps of the calls that drop messages, erase and clear.
use librocks_dll.Prelude.{ℕ, true, false, none, some, List, ◌∷◌, ◌++◌, ◌≡◌}
use librocks_dll.Prelude.Tests.{◌==◌}
use librocks_dll.Status
use librocks_dll.Status.{IntPtr}
use librocks_dll.Engine.{Engine}
use librocks_dll.Codec.Bytes.{put_u64_be}
use librocks_dll.Kind.{Kind}
use librocks_dll.Store.State.{Sys}
use librocks_dll.Store.Write
use librocks_dll.Kueue.State.{is_positive, is_ok, local_state}
use librocks_dll.Kueue.Threads.State.{
  put_free, clear_waits, clear_inside, take_free, removed, take_leaving, clear_testing,
  clear_chosen, clear_removed, clear_advanced, erasing, erase_chosen, Shared,
}
use librocks_dll.Kueue.Threads.Labels.{
  Label, silent, enters, discards, abandons, count_take, advance,
}

module _ {W : Type 0} (E : Engine W) (kind : Kind) where
  -- The steps of erase, called with a key that readNext returned. Where its first test of the key, before
  -- the lock, fails, it returns without a step.
  pub data EraseStep (s : Shared W) : Label → Shared W → Type 0 where
    enter :
        (front back : List ℕ) (key : ℕ)
        → s.read_keys ≡ front ++ key ∷ back
        → s.take_side ≡ take_free
        → s.queue.is_valid ≡ true
        → EraseStep s enters (record s { take_side = erasing key })
    pass_by :
        (key : ℕ)
        → s.take_side ≡ erasing key
        → (key == s.queue.min_key) ≡ false
        → EraseStep s silent (record s { take_side = take_free })
    choose :
        (key : ℕ)
        → s.take_side ≡ erasing key
        → (key == s.queue.min_key) ≡ true
        → EraseStep s silent (record s { take_side = erase_chosen })
    remove :
        (r : IntPtr) (u : Sys W)
        → s.take_side ≡ erase_chosen
        → Write.single_remove E (some Status.ok) kind (some (put_u64_be s.queue.min_key)) s.sys
          ≡ some (r, u)
        → is_ok r ≡ true
        → EraseStep s discards (record s { take_side = removed; sys = u })
    fail :
        (r : IntPtr) (u : Sys W)
        → s.take_side ≡ erase_chosen
        → Write.single_remove E (some Status.ok) kind (some (put_u64_be s.queue.min_key)) s.sys
          ≡ some (r, u)
        → is_ok r ≡ false
        → EraseStep s abandons (record s { take_side = take_leaving none; sys = u })

  -- The steps of clear.
  pub data ClearStep (s : Shared W) : Label → Shared W → Type 0 where
    enter :
        s.put_side ≡ put_free
        → s.queue.is_valid ≡ true
        → ClearStep s enters (record s { put_side = clear_waits })
    enter_both :
        s.put_side ≡ clear_waits
        → s.take_side ≡ take_free
        → ClearStep s silent (record s { put_side = clear_inside; take_side = clear_testing })
    choose :
        s.take_side ≡ clear_testing
        → is_positive s.queue.count ≡ true
        → ClearStep s silent (record s { take_side = clear_chosen })
    remove :
        (status r : IntPtr) (u : Sys W)
        → s.take_side ≡ clear_chosen
        → Write.single_remove E (local_state status) kind (some (put_u64_be s.queue.min_key)) s.sys
          ≡ some (r, u)
        → is_ok r ≡ true
        → ClearStep s discards (record s { take_side = clear_removed; sys = u })
    move_on :
        s.take_side ≡ clear_removed
        → ClearStep s silent (record s { take_side = clear_advanced; queue = advance s.queue })
    subtract :
        s.take_side ≡ clear_advanced
        → ClearStep s silent (record s { take_side = clear_testing; queue = count_take s.queue })
    fail :
        (status r : IntPtr) (u : Sys W)
        → s.take_side ≡ clear_chosen
        → Write.single_remove E (local_state status) kind (some (put_u64_be s.queue.min_key)) s.sys
          ≡ some (r, u)
        → is_ok r ≡ false
        → ClearStep s abandons (record s { put_side = put_free; take_side = take_free; sys = u })
    leave :
        s.take_side ≡ clear_testing
        → is_positive s.queue.count ≡ false
        → ClearStep s silent (record s { put_side = put_free; take_side = take_free })
