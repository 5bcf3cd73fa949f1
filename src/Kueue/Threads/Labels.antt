-- ===== src/Kueue/Threads/Labels.antt =====
-- What the steps of a queue's threads are made of, and what they are to the queue as a whole.
use librocks_dll.Prelude.{ℕ, ◌+◌, Bool, true, false, Option, none, some, List, [], ◌∷◌, ◌++◌}
use librocks_dll.Prelude.Tests.{ltb, ◌==◌}
use librocks_dll.Prelude.Text.{Text}
use librocks_dll.Kueue.State.{KueueImpl, inc64, dec64}
use librocks_dll.Kueue.Threads.State.{Waiter, take, take_timed, read_next}

-- What a step is to the queue as a whole. `enters` is a step that comes from outside: a call of take,
-- readNext, erase or clear, a deadline, a spurious wake-up; `claims` is a call of put. `peeks` is the read of
-- readNext, and `abandons` a removal that failed.
pub data Label : Type 0 where
  silent : Label
  enters : Label
  claims : Label
  stores : Text → Label
  delivers : Text → Label
  peeks : Label
  discards : Label
  abandons : Label

abbrev pub text_of : Option Text → Text
text_of none = []
text_of (some t) = t

-- `c == 0LL` and `c > 1LL`, where `none` is -1
abbrev pub is_zero : Option ℕ → Bool
is_zero none = false
is_zero (some c) = c == 0

abbrev pub leaves_more : Option ℕ → Bool
leaves_more none = false
leaves_more (some c) = ltb 1 c

abbrev pub count_put : KueueImpl → KueueImpl
count_put q = record q { count = inc64 q.count; total_puts = inc64 q.total_puts }

abbrev pub count_take : KueueImpl → KueueImpl
count_take q = record q { count = dec64 q.count; total_takes = inc64 q.total_takes }

abbrev pub advance : KueueImpl → KueueImpl
advance q = record q { min_key = inc64 q.min_key }

abbrev pub notify : KueueImpl → KueueImpl
notify q = record q { notifications = q.notifications + 1 }

-- notify_one: nobody waits, or one of those who do is woken, whichever.
pub data Notified : List Waiter → List Waiter → List Waiter → List Waiter → Type 0 where
  nobody : {woken : List Waiter} → Notified [] woken [] woken
  somebody :
      (front back : List Waiter) (c : Waiter) {woken : List Waiter}
      → Notified (front ++ c ∷ back) woken (front ++ back) (c ∷ woken)

-- whether the call takes the message out
abbrev pub removes : Waiter → Bool
removes take = true
removes (take_timed timeout) = true
removes (read_next timeout) = false
