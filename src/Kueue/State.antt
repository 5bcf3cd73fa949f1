-- ===== src/Kueue/State.antt =====
-- The fields of KueueImpl, its integer types and its accessors.
use librocks_dll.Prelude.{
  ℕ, ◌+◌, ◌-◌, ◌%◌, ◌^◌, Bool, false, Option, none, some, ◌&&◌, ◌≡◌, refl, sym, subst,
}
use librocks_dll.Prelude.Tests.{ℤ, pos, negsuc, int_eq, ltb, if◌then◌else◌}
use librocks_dll.Prelude.Text.{Text}
use librocks_dll.Prelude.Action.{Action, Returns, Returns-bind, Returns-some, ◌>>=◌}
use librocks_dll.Status
use librocks_dll.Status.{IntPtr}
use librocks_dll.Codec.Bytes.{word_mod}
use librocks_dll.Kind.{Kind, name}
use librocks_dll.Store.State.{Sys}

-- `count` is the bit pattern of the std::atomic_llong. `notifications` counts the calls of
-- notEmpty.notify_one. `store` is the store of the surrounding state.
pub record KueueImpl : Type 0 where
  pub total_puts : ℕ
  pub total_takes : ℕ
  pub count : ℕ
  pub min_key : ℕ
  pub max_key : ℕ
  pub queue_kind : Option Kind
  pub is_valid : Bool
  pub notifications : ℕ

pub record QueueSys (W : Type 0) : Type 0 where
  pub queue : KueueImpl
  pub sys : Sys W

-- x + 1 and x - 1 on 64 bits, signed or not
abbrev pub inc64 : ℕ → ℕ
inc64 x = (x + 1) % word_mod

abbrev pub dec64 : ℕ → ℕ
dec64 x = (x + word_mod - 1) % word_mod

-- a - b on unsigned 64 bits
abbrev pub sub64 : ℕ → ℕ → ℕ
sub64 a b = (a + word_mod - b) % word_mod

-- The long long of a bit pattern, and the tests on it that the code makes.
abbrev pub signed64 : ℕ → ℤ
signed64 w = if ltb w (2 ^ 63) then pos w else negsuc (word_mod - w - 1)

abbrev pub is_positive : ℕ → Bool
is_positive w = ltb 0 w && ltb w (2 ^ 63)

abbrev pub is_over_one : ℕ → Bool
is_over_one w = ltb 1 w && ltb w (2 ^ 63)

abbrev pub is_nonnegative : ℕ → Bool
is_nonnegative w = ltb w (2 ^ 63)

-- size, isEmpty and identifier
unfoldable pub size : KueueImpl → ℤ
size q = signed64 q.count

unfoldable pub is_empty : KueueImpl → Bool
unfolding size
is_empty q = int_eq (size q) (pos 0)

unfoldable pub identifier : KueueImpl → Option Text
identifier q = elim q.queue_kind [ none ↦ none | some k ↦ some (name k) ]

-- int* state = status ? status : &r;
abbrev pub local_state : IntPtr → IntPtr
local_state none = some Status.ok
local_state (some c) = some c

-- what the caller's cell holds afterwards
abbrev pub hand_back : IntPtr → IntPtr → IntPtr
hand_back none state = none
hand_back (some _) state = state

abbrev pub is_ok : IntPtr → Bool
is_ok none = false
is_ok (some c) = int_eq c Status.ok

-- ++minKey, count.fetch_sub(1), ++totalTakes_, and the notification if more than one was left
abbrev pub taken : KueueImpl → KueueImpl
taken q = record q {
  min_key = inc64 q.min_key;
  count = dec64 q.count;
  total_takes = inc64 q.total_takes;
  notifications = if is_over_one q.count then q.notifications + 1 else q.notifications;
}

module _ {W : Type 0} where
  abbrev pub modify_queue : (KueueImpl → KueueImpl) → Action (QueueSys W) (Unit {0})
  modify_queue f s = some (tt, record s { queue = f s.queue })

  abbrev pub resume : {A : Type 0} → QueueSys W → Option (A × Sys W) → Option (A × QueueSys W)
  resume s none = none
  resume s (some (a, t)) = some (a, record s { sys = t })

  -- a call of the store
  unfoldable pub in_store : {A : Type 0} → Action (Sys W) A → Action (QueueSys W) A
  in_store m s = resume s (m s.sys)

  resume-Returns :
      {A : Type 0} (s : QueueSys W) (r : Option (A × Sys W)) (P : A → Sys W → Type 0)
      → Returns r P
      → Returns (resume s r) (λ a t. (u : Sys W) × (t ≡ record s { sys = u }) × P a u)
  resume-Returns s none P h = absurd h.out
  resume-Returns s (some (a, u)) P h = Returns-some (u, refl, h.out)

  pub in_store-Returns :
      {A B : Type 0} (m : Action (Sys W) A) (f : A → Action (QueueSys W) B) (s : QueueSys W)
      (P : A → Sys W → Type 0) {Q : B → QueueSys W → Type 0}
      → Returns (m s.sys) P
      → ((a : A) (u : Sys W) → P a u → Returns (f a (record s { sys = u })) Q)
      → Returns ((in_store m >>= f) s) Q
  unfolding in_store
  in_store-Returns m f s P {Q} h k =
      Returns-bind _ _ _ _ (resume-Returns s (m s.sys) P h)
        (λ a t p. subst (λ x. Returns (f a x) Q) (sym p.1) (k a p.0 p.2))

  -- getKindRef
  abbrev pub get_kind_ref : Action (QueueSys W) Kind
  get_kind_ref s = elim s.queue.queue_kind [ none ↦ none | some k ↦ some (k, s) ]
