-- ===== src/Prelude/Action.antt =====
-- Actions on a state. `none` is undefined behaviour: a null pointer is read or written.
use mathlib.Core.Path.{◌≡◌, refl, ap}
use mathlib.Core.Bool.{Bool, true, false}
use librocks_dll.Prelude.Tests.{if◌then◌else◌}
use mathlib.Core.Option.{Option, none, some}

abbrev pub Action : Type 0 → Type 0 → Type 0
Action S A = S → Option (A × S)

abbrev pub pure : {S A : Type 0} → A → Action S A
pure a s = some (a, s)

abbrev pub fault : {S A : Type 0} → Action S A
fault s = none

infixl 5 ◌>>=◌ ◌>>◌
unfoldable pub ◌>>=◌ : {S A B : Type 0} → Action S A → (A → Action S B) → Action S B
◌>>=◌ m f s = elim (m s) [ none ↦ none | some (a, s') ↦ f a s' ]

abbrev pub ◌>>◌ : {S B : Type 0} → Action S (Unit {0}) → Action S B → Action S B
m >> k = m >>= λ _. k

abbrev pub Holds : {S A : Type 0} → Option (A × S) → (A → S → Type 0) → Type 0
Holds none P = ⊥
Holds (some (a, s)) P = P a s

-- The action returns, and its result and final state have the property.
pub record Returns {S A : Type 0} (r : Option (A × S)) (P : A → S → Type 0) : Type 0 where
  pub out : Holds r P

module _ {S A : Type 0} {P : A → S → Type 0} where
  pub Returns-some : {a : A} {s : S} → P a s → Returns (some (a, s)) P
  Returns-some h = record { out = h }

  pub Returns-mono :
      (r : Option (A × S)) {Q : A → S → Type 0}
      → Returns r P
      → ((a : A) (s : S) → P a s → Q a s)
      → Returns r Q
  Returns-mono none h k = absurd h.out
  Returns-mono (some (a, s)) h k = record { out = k a s h.out }

  pub Returns-if :
      (b : Bool) {x y : Option (A × S)}
      → (b ≡ true → Returns x P)
      → (b ≡ false → Returns y P)
      → Returns (if b then x else y) P
  Returns-if true h k = h refl
  Returns-if false h k = k refl

  pub Returns-if_at :
      (b : Bool) (m n : Action S A) (s : S)
      → (b ≡ true → Returns (m s) P)
      → (b ≡ false → Returns (n s) P)
      → Returns ((if b then m else n) s) P
  Returns-if_at true m n s h k = h refl
  Returns-if_at false m n s h k = k refl

  pub Returns-known :
      (r : Option (A × S)) → Returns r P → Returns r (λ a s. (r ≡ some (a, s)) × P a s)
  Returns-known none h = absurd h.out
  Returns-known (some (a, s)) h = record { out = (refl, h.out) }

module _ {S A B : Type 0} where
  Returns-continue :
      (P : A → S → Type 0) {Q : B → S → Type 0} (r : Option (A × S)) (f : A → Action S B)
      → Returns r P
      → ((a : A) (t : S) → P a t → Returns (f a t) Q)
      → Returns (elim r [ none ↦ none | some (a, t) ↦ f a t ]) Q
  Returns-continue P none f h k = absurd h.out
  Returns-continue P (some (a, t)) f h k = k a t h.out

  pub Returns-bind :
      (m : Action S A) (f : A → Action S B) (s : S) (P : A → S → Type 0) {Q : B → S → Type 0}
      → Returns (m s) P
      → ((a : A) (t : S) → P a t → Returns (f a t) Q)
      → Returns ((m >>= f) s) Q
  unfolding ◌>>=◌
  Returns-bind m f s P h k = Returns-continue P (m s) f h k

  -- the same with what the first action returned
  pub Returns-bind_eq :
      (m : Action S A) (f : A → Action S B) (s : S) (P : A → S → Type 0) {Q : B → S → Type 0}
      → Returns (m s) P
      → ((a : A) (t : S) → m s ≡ some (a, t) → P a t → Returns (f a t) Q)
      → Returns ((m >>= f) s) Q
  Returns-bind_eq m f s P h k =
      Returns-bind m f s (λ a t. (m s ≡ some (a, t)) × P a t) (Returns-known (m s) h)
        (λ a t x. k a t x.0 x.1)

  -- the same where the first action is known to return
  pub Returns-then :
      (m : Action S A) (f : A → Action S B) (s : S) {a : A} {t : S} {Q : B → S → Type 0}
      → m s ≡ some (a, t)
      → Returns (f a t) Q
      → Returns ((m >>= f) s) Q
  unfolding ◌>>=◌
  Returns-then m f s {a} {t} e h =
      Returns-continue (λ b u. Returns (f b u) _) (m s) f (rw e (Returns-some h)) (λ b u k. k)

  pub bind-eq :
      (m : Action S A) (f : A → Action S B) (s : S) {a : A} {t : S}
      → m s ≡ some (a, t)
      → (m >>= f) s ≡ f a t
  unfolding ◌>>=◌
  bind-eq m f s e = ap (λ r. elim r [ none ↦ none | some (b, u) ↦ f b u ]) e
