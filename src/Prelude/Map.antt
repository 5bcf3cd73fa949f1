-- ===== src/Prelude/Map.antt =====
-- std::unordered_map keyed by std::string, as an association list in its iteration order.
use mathlib.Core.Path.{◌≡◌, refl}
use mathlib.Core.List.{List, [], ◌∷◌}
use mathlib.Core.Option.{Option, none, some}
use native.Mathlib.Omega.{arith}
use librocks_dll.Prelude.Tests.{if◌then◌else◌, All}
use librocks_dll.Prelude.Text.{Text, text_eq, text_eq_iff}

abbrev pub Map : Type 0 → Type 0
Map V = List (Text × V)

module _ {V : Type 0} where
  -- find(key)
  unfoldable pub find : Text → Map V → Option V
  find k [] = none
  find k ((j, v) ∷ m) = if text_eq j k then some v else find k m

  -- m[key] = value
  unfoldable pub assign_key : Text → V → Map V → Map V
  assign_key k v [] = (k, v) ∷ []
  assign_key k v ((j, w) ∷ m) = if text_eq j k then (j, v) ∷ m else (j, w) ∷ assign_key k v m

  pub find-assign_key :
      (k j : Text) (v : V) (m : Map V)
      → find j (assign_key k v m) ≡ (if text_eq k j then some v else find j m)
  unfolding find assign_key
  find-assign_key k j v [] = refl
  find-assign_key k j v ((i, w) ∷ m) =
      ground (arith, text_eq_iff k j, text_eq_iff i k, text_eq_iff i j, find-assign_key k j v m)

  pub All-assign_key :
      (P : V → Type 0) (k : Text) (v : V) (m : Map V)
      → All (λ e. P e.1) m
      → P v
      → All (λ e. P e.1) (assign_key k v m)
  unfolding assign_key
  All-assign_key P k v [] h p = (p, tt)
  All-assign_key P k v ((i, w) ∷ m) h p = ground (arith, All-assign_key P k v m)
