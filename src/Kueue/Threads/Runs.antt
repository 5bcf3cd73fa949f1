-- ===== src/Kueue/Threads/Runs.antt =====
-- Interleavings of the threads of a queue, as sequences of steps.
use librocks_dll.Prelude.{ℕ, ◌+◌, Bool, true, false, List, [], ◌∷◌, ◌≡◌}
use librocks_dll.Prelude.Text.{Text}
use librocks_dll.Engine.{Engine}
use librocks_dll.Kind.{Kind}
use librocks_dll.Kueue.Threads.State.{Shared}
use librocks_dll.Kueue.Threads.Labels.{Label, claims, stores, delivers, discards}
use librocks_dll.Kueue.Threads.Step.{Step}

-- A run of the threads, with what its steps were.
pub data Runs {W : Type 0} (E : Engine W) (kind : Kind)
    : Shared W → List Label → Shared W → Type 0 where
  stop : {s : Shared W} → Runs E kind s [] s
  go :
      {s t u : Shared W} {l : Label} {ls : List Label}
      → Step E kind s l t
      → Runs E kind t ls u
      → Runs E kind s (l ∷ ls) u

abbrev pub claim_count : Label → ℕ
claim_count claims = 1
claim_count l = 0

abbrev pub claim_counts : List Label → ℕ
claim_counts [] = 0
claim_counts (l ∷ ls) = claim_count l + claim_counts ls

-- the messages that the puts stored, in their order
abbrev pub stored_values : List Label → List Text
stored_values [] = []
stored_values (stores v ∷ ls) = v ∷ stored_values ls
stored_values (l ∷ ls) = stored_values ls

abbrev pub takes_out : Label → Bool
takes_out (delivers v) = true
takes_out discards = true
takes_out l = false

-- Messages that the takes returned, or erase or clear dropped, in this order; these do not see which
-- they drop.
pub data Gone : List Label → List Text → Type 0 where
  none_yet : Gone [] []
  delivered :
      {ls : List Label} {gone : List Text} (v : Text)
      → Gone ls gone
      → Gone (delivers v ∷ ls) (v ∷ gone)
  discarded :
      {ls : List Label} {gone : List Text} (v : Text)
      → Gone ls gone
      → Gone (discards ∷ ls) (v ∷ gone)
  passed :
      {ls : List Label} {gone : List Text} (l : Label)
      → takes_out l ≡ false
      → Gone ls gone
      → Gone (l ∷ ls) gone
