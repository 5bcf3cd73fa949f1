-- ===== src/Engine/Memory/Least.antt =====
-- The extreme key of a list among those that are present, for an order given as a test.
use librocks_dll.Prelude.{
  Bool, true, false, Option, none, some, List, [], ◌∷◌, ◌≡◌, ◌≢◌, ◌||◌, arith, inl, inr,
}
use librocks_dll.Prelude.Tests.{Option-cases, if◌then◌else◌}
use librocks_dll.Prelude.Text.{Text, text_eq, text_eq_iff}

abbrev pub has : Text → List Text → Bool
has j [] = false
has j (k ∷ ks) = text_eq k j || has j ks

module _ (lt : Text → Text → Bool) (present : Text → Bool) where
  abbrev pub better : Text → Option Text → Text
  better k none = k
  better k (some m) = if lt k m then k else m

  unfoldable pub extreme : List Text → Option Text
  extreme [] = none
  extreme (k ∷ ks) = let r = extreme ks in if present k then some (better k r) else r

  pub extreme-present : (ks : List Text) (m : Text) → extreme ks ≡ some m → present m ≡ true
  unfolding extreme
  extreme-present [] m e = cc
  extreme-present (k ∷ ks) m e = ground (arith, extreme-present ks m)

  pub extreme-some :
      (ks : List Text) (j : Text) → has j ks ≡ true → present j ≡ true → extreme ks ≢ none
  unfolding extreme
  extreme-some [] j h p = λ e. cc
  extreme-some (k ∷ ks) j h p = ground (arith, extreme-some ks j, text_eq_iff k j)

  pub extreme-bound :
      ((a b c : Text) → lt a b ≡ true → lt b c ≡ true → lt a c ≡ true)
      → ((a : Text) → lt a a ≡ false)
      → (ks : List Text) (m j : Text) → extreme ks ≡ some m
      → has j ks ≡ true
      → present j ≡ true
      → lt j m ≡ false
  unfolding extreme
  extreme-bound tr irr [] m j e h p = cc
  extreme-bound tr irr (k ∷ ks) m j e h p = elim (Option-cases (extreme ks)) [
    | inl q ↦ ground (arith, extreme-some ks j, text_eq_iff k j, irr k)
    | inr (r, q) ↦ ground (arith, extreme-bound tr irr ks r j q, text_eq_iff k j, tr j k r, irr k)
  ]
