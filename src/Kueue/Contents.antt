-- ===== src/Kueue/Contents.antt =====
-- The messages of a queue as the column family holds them: message i under the key `lo + i`.
use librocks_dll.Prelude.{
  ℕ, suc, ◌+◌, ◌≤◌, ◌<◌, true, false, List, [], ◌∷◌, ◌++◌, ◌≡◌, ◌⊎◌, inl, inr, refl, ◌∙◌, arith,
}
use librocks_dll.Prelude.Tests.{length, Bool-cases, if◌then◌else◌}
use librocks_dll.Prelude.Text.{Text, text_eq, text_eq_refl, text_eq→eq}
use librocks_dll.Codec.Bytes.{word_mod, put_u64_be}
use librocks_dll.Codec.Order.{text_eq-put_u64_be}
use librocks_dll.Engine.{Handle}
use librocks_dll.Engine.Laws.{Cell, absent, once, View}

abbrev pub expected : ℕ → List Text → Text → Cell
expected lo [] j = absent
expected lo (v ∷ vs) j = if text_eq (put_u64_be lo) j then once v else expected (lo + 1) vs j

-- The family holds exactly the messages.
abbrev pub Contains : View → Handle → ℕ → List Text → Type 0
Contains f h lo items = (j : Text) → f h j ≡ expected lo items j

pub expected-outside :
    (items : List Text) (lo x : ℕ)
    → lo + length items ≤ word_mod
    → x < word_mod
    → (x < lo) ⊎ (lo + length items ≤ x)
    → expected lo items (put_u64_be x) ≡ absent
expected-outside [] lo x h k b = refl
expected-outside (v ∷ vs) lo x h k b =
    ground
      (arith, text_eq-put_u64_be lo x, expected-outside vs (lo + 1) x (omega arith) k (omega arith))

pub expected-first :
    (v : Text) (vs : List Text) (lo : ℕ) → expected lo (v ∷ vs) (put_u64_be lo) ≡ once v
expected-first v vs lo = rw (text_eq_refl (put_u64_be lo))

-- Two numbers do not share a key.
keys-apart :
    (x y : ℕ) (j : Text)
    → x < y
    → y < word_mod
    → text_eq (put_u64_be x) j ≡ true
    → text_eq (put_u64_be y) j ≡ false
keys-apart x y j h k e =
    rw (← text_eq→eq (put_u64_be x) j e) (text_eq-put_u64_be y x k (omega arith) ∙ ground arith)

-- A message under the next key is one message more.
pub expected-append :
    (items : List Text) (lo : ℕ) (v j : Text)
    → lo + length items < word_mod
    → expected lo (items ++ v ∷ []) j
      ≡ (if text_eq (put_u64_be (lo + length items)) j then once v else expected lo items j)
expected-append [] lo v j h = let e : lo + 0 ≡ lo = omega arith in rw e
expected-append (w ∷ ws) lo v j h =
    let e : lo + suc (length ws) ≡ lo + 1 + length ws = omega arith in
    rw e (
      ground (
        arith,
        keys-apart lo (lo + 1 + length ws) j (omega arith) (omega arith),
        expected-append ws (lo + 1) v j (omega arith),
      ))

-- Without the first key, the other messages are left.
pub expected-rest :
    (v : Text) (vs : List Text) (lo : ℕ) (j : Text)
    → lo + 1 + length vs ≤ word_mod
    → expected (lo + 1) vs j
      ≡ (if text_eq (put_u64_be lo) j then absent else expected lo (v ∷ vs) j)
expected-rest v vs lo j h = elim (Bool-cases (text_eq (put_u64_be lo) j)) [
  | inl e ↦ rw e (
      rw (← text_eq→eq (put_u64_be lo) j e)
        (expected-outside vs (lo + 1) lo h (omega arith) (inl (omega arith))))
  | inr e ↦ rw e
]
