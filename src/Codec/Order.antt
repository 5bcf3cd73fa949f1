-- ===== src/Codec/Order.antt =====
-- The keys of a queue are in the order of their numbers for RocksDB's bytewise comparator.
use mathlib.Core.List.{reverse, reverse-cons}
use mathlib.Core.Path.{ap₂}
use native.Mathlib.Nat.{pow-suc}
use librocks_dll.Prelude.{
  ℕ, zero, suc, ◌/◌, ◌%◌, ◌^◌, ◌<◌, ◌&&◌, ◌||◌, [], ◌∷◌, ◌++◌, ◌≡◌, ap, ◌∙◌, sym, arith,
}
use librocks_dll.Prelude.Tests.{ltb, ◌==◌, length}
use librocks_dll.Prelude.Text.{Text, text_eq, text_lt}
use librocks_dll.Codec.Bytes.{word_mod, le_bytes, put_u64_be}
use librocks_dll.Codec.RoundTrip.{length-le_bytes, length-reverse, put_u64_be_lem}

text_eq-snoc :
    (s t : Text) (a b : ℕ)
    → length s ≡ length t
    → text_eq (s ++ a ∷ []) (t ++ b ∷ []) ≡ (text_eq s t && a == b)
unfolding text_eq
text_eq-snoc [] [] a b e = ground arith
text_eq-snoc [] (d ∷ t) a b e = absurd (omega arith)
text_eq-snoc (c ∷ s) [] a b e = absurd (omega arith)
text_eq-snoc (c ∷ s) (d ∷ t) a b e = ground (arith, text_eq-snoc s t a b (omega arith))

text_lt-snoc :
    (s t : Text) (a b : ℕ)
    → length s ≡ length t
    → text_lt (s ++ a ∷ []) (t ++ b ∷ []) ≡ (text_lt s t || text_eq s t && ltb a b)
unfolding text_lt text_eq
text_lt-snoc [] [] a b e = ground arith
text_lt-snoc [] (d ∷ t) a b e = absurd (omega arith)
text_lt-snoc (c ∷ s) [] a b e = absurd (omega arith)
text_lt-snoc (c ∷ s) (d ∷ t) a b e = ground (arith, text_lt-snoc s t a b (omega arith))

be_bytes : ℕ → ℕ → Text
be_bytes n x = reverse (le_bytes n x)

be_bytes-suc : (n x : ℕ) → be_bytes (suc n) x ≡ be_bytes n (x / 256) ++ (x % 256) ∷ []
unfolding be_bytes le_bytes
be_bytes-suc n x = reverse-cons (x % 256) (le_bytes n (x / 256))

length-be_bytes : (n x : ℕ) → length (be_bytes n x) ≡ n
unfolding be_bytes
length-be_bytes n x = length-reverse (le_bytes n x) ∙ length-le_bytes n x

eq_by_digits : (x y : ℕ) → (x / 256 == y / 256 && x % 256 == y % 256) ≡ (x == y)
eq_by_digits x y = ground arith

lt_by_digits :
    (x y : ℕ) → (ltb (x / 256) (y / 256) || x / 256 == y / 256 && ltb (x % 256) (y % 256)) ≡ ltb x y
lt_by_digits x y = ground arith

module _ (n x y : ℕ) where
  same_length : length (be_bytes n (x / 256)) ≡ length (be_bytes n (y / 256))
  same_length = length-be_bytes n (x / 256) ∙ sym (length-be_bytes n (y / 256))

below_digits : (n x : ℕ) → x < 256 ^ suc n → x / 256 < 256 ^ n
below_digits n x h = omega (arith, pow-suc 256 n)

text_eq-be_bytes :
    (n x y : ℕ) → x < 256 ^ n → y < 256 ^ n → text_eq (be_bytes n x) (be_bytes n y) ≡ (x == y)
text_eq-be_bytes zero x y h k = unfold be_bytes le_bytes text_eq in ground arith
text_eq-be_bytes (suc n) x y h k =
    rw (be_bytes-suc n x, be_bytes-suc n y)
      (text_eq-snoc _ _ (x % 256) (y % 256) (same_length n x y)
        ∙ (ap (λ b. b && x % 256 == y % 256)
              (text_eq-be_bytes n (x / 256) (y / 256) (below_digits n x h) (below_digits n y k))
            ∙ eq_by_digits x y))

text_lt-be_bytes :
    (n x y : ℕ) → x < 256 ^ n → y < 256 ^ n → text_lt (be_bytes n x) (be_bytes n y) ≡ ltb x y
text_lt-be_bytes zero x y h k = unfold be_bytes le_bytes text_lt in ground arith
text_lt-be_bytes (suc n) x y h k =
    rw (be_bytes-suc n x, be_bytes-suc n y)
      (text_lt-snoc _ _ (x % 256) (y % 256) (same_length n x y)
        ∙ (ap₂ (λ a b. a || b && ltb (x % 256) (y % 256))
              (text_lt-be_bytes n (x / 256) (y / 256) (below_digits n x h) (below_digits n y k))
              (text_eq-be_bytes n (x / 256) (y / 256) (below_digits n x h) (below_digits n y k))
            ∙ lt_by_digits x y))

-- The bytewise order of two keys is the order of their 64-bit numbers.
pub text_lt-put_u64_be :
    (x y : ℕ) → x < word_mod → y < word_mod → text_lt (put_u64_be x) (put_u64_be y) ≡ ltb x y
text_lt-put_u64_be x y h k =
    ap₂ text_lt (put_u64_be_lem x) (put_u64_be_lem y)
    ∙ (unfold be_bytes in text_lt-be_bytes 8 x y h k)

-- Two 64-bit numbers have the same key only if they are equal.
pub text_eq-put_u64_be :
    (x y : ℕ) → x < word_mod → y < word_mod → text_eq (put_u64_be x) (put_u64_be y) ≡ (x == y)
text_eq-put_u64_be x y h k =
    ap₂ text_eq (put_u64_be_lem x) (put_u64_be_lem y)
    ∙ (unfold be_bytes in text_eq-be_bytes 8 x y h k)
