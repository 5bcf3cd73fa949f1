-- ===== src/Codec/RoundTrip.antt =====
-- A key that was written is read back, and the bytes that putU64BE writes are the eight bytes of the
-- number, most significant first.
use mathlib.Core.List.{reverse, reverse-cons, reverse-reverse}
use native.Mathlib.Nat.{pow-suc}
use librocks_dll.Prelude.{
  ℕ, zero, suc, ◌+◌, ◌*◌, ◌/◌, ◌%◌, ◌^◌, ◌<◌, [], ◌∷◌, ◌++◌, ◌≡◌, refl, ap, ◌∙◌, arith,
}
use librocks_dll.Prelude.Tests.{All, length, length-append}
use librocks_dll.Prelude.Text.{Text}
use librocks_dll.Codec.Bytes.{
  word_mod, le_bytes, from_le_bytes, byteswap_uint64, put_u64_be, get_u64_be,
}

abbrev IsByte : ℕ → Type 0
IsByte b = b < 256

le_bytes-from_le_bytes :
    (bs : Text) (n : ℕ) → length bs ≡ n → All IsByte bs → le_bytes n (from_le_bytes bs) ≡ bs
unfolding le_bytes from_le_bytes
le_bytes-from_le_bytes [] zero e h = refl
le_bytes-from_le_bytes [] (suc n) e h = absurd (omega arith)
le_bytes-from_le_bytes (b ∷ bs) zero e h = absurd (omega arith)
le_bytes-from_le_bytes (b ∷ bs) (suc n) e h =
    let lo : (b + 256 * from_le_bytes bs) % 256 ≡ b = omega arith in
    let hi : (b + 256 * from_le_bytes bs) / 256 ≡ from_le_bytes bs = omega arith in
    rw (lo, hi) (ap (λ r. b ∷ r) (le_bytes-from_le_bytes bs n (omega arith) h.1))

from_le_bytes-le_bytes : (n x : ℕ) → x < 256 ^ n → from_le_bytes (le_bytes n x) ≡ x
unfolding le_bytes from_le_bytes
from_le_bytes-le_bytes zero x h = omega arith
from_le_bytes-le_bytes (suc n) x h =
    omega (arith, from_le_bytes-le_bytes n (x / 256) (omega (arith, pow-suc 256 n)))

pub length-le_bytes : (n x : ℕ) → length (le_bytes n x) ≡ n
unfolding le_bytes
length-le_bytes zero x = refl
length-le_bytes (suc n) x = ap suc (length-le_bytes n (x / 256))

le_bytes-IsByte : (n x : ℕ) → All IsByte (le_bytes n x)
unfolding le_bytes
le_bytes-IsByte zero x = tt
le_bytes-IsByte (suc n) x = (omega arith, le_bytes-IsByte n (x / 256))

pub length-reverse : (bs : Text) → length (reverse bs) ≡ length bs
length-reverse [] = refl
length-reverse (b ∷ bs) =
    omega
      (arith, ap length (reverse-cons b bs), length-append (reverse bs) (b ∷ []), length-reverse bs)

All-snoc : (bs : Text) (b : ℕ) → All IsByte bs → IsByte b → All IsByte (bs ++ b ∷ [])
All-snoc [] b h k = (k, tt)
All-snoc (c ∷ bs) b h k = (h.0, All-snoc bs b h.1 k)

reverse-IsByte : (bs : Text) → All IsByte bs → All IsByte (reverse bs)
reverse-IsByte [] h = tt
reverse-IsByte (b ∷ bs) h =
    rw (reverse-cons b bs) (All-snoc (reverse bs) b (reverse-IsByte bs h.1) h.0)

-- The bytes of the swapped word are those of the word, reversed.
pub put_u64_be_lem : (x : ℕ) → put_u64_be x ≡ reverse (le_bytes 8 x)
unfolding put_u64_be byteswap_uint64
put_u64_be_lem x =
    le_bytes-from_le_bytes (reverse (le_bytes 8 x)) 8
      (length-reverse (le_bytes 8 x) ∙ length-le_bytes 8 x)
      (reverse-IsByte (le_bytes 8 x) (le_bytes-IsByte 8 x))

-- A key has eight bytes.
pub length-put_u64_be : (x : ℕ) → length (put_u64_be x) ≡ 8
length-put_u64_be x =
    ap length (put_u64_be_lem x) ∙ (length-reverse (le_bytes 8 x) ∙ length-le_bytes 8 x)

-- getU64BE reads back every 64-bit number that putU64BE wrote.
pub get_u64_be-put_u64_be : (x : ℕ) → x < word_mod → get_u64_be (put_u64_be x) ≡ x
get_u64_be-put_u64_be x h =
    ap get_u64_be (put_u64_be_lem x)
    ∙ (unfold get_u64_be byteswap_uint64 in
        ap (λ bs. from_le_bytes (reverse bs))
          (le_bytes-from_le_bytes (reverse (le_bytes 8 x)) 8
            (length-reverse (le_bytes 8 x) ∙ length-le_bytes 8 x)
            (reverse-IsByte (le_bytes 8 x) (le_bytes-IsByte 8 x)))
        ∙ (ap from_le_bytes (reverse-reverse (le_bytes 8 x)) ∙ from_le_bytes-le_bytes 8 x h))
