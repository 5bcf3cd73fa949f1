-- ===== src/Codec/Bytes.antt =====
-- putU64BE and getU64BE, over the bytes of a word.
use mathlib.Core.List.{reverse}
use librocks_dll.Prelude.{ℕ, zero, suc, ◌+◌, ◌*◌, ◌/◌, ◌%◌, ◌^◌, [], ◌∷◌}
use librocks_dll.Prelude.Text.{Text}

abbrev pub word_mod : ℕ
word_mod = 2 ^ 64

-- The `n` bytes of a word in memory, least significant first; and the word that they hold.
unfoldable pub le_bytes : ℕ → ℕ → Text
le_bytes zero x = []
le_bytes (suc n) x = (x % 256) ∷ le_bytes n (x / 256)

unfoldable pub from_le_bytes : Text → ℕ
from_le_bytes [] = 0
from_le_bytes (b ∷ bs) = b + 256 * from_le_bytes bs

-- _byteswap_uint64
unfoldable pub byteswap_uint64 : ℕ → ℕ
byteswap_uint64 x = from_le_bytes (reverse (le_bytes 8 x))

-- The eight bytes that putU64BE leaves at `dst`, and the word that getU64BE reads from such bytes.
unfoldable pub put_u64_be : ℕ → Text
put_u64_be x = le_bytes 8 (byteswap_uint64 x)

unfoldable pub get_u64_be : Text → ℕ
get_u64_be src = byteswap_uint64 (from_le_bytes src)
