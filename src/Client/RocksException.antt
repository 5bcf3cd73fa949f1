-- ===== src/Client/RocksException.antt =====
-- include/client/RocksException.h and src/client/RocksException.cpp.
use librocks_dll.Prelude.{ℕ, zero, suc, ◌+◌, ◌/◌, ◌%◌, [], ◌∷◌, ◌++◌}
use librocks_dll.Prelude.Tests.{ℤ, pos, negsuc, ltb, if◌then◌else◌}
use librocks_dll.Prelude.Text.{Text, codes}
use librocks_dll.Status

-- `message` is what `what()` returns.
pub record RocksException : Type 0 where
  pub code : ℤ
  pub message : Text

abbrev pub name : Text
name = codes "RocksException - "

abbrev pub default_exception : RocksException
default_exception = record { code = Status.unknown; message = name }

-- the constructors from a code and a message
unfoldable pub new_exception : ℤ → Text → RocksException
new_exception code message = record { code = code; message = name ++ message ++ codes "\n" }

-- the decimal digits of a number, in front of `rest`; `fuel` is more than their count
unfoldable pub decimal : ℕ → ℕ → Text → Text
decimal zero n rest = rest
decimal (suc fuel) n rest =
    let more = decimal fuel (n / 10) ((n % 10 + 48) ∷ rest) in
    if ltb n 10 then (n + 48) ∷ rest else more

-- l2s: "%ld", of a long of 32 bits
unfoldable pub l2s : ℤ → Text
l2s (pos n) = decimal 10 n []
l2s (negsuc n) = codes "-" ++ decimal 10 (suc n) []

-- the constructors from a code, a file, a line and a message
unfoldable pub new_exception_at : ℤ → Text → ℤ → Text → RocksException
unfolding l2s
new_exception_at code file line message = record {
  code = code;
  message = name ++ file ++ codes ":" ++ l2s line ++ codes ": " ++ message ++ codes "\n";
}
