-- ===== src/Prelude/CString.antt =====
-- Texts without a NUL byte, which a C string passes on whole.
use librocks_dll.Prelude.{
  Bool, not, ◌&&◌, true, false, [], ◌∷◌, ◌++◌, ◌≡◌, inl, inr, refl, ap, arith,
}
use librocks_dll.Prelude.Tests.{◌==◌, All, Bool-cases}
use librocks_dll.Prelude.Text.{Text, c_str}

abbrev pub HasNoNul : Text → Type 0
HasNoNul t = All (λ c. (c == 0) ≡ false) t

pub c_str-HasNoNul : (t : Text) → HasNoNul (c_str t)
unfolding c_str
c_str-HasNoNul [] = tt
c_str-HasNoNul (a ∷ s) = elim (Bool-cases (a == 0)) [
  | inl e ↦ rw e tt
  | inr e ↦ rw e (e, c_str-HasNoNul s)
]

pub append-HasNoNul : (s t : Text) → HasNoNul s → HasNoNul t → HasNoNul (s ++ t)
append-HasNoNul [] t a b = b
append-HasNoNul (c ∷ s) t a b = (a.0, append-HasNoNul s t a.1 b)

pub HasNoNul-c_str : (t : Text) → HasNoNul t → c_str t ≡ t
unfolding c_str
HasNoNul-c_str [] h = refl
HasNoNul-c_str (a ∷ s) h = rw h.0 (ap (λ s. a ∷ s) (HasNoNul-c_str s h.1))

abbrev pub has_no_nul : Text → Bool
has_no_nul [] = true
has_no_nul (c ∷ s) = not (c == 0) && has_no_nul s

pub has_no_nul-HasNoNul : (t : Text) → has_no_nul t ≡ true → HasNoNul t
has_no_nul-HasNoNul [] e = tt
has_no_nul-HasNoNul (c ∷ s) e = (ground (arith, e), has_no_nul-HasNoNul s (ground (arith, e)))
