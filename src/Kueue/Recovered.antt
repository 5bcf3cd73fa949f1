-- ===== src/Kueue/Recovered.antt =====
-- The constructor's numbers, from the smallest and the greatest key of a family that holds messages.
use librocks_dll.Prelude.{
  ℕ, suc, ◌+◌, ◌-◌, ◌≤◌, ◌<◌, ◌^◌, true, false, none, some, List, [], ◌∷◌, ◌≡◌, ◌≢◌, inl, inr, refl,
  ◌∙◌, sym, ap, subst, arith,
}
use mathlib.Core.Path.{ap₂}
use librocks_dll.Prelude.Tests.{ltb, leb, ◌==◌, length, Bool-cases, if◌then◌else◌}
use librocks_dll.Prelude.Text.{Text, text_eq, text_lt, text_eq→eq}
use librocks_dll.Codec.Bytes.{word_mod, put_u64_be, get_u64_be}
use librocks_dll.Codec.RoundTrip.{length-put_u64_be, get_u64_be-put_u64_be}
use librocks_dll.Codec.Order.{text_lt-put_u64_be, text_eq-put_u64_be}
use librocks_dll.Engine.{Handle}
use librocks_dll.Engine.Laws.{value_of, once, View, IsLeast, IsGreatest}
use librocks_dll.Kind.{KindImpl, kind_impl}
use librocks_dll.Kueue.State.{KueueImpl, inc64, sub64, is_nonnegative}
use librocks_dll.Kueue.Contents.{expected, Contains}
use librocks_dll.Kueue.IsQueue.{IsCounted}
use librocks_dll.Kueue.Recover.{blank, read_key, recovered}

-- the number of a key that holds a message
record Numbered (lo n : ℕ) (j : Text) : Type 0 where
  number : ℕ
  from : lo ≤ number
  below : number < lo + n
  key : j ≡ put_u64_be number

expected-Numbered :
    (items : List Text) (lo : ℕ) (j : Text)
    → value_of (expected lo items j) ≢ none
    → Numbered lo (length items) j
expected-Numbered [] lo j p = absurd (p refl)
expected-Numbered (v ∷ vs) lo j p = elim (Bool-cases (text_eq (put_u64_be lo) j)) [
  | inl e ↦ record {
    number = lo;
    from = omega arith;
    below = omega arith;
    key = sym (text_eq→eq (put_u64_be lo) j e);
  }
  | inr e ↦
      let r =
        expected-Numbered vs (lo + 1) j
          (λ q. p (ap (λ b. value_of (if b then once v else expected (lo + 1) vs j)) e ∙ q)) in
      record {
        number = r.number;
        from = omega (arith, r.from);
        below = omega (arith, r.below);
        key = r.key;
      }
]

once-ne-absent : (v : Text) → value_of (once v) ≢ none
once-ne-absent v e = cc

expected-inside :
    (items : List Text) (lo x : ℕ)
    → lo ≤ x
    → x < lo + length items
    → lo + length items ≤ word_mod
    → value_of (expected lo items (put_u64_be x)) ≢ none
expected-inside [] lo x h k b e = absurd (omega arith)
expected-inside (v ∷ vs) lo x h k b e = elim (Bool-cases (lo == x)) [
  | inl s ↦ once-ne-absent v (
      sym (
        ap (λ b. value_of (if b then once v else expected (lo + 1) vs (put_u64_be x)))
          (text_eq-put_u64_be lo x (omega arith) (omega arith) ∙ s))
      ∙ e)
  | inr s ↦ expected-inside vs (lo + 1) x (ground arith) (omega arith) (omega arith) (
      sym (
        ap (λ b. value_of (if b then once v else expected (lo + 1) vs (put_u64_be x)))
          (text_eq-put_u64_be lo x (omega arith) (omega arith) ∙ s))
      ∙ e)
]

module _ (f : View) (h : Handle) (lo : ℕ) (items : List Text) (c : Contains f h lo items)
    (b : lo + length items < 2 ^ 63) (some_items : 0 < length items) where
  present : (x : ℕ) → lo ≤ x → x < lo + length items → value_of (f h (put_u64_be x)) ≢ none
  present x p q e =
      expected-inside items lo x p q (omega arith) (ap value_of (sym (c (put_u64_be x))) ∙ e)

  numbered : (j : Text) → value_of (f h j) ≢ none → Numbered lo (length items) j
  numbered j p = expected-Numbered items lo j (λ e. p (ap value_of (c j) ∙ e))

  least-key : (j : Text) → IsLeast f h j → j ≡ put_u64_be lo
  least-key j (p, least) =
      let r = numbered j p in
      let q : ltb lo r.number ≡ false =
        sym (text_lt-put_u64_be lo r.number (omega arith) (omega (arith, r.below)))
        ∙ (ap (λ k. text_lt (put_u64_be lo) k) (sym r.key)
            ∙ least (put_u64_be lo) (present lo (omega arith) (omega arith))) in
      let e : r.number ≡ lo = ground (arith, r.from) in r.key ∙ ap put_u64_be e

  greatest-key :
      (last : ℕ)
      → suc last ≡ lo + length items
      → (j : Text) → IsGreatest f h j
      → j ≡ put_u64_be last
  greatest-key last l j (p, greatest) =
      let r = numbered j p in
      let q : ltb r.number last ≡ false =
        sym (text_lt-put_u64_be r.number last (omega (arith, r.below)) (omega arith))
        ∙ (ap (λ k. text_lt k (put_u64_be last)) (sym r.key)
            ∙ greatest (put_u64_be last) (present last (omega arith) (omega arith))) in
      let e : r.number ≡ last = ground (arith, r.below) in r.key ∙ ap put_u64_be e

read_key-put : (x : ℕ) → x < word_mod → read_key (some (put_u64_be x)) ≡ some x
read_key-put x b =
    ap (λ n. if n == 8 then some (get_u64_be (put_u64_be x)) else none) (length-put_u64_be x)
    ∙ ap some (get_u64_be-put_u64_be x b)

abbrev whole : KindImpl → ℕ → ℕ → KueueImpl
whole k lo last = record blank {
  queue_kind = some (kind_impl k);
  min_key = lo;
  max_key = inc64 last;
  count = sub64 (inc64 last) lo;
  is_valid = is_nonnegative (sub64 (inc64 last) lo);
}

recovered-whole :
    (k : KindImpl) (lo last : ℕ)
    → leb lo last ≡ true
    → recovered (kind_impl k) (some lo) (some last) ≡ whole k lo last
unfolding recovered
recovered-whole k lo last e =
    ap
      (λ b.
        if b
        then whole k lo last
        else record blank { queue_kind = some (kind_impl k); min_key = lo; max_key = inc64 last })
      e

whole-IsCounted :
    (k : KindImpl) (lo last n : ℕ)
    → suc last ≡ lo + n
    → lo + n < 2 ^ 63
    → IsCounted k n (whole k lo last)
whole-IsCounted k lo last n l b =
    let d : sub64 (inc64 last) lo ≡ n = omega arith in
    record {
      kind = refl;
      valid = ap is_nonnegative d ∙ ground arith;
      count = d;
      max_key = omega arith;
      bound = b;
    }

-- Of a family that holds at least one message, all under 63-bit keys in a row, the constructor
-- recovers the numbers of the queue from the least and the greatest key.
pub recovered-IsCounted :
    (k : KindImpl) (f : View) (h : Handle) (lo : ℕ) (items : List Text) (smallest greatest : Text)
    → Contains f h lo items
    → lo + length items < 2 ^ 63
    → 0 < length items
    → IsLeast f h smallest
    → IsGreatest f h greatest
    → let q = recovered (kind_impl k) (read_key (some smallest)) (read_key (some greatest)) in
      IsCounted k (length items) q × (q.min_key ≡ lo)
recovered-IsCounted k f h lo items smallest greatest c b p least most =
    let last = lo + length items - 1 in
    let l : suc last ≡ lo + length items = omega arith in
    let e : recovered (kind_impl k) (read_key (some smallest)) (read_key (some greatest))
        ≡ whole k lo last =
      ap₂ (λ a d. recovered (kind_impl k) (read_key (some a)) (read_key (some d)))
        (least-key f h lo items c b p smallest least)
        (greatest-key f h lo items c b p last l greatest most)
      ∙ (ap₂ (recovered (kind_impl k)) (read_key-put lo (omega arith))
            (read_key-put last (omega arith))
          ∙ recovered-whole k lo last (ground arith)) in
    subst (λ q. IsCounted k (length items) q × (q.min_key ≡ lo)) (sym e)
      (whole-IsCounted k lo last (length items) l b, refl)
