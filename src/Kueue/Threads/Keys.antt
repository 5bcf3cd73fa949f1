-- ===== src/Kueue/Threads/Keys.antt =====
-- The keys that readNext returned belong to messages that were counted.
use librocks_dll.Prelude.Tests.{if◌then◌else◌}
use librocks_dll.Prelude.{
  Bool, true, false, ℕ, ◌+◌, ◌<◌, ◌≤◌, List, [], ◌∷◌, ◌++◌, ◌≡◌, subst, arith,
}
use librocks_dll.Kueue.Threads.State.{PutSide, TakeSide, erasing}
use librocks_dll.Kueue.Threads.Numbers.{uncounted}

-- With `u` more, every key is below the bound.
abbrev pub AllBelow : ℕ → ℕ → List ℕ → Type 0
AllBelow u bound [] = Unit
AllBelow u bound (key ∷ keys) = (key + u < bound) × AllBelow u bound keys

abbrev pub ErasesBelow : ℕ → ℕ → TakeSide → Type 0
ErasesBelow u bound (erasing key) = key + u < bound
ErasesBelow u bound t = Unit

-- of a queue with `n` messages from the key `lo` on
pub record Keys (lo n : ℕ) (p : PutSide) (t : TakeSide) (keys : List ℕ) : Type 0 where
  pub known : AllBelow (uncounted p) (lo + n) keys
  pub erases : ErasesBelow (uncounted p) (lo + n) t

AllBelow-le :
    (u bound u' bound' : ℕ) (keys : List ℕ)
    → u' + bound ≤ u + bound'
    → AllBelow u bound keys
    → AllBelow u' bound' keys
AllBelow-le u bound u' bound' [] e x = tt
AllBelow-le u bound u' bound' (key ∷ keys) e x =
    (omega (arith, e, x.0), AllBelow-le u bound u' bound' keys e x.1)

ErasesBelow-le :
    (u bound u' bound' : ℕ) (t : TakeSide)
    → u' + bound ≤ u + bound'
    → ErasesBelow u bound t
    → ErasesBelow u' bound' t
ErasesBelow-le u bound u' bound' t e x = ground arith

AllBelow-pick :
    (u bound : ℕ) (front back : List ℕ) (key : ℕ)
    → AllBelow u bound (front ++ key ∷ back)
    → key + u < bound
AllBelow-pick u bound [] back key x = x.0
AllBelow-pick u bound (f ∷ front) back key x = AllBelow-pick u bound front back key x.1

pub pick-Keys :
    (lo n : ℕ) (p : PutSide) (t : TakeSide) (front back : List ℕ) (key : ℕ) {keys : List ℕ}
    → keys ≡ front ++ key ∷ back
    → Keys lo n p t keys
    → key + uncounted p < lo + n
pick-Keys lo n p t front back key e k =
    AllBelow-pick (uncounted p) (lo + n) front back key
      (subst (λ keys. AllBelow (uncounted p) (lo + n) keys) e k.known)

-- No key is forgotten when messages are stored, counted or removed.
pub move-Keys :
    (lo n : ℕ) (p : PutSide) (lo' n' : ℕ) (p' : PutSide) (t t' : TakeSide) (keys : List ℕ)
    → uncounted p' + (lo + n) ≤ uncounted p + (lo' + n')
    → ErasesBelow (uncounted p') (lo' + n') t'
    → Keys lo n p t keys
    → Keys lo' n' p' t' keys
move-Keys lo n p lo' n' p' t t' keys e x k = record {
  known = AllBelow-le (uncounted p) (lo + n) (uncounted p') (lo' + n') keys e k.known;
  erases = x;
}

pub put-Keys :
    (lo n : ℕ) (p : PutSide) (n' : ℕ) (p' : PutSide) (t : TakeSide) (keys : List ℕ)
    → uncounted p' + n ≤ uncounted p + n'
    → Keys lo n p t keys
    → Keys lo n' p' t keys
put-Keys lo n p n' p' t keys e k =
    move-Keys lo n p lo n' p' t t keys (omega (arith, e))
      (ErasesBelow-le (uncounted p) (lo + n) (uncounted p') (lo + n') t (omega (arith, e)) k.erases)
      k

-- readNext returned the first key, or an error.
pub read-Keys :
    (b : Bool) (lo n : ℕ) (p : PutSide) (t : TakeSide) (key : ℕ) (keys : List ℕ)
    → key + uncounted p < lo + n
    → Keys lo n p t keys
    → Keys lo n p t (if b then key ∷ keys else keys)
read-Keys true lo n p t key keys e k = record { known = (e, k.known); erases = k.erases }
read-Keys false lo n p t key keys e k = k
