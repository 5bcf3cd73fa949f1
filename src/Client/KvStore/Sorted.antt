-- ===== src/Client/KvStore/Sorted.antt =====
-- The set of kinds that getKinds returns.
use librocks_dll.Prelude.{
  Bool, true, false, some, subst, List, [], ◌∷◌, ◌||◌, ◌≡◌, inl, inr, refl, ◌∙◌, sym, ap, arith,
}
use librocks_dll.Prelude.Text.{
  Text, c_str, text_eq, text_lt, text_lt_trans, text_lt_total, text_lt_irrefl,
}
use librocks_dll.Kind.{KindImpl, kind_impl, kind_lt}
use librocks_dll.Prelude.Map.{Map}
use librocks_dll.Prelude.Action.{◌>>=◌}
use librocks_dll.Store.State.{validate_open}
use librocks_dll.Store.Kinds
use librocks_dll.Store.Kinds.{kind_list}
use librocks_dll.Client.KvStore.Defs.{
  set_insert, kind_set, impls, returned, check, throw_for_status, kinds_result, get_kinds,
  ClientSys,
}

-- every name is a C string, as the constructor makes it
abbrev pub AreNamed : List KindImpl → Type 0
AreNamed [] = Unit
AreNamed (k ∷ ks) = (c_str k.name_ ≡ k.name_) × AreNamed ks

abbrev pub has_name : Text → List KindImpl → Bool
has_name n [] = false
has_name n (k ∷ ks) = text_eq k.name_ n || has_name n ks

abbrev pub AreAbove : Text → List KindImpl → Type 0
AreAbove n [] = Unit
AreAbove n (k ∷ ks) = (text_lt n k.name_ ≡ true) × AreAbove n ks

-- The names rise, so that none comes twice.
abbrev pub IsSorted : List KindImpl → Type 0
IsSorted [] = Unit
IsSorted (k ∷ ks) = AreAbove k.name_ ks × IsSorted ks

named_lt :
    (k j : KindImpl) → c_str j.name_ ≡ j.name_ → kind_lt k (kind_impl j) ≡ text_lt k.name_ j.name_
unfolding kind_lt
named_lt k j e = ap (λ n. text_lt k.name_ n) e

AreAbove-trans :
    (m n : Text) (ks : List KindImpl) → text_lt m n ≡ true → AreAbove n ks → AreAbove m ks
AreAbove-trans m n [] e a = tt
AreAbove-trans m n (k ∷ ks) e a = (text_lt_trans m n k.name_ e a.0, AreAbove-trans m n ks e a.1)

-- what the two tests of an insertion say
data Place (k j : KindImpl) : Type 0 where
  before : text_lt k.name_ j.name_ ≡ true → kind_lt k (kind_impl j) ≡ true → Place k j
  behind :
      text_lt j.name_ k.name_ ≡ true
      → kind_lt k (kind_impl j) ≡ false
      → kind_lt j (kind_impl k) ≡ true
      → Place k j
  here :
      k.name_ ≡ j.name_
      → kind_lt k (kind_impl j) ≡ false
      → kind_lt j (kind_impl k) ≡ false
      → Place k j

place : (k j : KindImpl) → c_str k.name_ ≡ k.name_ → c_str j.name_ ≡ j.name_ → Place k j
place k j e f = elim (text_lt_total k.name_ j.name_) [
  | inl a ↦ before a (named_lt k j f ∙ a)
  | inr (inl a) ↦ behind a (named_lt k j f ∙ asym a) (named_lt j k e ∙ a)
  | inr (inr a) ↦
      here a (named_lt k j f ∙ (ap (λ n. text_lt n j.name_) a ∙ text_lt_irrefl j.name_))
        (named_lt j k e ∙ (ap (λ n. text_lt j.name_ n) a ∙ text_lt_irrefl j.name_))
]
  where
    asym : text_lt j.name_ k.name_ ≡ true → text_lt k.name_ j.name_ ≡ false
    asym a = ground (arith, text_lt_irrefl k.name_, text_lt_trans k.name_ j.name_ k.name_)

set_insert-AreAbove :
    (n : Text) (k : KindImpl) (js : List KindImpl)
    → c_str k.name_ ≡ k.name_
    → AreNamed js
    → text_lt n k.name_ ≡ true
    → AreAbove n js
    → AreAbove n (set_insert k js)
unfolding set_insert
set_insert-AreAbove n k [] e f b a = (b, tt)
set_insert-AreAbove n k (j ∷ js) e f b a = elim (place k j e f.0) [
  | before x y ↦ rw y (b, a)
  | behind x y z ↦ rw (y, z) (a.0, set_insert-AreAbove n k js e f.1 b a.1)
  | here x y z ↦ rw (y, z) a
]

set_insert-IsSorted :
    (k : KindImpl) (js : List KindImpl)
    → c_str k.name_ ≡ k.name_
    → AreNamed js
    → IsSorted js
    → IsSorted (set_insert k js)
unfolding set_insert
set_insert-IsSorted k [] e f s = (tt, tt)
set_insert-IsSorted k (j ∷ js) e f s = elim (place k j e f.0) [
  | before x y ↦ rw y ((x, AreAbove-trans k.name_ j.name_ js x s.0), s)
  | behind x y z ↦
      rw (y, z) (set_insert-AreAbove j.name_ k js e f.1 x s.0, set_insert-IsSorted k js e f.1 s.1)
  | here x y z ↦ rw (y, z) s
]

set_insert-AreNamed :
    (k : KindImpl) (js : List KindImpl)
    → c_str k.name_ ≡ k.name_
    → AreNamed js
    → AreNamed (set_insert k js)
unfolding set_insert
set_insert-AreNamed k [] e f = (e, tt)
set_insert-AreNamed k (j ∷ js) e f = elim (place k j e f.0) [
  | before x y ↦ rw y (e, f)
  | behind x y z ↦ rw (y, z) (f.0, set_insert-AreNamed k js e f.1)
  | here x y z ↦ rw (y, z) f
]

or_swap : (a b c : Bool) → (a || (b || c)) ≡ (b || (a || c))
or_swap a b c = ground arith

or_twice : (a b : Bool) → (a || b) ≡ (a || (a || b))
or_twice a b = ground arith

has_name-set_insert :
    (n : Text) (k : KindImpl) (js : List KindImpl)
    → c_str k.name_ ≡ k.name_
    → AreNamed js
    → has_name n (set_insert k js) ≡ (text_eq k.name_ n || has_name n js)
unfolding set_insert
has_name-set_insert n k [] e f = refl
has_name-set_insert n k (j ∷ js) e f = elim (place k j e f.0) [
  | before x y ↦ rw y refl
  | behind x y z ↦
      rw (y, z)
        (ap (λ b. text_eq j.name_ n || b) (has_name-set_insert n k js e f.1)
          ∙ or_swap (text_eq j.name_ n) (text_eq k.name_ n) (has_name n js))
  | here x y z ↦
      rw (y, z)
        (or_twice (text_eq j.name_ n) (has_name n js)
          ∙ ap (λ m. text_eq m n || (text_eq j.name_ n || has_name n js)) (sym x))
]

-- What a set of kinds is to the kinds that were inserted.
pub record IsSetOf (ks : List KindImpl) (set : List KindImpl) : Type 0 where
  pub sorted : IsSorted set
  pub names : (n : Text) → has_name n set ≡ has_name n ks

append_named :
    (done ks : List KindImpl)
    → AreNamed done
    → AreNamed ks
    → IsSorted done
    → IsSorted (kind_set done ks)
      × ((n : Text) → has_name n (kind_set done ks) ≡ (has_name n ks || has_name n done))
unfolding kind_set
append_named done [] d f s = (s, λ n. refl)
append_named done (k ∷ ks) d f s =
    let r =
      append_named (set_insert k done) ks (set_insert-AreNamed k done f.0 d) f.1
        (set_insert-IsSorted k done f.0 d s) in
    (
      r.0,
      λ n.
          r.1 n
          ∙ (ap (λ b. has_name n ks || b) (has_name-set_insert n k done f.0 d)
              ∙ mix (text_eq k.name_ n) (has_name n ks) (has_name n done)),
    )
  where
    mix : (a b c : Bool) → (b || (a || c)) ≡ ((a || b) || c)
    mix a b c = ground arith

-- the kinds of a store
abbrev pub stored : Map KindImpl → List KindImpl
stored [] = []
stored ((n, k) ∷ m) = k ∷ stored m

impls-kind_list : (m : Map KindImpl) → impls (kind_list m) ≡ stored m
impls-kind_list [] = refl
impls-kind_list ((n, k) ∷ m) = ap (λ ks. k ∷ ks) (impls-kind_list m)

or_false : (b : Bool) → (b || false) ≡ b
or_false b = ground arith

kind_set-IsSetOf : (ks : List KindImpl) → AreNamed ks → IsSetOf ks (kind_set [] ks)
kind_set-IsSetOf ks f =
    let r = append_named [] ks tt f tt in
    record { sorted = r.0; names = λ n. r.1 n ∙ or_false (has_name n ks) }

module _ {W : Type 0} (s : ClientSys W) (has : s.has_store ≡ true)
    (opened : s.sys.store.is_open ≡ true) where
  kinds_read : get_kinds s ≡ some (returned (kind_set [] (impls (kind_list s.sys.store.kinds))), s)
  unfolding get_kinds kinds_result check throw_for_status Kinds.get_kinds Kinds.get_kind_manager
      validate_open ◌>>=◌
  kinds_read =
      rw (has, opened)
        (ap
          (λ b. some (
            returned (kind_set [] (impls (kind_list s.sys.store.kinds))),
            record {
              has_store = b;
              sys = record s.sys { store = record s.sys.store { is_open = true } };
            },
          ))
          has)

  -- On an open store whose kinds have C strings as their names, getKinds of the client returns
  -- without an exception, and changes nothing. The set has the names of the kinds of the store and no
  -- others, each once, in rising order.
  pub get_kinds-IsSetOf :
      AreNamed (stored s.sys.store.kinds)
      → (set : List KindImpl) × (get_kinds s ≡ some (returned set, s))
        × IsSetOf (stored s.sys.store.kinds) set
  get_kinds-IsSetOf f = (
    kind_set [] (impls (kind_list s.sys.store.kinds)),
    kinds_read,
    subst (λ ks. IsSetOf (stored s.sys.store.kinds) (kind_set [] ks))
        (sym (impls-kind_list s.sys.store.kinds)) (kind_set-IsSetOf _ f),
  )
