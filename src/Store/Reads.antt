-- ===== src/Store/Reads.antt =====
-- get on every branch, and findMinKey and findMaxKey.
use librocks_dll.Prelude.{
  ℕ, true, false, Option, none, some, [], ◌∷◌, ◌≡◌, ◌≢◌, ◌⊎◌, inl, inr, refl, ◌∙◌, sym, ap, subst,
  false≢true, arith,
}
use librocks_dll.Prelude.Tests.{ℤ, pos, ◌==◌, is_some, length, Bool-cases, Option-cases}
use librocks_dll.Prelude.Text.{Text}
use librocks_dll.Prelude.Action.{
  Returns, Returns-bind, Returns-then, Returns-mono, Returns-some, Returns-if_at,
}
use librocks_dll.Status
use librocks_dll.Status.{IntPtr, assign}
use librocks_dll.Engine.{Engine, EngineStatus, status_ok, Handle}
use librocks_dll.Engine.Laws.{Laws, Cell, value_of}
use librocks_dll.Kind.{KindImpl, Kind, kind_impl, other_kind, is_valid}
use librocks_dll.Store.State.{Sys, SizePtr, Reply, on_db-Returns}
use librocks_dll.Store.Read.{null_reply, copy_out, get_kind, get_, get}
use librocks_dll.Store.Frame.{IsValid, Frame-IsValid, Quiet, Quiet-world}
use librocks_dll.Store.Writes.{
  closed_sys, closed_sys-IsValid, with_open-open, with_open-closed, assign-assign,
}

-- The reply to a value: null where it is empty, and then `*resultLen` is as before.
abbrev pub copied : IntPtr → ℕ → Text → Reply
copied status n [] = null_reply status (some n)
copied status n (c ∷ v) = record {
  status = status;
  result_len = some (length (c ∷ v));
  value = some (c ∷ v);
}

pub copy_out_lem :
    {W : Type 0} (status : IntPtr) (n : ℕ) (v : Text) (s : Sys W) {P : Reply → Sys W → Type 0}
    → P (copied status n v) s
    → Returns (copy_out status (some n) v s) P
copy_out_lem status n [] s p = Returns-some p
copy_out_lem status n (c ∷ v) s p = Returns-then _ _ _ refl (Returns-some p)

not_found_or :
    (s : EngineStatus)
    → status_ok s ≡ false
    → (s.code ≡ 1) ⊎ ((pos s.code ≢ Status.ok) × (pos s.code ≢ Status.not_found))
not_found_or s h = elim (Bool-cases (s.code == 1)) [
  | inl e ↦ inl (ground arith)
  | inr e ↦ inr (ground arith)
]

-- What a read of a cell finds: the value, no value, or an error.
pub data Found (c : Cell) (status : IntPtr) (n : ℕ) (r : Reply) : Type 0 where
  found : (v : Text) → value_of c ≡ some v → r ≡ copied status n v → Found c status n r
  missing :
      value_of c ≡ none
      → r ≡ null_reply (assign Status.not_found status) (some n)
      → Found c status n r
  failed :
      (e : ℤ)
      → e ≢ Status.ok
      → e ≢ Status.not_found
      → r ≡ null_reply (assign e status) (some n)
      → Found c status n r

module _ {W : Type 0} {E : Engine W} (L : Laws E) where
  failed-Found :
      (h : Handle) (key : Text) (status : IntPtr) (n : ℕ) (s : Sys W)
      → status_ok (E.get h key s.world).0.0 ≡ false
      → Found
          (L.view s.world h key)
          status
          n
          (null_reply (assign (pos (E.get h key s.world).0.0.code) status) (some n))
  failed-Found h key status n s bad = elim (not_found_or (E.get h key s.world).0.0 bad) [
    | inl e ↦
        missing (L.get-not_found h key s.world e)
          (ap (λ c. null_reply (assign (pos c) status) (some n)) e)
    | inr (p, q) ↦ failed _ p q refl
  ]

  pub get_kind-Found :
      (kind : KindImpl) (h : Handle) (key : Text) (status : IntPtr) (n : ℕ) (s : Sys W)
      → kind.handle_ ≡ some h
      → s.store.has_db ≡ true
      → Returns
          (get_kind E status (some kind) (some n) key s)
          (λ r t. Quiet L s t × Found (L.view s.world h key) status n r)
  unfolding get_kind
  get_kind-Found kind h key status n s e d = rw e (
      Returns-then _ _ _ refl (
        Returns-bind _ _ _ (λ g t. Quiet L s t × (g ≡ (E.get h key s.world).0))
          (on_db-Returns _ s d (Quiet-world L s _ (L.get-view h key s.world), refl))
          (λ g t p.
            Returns-if_at (status_ok g.0) _ _ t
              (λ ok. copy_out_lem status n g.1 t (
                p.0,
                found g.1
                    (subst (λ x. status_ok x.0 ≡ true → value_of (L.view s.world h key) ≡ some x.1)
                      (sym p.1) (L.get-ok h key s.world) ok)
                    refl,
              ))
              (λ bad. Returns-some (
                p.0,
                subst
                    (λ x.
                      status_ok x.0 ≡ false
                      → Found (L.view s.world h key) status n
                          (null_reply (assign (pos x.0.code) status) (some n)))
                    (sym p.1) (failed-Found h key status n s) bad,
              )))))

  -- What get does, one constructor for each way that it ends.
  pub data Read (status : IntPtr) (kind : Kind) (result_len : SizePtr) (key : Option Text)
      (s : Sys W) (r : Reply) (t : Sys W) : Type 0 where
    refused :
        (key ≡ none) ⊎ (result_len ≡ none) ⊎ (is_valid kind ≡ false)
        → r ≡ null_reply (assign Status.invalid_argument status) result_len
        → t ≡ s
        → Read status kind result_len key s r t
    closed :
        s.store.is_open ≡ false
        → r ≡ null_reply (assign Status.closed status) (some 0)
        → t ≡ closed_sys s
        → Read status kind result_len key s r t
    foreign :
        (m : Text)
        → kind ≡ other_kind m true
        → s.store.is_open ≡ true
        → r ≡ null_reply (assign Status.invalid_argument status) (some 0)
        → t ≡ s
        → Read status kind result_len key s r t
    ran :
        (k : KindImpl) (h : Handle) (bytes : Text)
        → kind ≡ kind_impl k
        → k.handle_ ≡ some h
        → key ≡ some bytes
        → s.store.is_open ≡ true
        → Quiet L s t
        → Found (L.view s.world h bytes) (assign Status.ok status) 0 r
        → Read status kind result_len key s r t

  module _ (status : IntPtr) (n : ℕ) (key : Text) (s : Sys W) (v : IsValid s) where
    open_read :
        (kind : Kind)
        → is_valid kind ≡ true
        → s.store.is_open ≡ true
        → Returns
            (get_ E (assign Status.ok status) kind (some 0) key s)
            (λ r t. IsValid t × Read status kind (some n) (some key) s r t)
    unfolding get_
    open_read (other_kind m b) g o =
        unfold get_kind in
        Returns-some (
          v,
          foreign m (ap (other_kind m) g) o
              (ap (λ p. null_reply p (some 0))
                (assign-assign Status.invalid_argument Status.ok status))
              refl,
        )
    open_read (kind_impl k) g o = elim (Option-cases k.handle_) [
      | inl e ↦ absurd (false≢true (sym (ap is_some e) ∙ g))
      | inr (h, e) ↦
          Returns-mono _ (get_kind-Found k h key (assign Status.ok status) 0 s e (v.open-has_db o))
            (λ r t p. (Frame-IsValid s t p.0.frame v, ran k h key refl e refl o p.0 p.1))
    ]

    guarded_read :
        (kind : Kind)
        → is_valid kind ≡ true
        → Returns
            (get E status kind (some n) (some key) s)
            (λ r t. IsValid t × Read status kind (some n) (some key) s r t)
    unfolding get
    guarded_read kind g =
        Returns-if_at (is_valid kind) _ _ s
          (λ e. elim (Bool-cases s.store.is_open) [
            | inl o ↦ rw (with_open-open status _ _ s o) (open_read kind g o)
            | inr c ↦
                rw (with_open-closed status _ _ s c)
                  (Returns-some (closed_sys-IsValid s v, closed c refl refl))
          ])
          (λ e. absurd (false≢true (sym e ∙ g)))

  -- From a valid store, get returns without a fault and the store stays valid. It is refused (a null
  -- key or length pointer, an invalid kind), the store is closed, the kind is of another class, or
  -- the view is unchanged and the reply is the value of the key, or NotFound where the key is
  -- absent, or another error with null. An empty value is returned as null.
  pub get_lem :
      (status : IntPtr) (kind : Kind) (result_len : SizePtr) (key : Option Text) (s : Sys W)
      → IsValid s
      → Returns
          (get E status kind result_len key s)
          (λ r t. IsValid t × Read status kind result_len key s r t)
  unfolding get
  get_lem status kind result_len none s v = Returns-some (v, refused (inl refl) refl refl)
  get_lem status kind none (some key) s v = Returns-some (v, refused (inr (inl refl)) refl refl)
  get_lem status kind (some n) (some key) s v = elim (Bool-cases (is_valid kind)) [
    | inl g ↦ guarded_read status n key s v kind g
    | inr e ↦
        Returns-if_at (is_valid kind) _ _ s (λ g. absurd (false≢true (sym e ∙ g)))
          (λ f. Returns-some (v, refused (inr (inr f)) refl refl))
  ]
