-- ===== src/Store/Writes.antt =====
-- put, remove and singleRemove on every branch: refused arguments, a closed store, and a write that
-- is applied or reported as failed.
use librocks_dll.Prelude.{
  true, false, Option, none, some, ◌≡◌, ◌⊎◌, inl, inr, refl, ◌∙◌, sym, ap, false≢true,
}
use librocks_dll.Prelude.Tests.{ℤ, is_some, Bool-cases, Option-cases}
use librocks_dll.Prelude.Text.{Text}
use librocks_dll.Prelude.Action.{
  Action, Returns, Returns-mono, Returns-some, Returns-if_at, bind-eq,
}
use librocks_dll.Status
use librocks_dll.Status.{IntPtr, assign}
use librocks_dll.Engine.{Engine, EngineStatus, Handle, Tx}
use librocks_dll.Engine.Laws.{Laws, Write, puts, deletes, single_deletes}
use librocks_dll.Kind.{KindImpl, Kind, kind_impl, other_kind, is_valid}
use librocks_dll.Store.State.{Sys, validate_at, validate_open, with_open, to_kind_impl}
use librocks_dll.Store.Write.{
  when_open, write_kind, put_, remove_, single_remove_, put, remove, single_remove,
}
use librocks_dll.Store.Frame.{IsValid, Frame-IsValid}
use librocks_dll.Store.Outcome.{Outcome, done, failed, Stages, write_kind-Outcome}

pub assign-assign : (c d : ℤ) (p : IntPtr) → assign c (assign d p) ≡ assign c p
assign-assign c d none = refl
assign-assign c d (some v) = refl

module _ {W : Type 0} where
  -- validateOpen on a closed store leaves its code there.
  abbrev pub closed_sys : Sys W → Sys W
  closed_sys s = record s { store = record s.store { code = Status.closed } }

  pub validate_open-open :
      (status : IntPtr) (s : Sys W)
      → s.store.is_open ≡ true
      → validate_open status s ≡ some ((true, assign Status.ok status), s)
  unfolding validate_open
  validate_open-open status s e = ap (λ b. validate_at b status s) e

  pub validate_open-closed :
      (status : IntPtr) (s : Sys W)
      → s.store.is_open ≡ false
      → validate_open status s ≡ some ((false, assign Status.closed status), closed_sys s)
  unfolding validate_open
  validate_open-closed status s e = ap (λ b. validate_at b status s) e

  pub with_open-open :
      {A : Type 0} (status : IntPtr) (refuse : IntPtr → A) (body : IntPtr → Action (Sys W) A)
      (s : Sys W)
      → s.store.is_open ≡ true
      → with_open status refuse body s ≡ body (assign Status.ok status) s
  unfolding with_open
  with_open-open status refuse body s e = bind-eq _ _ s (validate_open-open status s e)

  pub with_open-closed :
      {A : Type 0} (status : IntPtr) (refuse : IntPtr → A) (body : IntPtr → Action (Sys W) A)
      (s : Sys W)
      → s.store.is_open ≡ false
      → with_open status refuse body s ≡ some (refuse (assign Status.closed status), closed_sys s)
  unfolding with_open
  with_open-closed status refuse body s e =
      bind-eq _ _ s (validate_open-closed status s e)
      ∙ ap (λ p. some (refuse p, closed_sys s)) (assign-assign Status.closed Status.closed status)

  pub closed_sys-IsValid : (s : Sys W) → IsValid s → IsValid (closed_sys s)
  closed_sys-IsValid s v = record { open-has_db = v.open-has_db; below_batch = v.below_batch }

module _ {W : Type 0} {E : Engine W} (L : Laws E) where
  -- What a write of the interface does, one constructor for each way that it ends.
  pub data Written (op : Handle → Text → Write) (status : IntPtr) (kind : Kind) (key : Option Text)
      (s : Sys W) (status' : IntPtr) (t : Sys W) : Type 0 where
    refused :
        (key ≡ none) ⊎ (is_valid kind ≡ false)
        → status' ≡ assign Status.invalid_argument status
        → t ≡ s
        → Written op status kind key s status' t
    closed :
        s.store.is_open ≡ false
        → status' ≡ assign Status.closed status
        → t ≡ closed_sys s
        → Written op status kind key s status' t
    foreign :
        (n : Text)
        → kind ≡ other_kind n true
        → s.store.is_open ≡ true
        → status' ≡ assign Status.invalid_argument status
        → t ≡ s
        → Written op status kind key s status' t
    ran :
        (k : KindImpl) (h : Handle) (bytes : Text)
        → kind ≡ kind_impl k
        → k.handle_ ≡ some h
        → key ≡ some bytes
        → s.store.is_open ≡ true
        → Outcome L (op h bytes) (assign Status.ok status) s status' t
        → Written op status kind key s status' t

  pub Outcome-IsValid :
      (op : Write) (status status' : IntPtr) (s t : Sys W)
      → Outcome L op status s status' t
      → IsValid s
      → IsValid t
  Outcome-IsValid op status status' s t (done f a e) v = Frame-IsValid s t f v
  Outcome-IsValid op status status' s t (failed q c n e) v = Frame-IsValid s t q.frame v

  module _ (op : Handle → Text → Write) (key : Text) (stage : Handle → Tx → W → EngineStatus × W)
      (stages : (h : Handle) → Stages L stage h (op h key)) (status : IntPtr) (s : Sys W)
      (v : IsValid s) where
    -- behind the guards, on an open store
    open_write :
        (kind : Kind)
        → is_valid kind ≡ true
        → s.store.is_open ≡ true
        → Returns
            (write_kind E
              (to_kind_impl kind (assign Status.ok status)).1
              (to_kind_impl kind (assign Status.ok status)).0
              stage
              s)
            (λ status' t. IsValid t × Written op status kind (some key) s status' t)
    open_write (other_kind n b) g o =
        unfold write_kind in
        Returns-some (
          v,
          foreign n (ap (other_kind n) g) o (assign-assign Status.invalid_argument Status.ok status)
              refl,
        )
    open_write (kind_impl k) g o = elim (Option-cases k.handle_) [
      | inl e ↦ absurd (false≢true (sym (ap is_some e) ∙ g))
      | inr (h, e) ↦
          Returns-mono _
            (write_kind-Outcome L (op h key) (assign Status.ok status) stage k h e (stages h) s v
              (v.open-has_db o))
            (λ status' t out.
              (Outcome-IsValid _ _ status' s t out v, ran k h key refl e refl o out))
    ]

    guarded_write :
        (kind : Kind)
        → is_valid kind ≡ true
        → Returns
            (when_open status
              (λ st. write_kind E (to_kind_impl kind st).1 (to_kind_impl kind st).0 stage)
              s)
            (λ status' t. IsValid t × Written op status kind (some key) s status' t)
    guarded_write kind g = elim (Bool-cases s.store.is_open) [
      | inl o ↦ rw (with_open-open status (λ p. p) _ s o) (open_write kind g o)
      | inr c ↦
          rw (with_open-closed status (λ p. p) _ s c)
            (Returns-some (closed_sys-IsValid s v, closed c refl refl))
    ]

  pub put-Stages :
      (key value : Text) (h : Handle)
      → Stages L (λ h t. E.tx_put t h key value) h (puts h key value)
  put-Stages key value h = record {
    view = λ t w. L.put-view t h key value w;
    staged = λ t w. L.put-staged t h key value w;
  }

  pub delete-Stages :
      (key : Text) (h : Handle) → Stages L (λ h t. E.tx_delete t h key) h (deletes h key)
  delete-Stages key h = record {
    view = λ t w. L.delete-view t h key w;
    staged = λ t w. L.delete-staged t h key w;
  }

  pub single_delete-Stages :
      (key : Text) (h : Handle)
      → Stages L (λ h t. E.tx_single_delete t h key) h (single_deletes h key)
  single_delete-Stages key h = record {
    view = λ t w. L.single_delete-view t h key w;
    staged = λ t w. L.single_delete-staged t h key w;
  }

  module _ (status : IntPtr) (kind : Kind) (s : Sys W) where
    -- From a valid store, put returns without a fault, the store stays valid, and it is refused
    -- (a null key or an invalid kind), or the store is closed, or the kind is of another class, or
    -- the put is applied to the view with status Ok, or a code other than Ok is reported and the
    -- view is unchanged.
    pub put_lem :
        (key : Option Text) (value : Text)
        → IsValid s
        → Returns
            (put E status kind key value s)
            (λ status' t. IsValid t × Written (λ h k. puts h k value) status kind key s status' t)
    unfolding put put_
    put_lem none value v = Returns-some (v, refused (inl refl) refl refl)
    put_lem (some key) value v =
        Returns-if_at (is_valid kind) _ _ s
          (guarded_write (λ h k. puts h k value) key _ (put-Stages key value) status s v kind)
          (λ e. Returns-some (v, refused (inr e) refl refl))

    -- From a valid store, remove returns without a fault, the store stays valid, and it is refused
    -- (a null key or an invalid kind), or the store is closed, or the kind is of another class, or
    -- the deletion is applied to the view with status Ok, or a code other than Ok is reported and
    -- the view is unchanged.
    pub remove_lem :
        (key : Option Text)
        → IsValid s
        → Returns
            (remove E status kind key s)
            (λ status' t. IsValid t × Written deletes status kind key s status' t)
    unfolding remove remove_
    remove_lem none v = Returns-some (v, refused (inl refl) refl refl)
    remove_lem (some key) v =
        Returns-if_at (is_valid kind) _ _ s
          (guarded_write deletes key _ (delete-Stages key) status s v kind)
          (λ e. Returns-some (v, refused (inr e) refl refl))

    -- From a valid store, singleRemove returns without a fault, the store stays valid, and it is
    -- refused (a null key or an invalid kind), or the store is closed, or the kind is of another
    -- class, or with status Ok the key is gone, unless it was put more than once, when nothing is
    -- said of it, and no other key changes; or a code other than Ok is reported and the view is
    -- unchanged.
    pub single_remove_lem :
        (key : Option Text)
        → IsValid s
        → Returns
            (single_remove E status kind key s)
            (λ status' t. IsValid t × Written single_deletes status kind key s status' t)
    unfolding single_remove single_remove_
    single_remove_lem none v = Returns-some (v, refused (inl refl) refl refl)
    single_remove_lem (some key) v =
        Returns-if_at (is_valid kind) _ _ s
          (guarded_write single_deletes key _ (single_delete-Stages key) status s v kind)
          (λ e. Returns-some (v, refused (inr e) refl refl))
