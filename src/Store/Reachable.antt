-- ===== src/Store/Reachable.antt =====
-- The states that a store can reach by puts, removes, gets and closes, in any order.
use librocks_dll.Prelude.{Option, none, some, ◌≡◌, inl, inr, refl, ◌∙◌, sym, ap, subst, false≢true}
use librocks_dll.Prelude.Tests.{Bool-cases, if◌then◌else◌}
use librocks_dll.Prelude.Text.{Text}
use librocks_dll.Prelude.Action.{Returns}
use librocks_dll.Status.{IntPtr}
use librocks_dll.Engine.{Engine}
use librocks_dll.Engine.Laws.{Laws}
use librocks_dll.Kind.{Kind}
use librocks_dll.Store.State.{Sys, SizePtr}
use librocks_dll.Store.Write
use librocks_dll.Store.Read
use librocks_dll.Store.Maintain
use librocks_dll.Store.Frame.{IsValid}
use librocks_dll.Store.Writes.{put_lem, remove_lem, single_remove_lem}
use librocks_dll.Store.Reads.{get_lem}
use librocks_dll.Store.Closing.{after_close, close_lem}

same_state : {W : Type 0} (a b : Sys W) → some a ≡ some b → a ≡ b
same_state a b e = cc

-- A call of the store with its arguments.
pub data Call : Type 0 where
  put : IntPtr → Kind → Option Text → Text → Call
  remove : IntPtr → Kind → Option Text → Call
  single_remove : IntPtr → Kind → Option Text → Call
  get : IntPtr → Kind → SizePtr → Option Text → Call
  close : Call

module _ {W : Type 0} (E : Engine W) where
  -- the state after the call; `none` is a fault
  abbrev pub forget : {A : Type 0} → Option (A × Sys W) → Option (Sys W)
  forget none = none
  forget (some (a, t)) = some t

  abbrev pub step : Call → Sys W → Option (Sys W)
  step (put status kind key value) s = forget (Write.put E status kind key value s)
  step (remove status kind key) s = forget (Write.remove E status kind key s)
  step (single_remove status kind key) s = forget (Write.single_remove E status kind key s)
  step (get status kind n key) s = forget (Read.get E status kind n key s)
  step close s = forget (Maintain.close E s)

  -- `t` is reached from `s` by calls that do not fault.
  pub data Reaches (s : Sys W) : Sys W → Type 0 where
    here : Reaches s s
    there : {p u : Sys W} (c : Call) → Reaches s p → step c p ≡ some u → Reaches s u

module _ {W : Type 0} {E : Engine W} (L : Laws E) where
  abbrev pub IsSound : Option (Sys W) → Type 0
  IsSound r = (u : Sys W) × (r ≡ some u) × IsValid u

  forget-IsSound :
      {A : Type 0} (r : Option (A × Sys W)) {P : A → Sys W → Type 0}
      → Returns r (λ a t. IsValid t × P a t)
      → IsSound (forget E r)
  forget-IsSound none h = absurd h.out
  forget-IsSound (some (a, t)) h = (t, refl, h.out.0)

  close-IsSound : (s : Sys W) → IsValid s → IsSound (step E close s)
  unfolding Maintain.close
  close-IsSound s v = elim (Bool-cases s.store.is_open) [
    | inl o ↦ (
      after_close E s,
      ap (forget E) (close_lem E s o).0,
      record { open-has_db = λ e. absurd (false≢true e); below_batch = v.below_batch },
    )
    | inr c ↦ (s, ap (λ b. forget E (if b then Maintain.close_open E s else some (tt, s))) c, v)
  ]

  step-IsSound : (c : Call) (s : Sys W) → IsValid s → IsSound (step E c s)
  step-IsSound (put status kind key value) s v =
      forget-IsSound _ (put_lem L status kind s key value v)
  step-IsSound (remove status kind key) s v = forget-IsSound _ (remove_lem L status kind s key v)
  step-IsSound (single_remove status kind key) s v =
      forget-IsSound _ (single_remove_lem L status kind s key v)
  step-IsSound (get status kind n key) s v = forget-IsSound _ (get_lem L status kind n key s v)
  step-IsSound close s v = close-IsSound s v

  reached-IsValid : (s t : Sys W) → IsValid s → Reaches E s t → IsValid t
  reached-IsValid s t v here = v
  reached-IsValid s t v (there {p} c r e) =
      let (x, y, z) = step-IsSound c p (reached-IsValid s p v r) in
      subst IsValid (same_state x t (sym y ∙ e)) z

  -- From a valid store, every state that is reached by puts, removes, single removes, gets and
  -- closes is valid, and every such call in it returns without a fault.
  pub Reaches-IsValid :
      (s t : Sys W)
      → IsValid s
      → Reaches E s t
      → IsValid t × ((c : Call) → (u : Sys W) × (step E c t ≡ some u) × IsValid u)
  Reaches-IsValid s t v r =
      (reached-IsValid s t v r, λ c. step-IsSound c t (reached-IsValid s t v r))
