-- ===== src/Kueue/Clear.antt =====
-- clear: every message is dropped, or the loop stops at the first error.
use librocks_dll.Prelude.{
  Bool, true, false, some, List, [], ◌∷◌, ◌≡◌, refl, ◌∙◌, sym, ap, subst, false≢true, arith,
}
use librocks_dll.Prelude.Tests.{ℤ, length}
use librocks_dll.Prelude.Text.{Text}
use librocks_dll.Prelude.Action.{
  Action, Returns, Returns-bind, Returns-then, Returns-some, Returns-if, Returns-mono, pure, ◌>>=◌,
}
use librocks_dll.Status
use librocks_dll.Status.{IntPtr}
use librocks_dll.Engine.{Engine, Handle}
use librocks_dll.Engine.Laws.{Laws}
use librocks_dll.Kind.{KindImpl, kind_impl}
use librocks_dll.Kueue.State.{QueueSys, is_positive, local_state, hand_back}
use librocks_dll.Kueue.Operations.{clear_round, clear_loop, clear}
use librocks_dll.Kueue.IsQueue.{IsQueue}
use librocks_dll.Kueue.Fifo.{local_state-some, get_kind_ref-eq}
use librocks_dll.Kueue.Take.{positive_count}
use librocks_dll.Kueue.Drain
use librocks_dll.Kueue.Drain.{Round, Cleared, clear_round-Round}

module _ {W : Type 0} {E : Engine W} (L : Laws E) (k : KindImpl) (h : Handle)
    (handle : k.handle_ ≡ some h) where
  -- a message before those that a loop dropped or left
  Cleared-cons :
      (v : Text) (rest : List Text) (state state' : IntPtr) (t : QueueSys W)
      → Cleared L k h handle rest (some Status.ok) state' t
      → Cleared L k h handle (v ∷ rest) state state' t
  Cleared-cons v rest state state' t (Drain.was_empty e f q) = Drain.emptied f q
  Cleared-cons v rest state state' t (Drain.emptied f q) = Drain.emptied f q
  Cleared-cons v rest state state' t (Drain.stopped front left e c n f q) =
      Drain.stopped (v ∷ front) left (ap (λ r. v ∷ r) e) c n f q

  clear_next :
      (v : Text) (rest : List Text) (c : ℤ) (p : Bool × IntPtr) (t : QueueSys W)
      → ((u : QueueSys W)
          → IsQueue L k h rest u
          → Returns
              (clear_loop E (length rest) (kind_impl k) (some Status.ok) u)
              (Cleared L k h handle rest (some Status.ok)))
      → Round L k h handle v rest p t
      → Returns
          (elim p.0 as (λ b. Action (QueueSys W) IntPtr) [
            | true ↦ clear_loop E (length rest) (kind_impl k) p.1
            | false ↦ pure p.1
          ]
            t)
          (Cleared L k h handle (v ∷ rest) (some c))
  clear_next v rest c p t next (Drain.gone e q) =
      subst
        (λ p.
          Returns
            (elim p.0 as (λ b. Action (QueueSys W) IntPtr) [
              | true ↦ clear_loop E (length rest) (kind_impl k) p.1
              | false ↦ pure p.1
            ]
              t)
            (Cleared L k h handle (v ∷ rest) (some c)))
        (sym e) (Returns-mono _ (next t q) (λ st u x. Cleared-cons v rest (some c) st u x))
  clear_next v rest c p t next (Drain.kept d n e q) =
      subst
        (λ p.
          Returns
            (elim p.0 as (λ b. Action (QueueSys W) IntPtr) [
              | true ↦ clear_loop E (length rest) (kind_impl k) p.1
              | false ↦ pure p.1
            ]
              t)
            (Cleared L k h handle (v ∷ rest) (some c)))
        (sym e) (Returns-some (Drain.stopped [] (v ∷ rest) refl d n refl q))

  clear_loop-Cleared :
      (items : List Text) (c : ℤ) (s : QueueSys W)
      → IsQueue L k h items s
      → Returns
          (clear_loop E (length items) (kind_impl k) (some c) s)
          (Cleared L k h handle items (some c))
  unfolding clear_loop
  clear_loop-Cleared [] c s q = Returns-some (Drain.was_empty refl refl q)
  clear_loop-Cleared (v ∷ rest) c s q =
      subst
        (λ b.
          Returns
            (elim b [
              | false ↦ some (some c, s)
              | true ↦
                  (do
                    (more, state') ← clear_round E (kind_impl k) (some c)
                    elim more [
                      | true ↦ clear_loop E (length rest) (kind_impl k) state'
                      | false ↦ pure state'
                    ])
                    s
            ])
            (Cleared L k h handle (v ∷ rest) (some c)))
        (sym (
          ap is_positive q.counted.count
          ∙ positive_count (length rest) (omega (arith, q.counted.bound))))
        (Returns-bind _ _ _ _ (clear_round-Round L k h handle v rest s q c)
          (λ p t r. clear_next v rest c p t (clear_loop-Cleared rest Status.ok) r))

  -- On a valid queue of an open store, clear ends without a fault. It drops every message, with Ok,
  -- or with the status as it was where there is none; or it stops at the first error, which it
  -- reports, and then the messages from there on are left.
  pub clear-IsQueue :
      (items : List Text) (status : IntPtr) (s : QueueSys W)
      → IsQueue L k h items s
      → Returns (clear E status s) (λ status' t.
        (state : IntPtr) × (status' ≡ hand_back status state)
        × Cleared L k h handle items (local_state status) state t)
  unfolding clear
  clear-IsQueue items status s q =
      Returns-if s.queue.is_valid
        (λ e. Returns-then _ _ _ (get_kind_ref-eq (kind_impl k) s q.counted.kind) (
          Returns-bind _ _ _ _
            (subst
              (λ n.
                Returns (clear_loop E n (kind_impl k) (local_state status) s)
                  (Cleared L k h handle items (local_state status)))
              (sym q.counted.count)
              (let (c, e') = local_state-some status in
                subst
                  (λ p.
                    Returns (clear_loop E (length items) (kind_impl k) p s)
                      (Cleared L k h handle items p))
                  (sym e') (clear_loop-Cleared items c s q)))
            (λ st t x. Returns-some (st, refl, x))))
        (λ e. absurd (false≢true (sym e ∙ q.counted.valid)))
