-- ===== src/Manager/Getting.antt =====
-- get of a manager: one queue for an identifier.
use librocks_dll.Prelude.{
  inl, inr, Bool, true, false, Option, none, some, ◌&&◌, ◌≡◌, refl, ◌∙◌, sym, ap, subst, arith,
}
use librocks_dll.Prelude.Tests.{Bool-cases, if◌then◌else◌}
use librocks_dll.Prelude.Text.{Text, text_eq_refl}
use librocks_dll.Prelude.Map.{find, assign_key, find-assign_key}
use librocks_dll.Prelude.Action.{Returns, Returns-bind, Returns-then, Returns-some, pure, ◌>>◌}
use librocks_dll.Status
use librocks_dll.Status.{IntPtr, assign}
use librocks_dll.Engine.{Engine}
use librocks_dll.Engine.Laws.{Laws}
use librocks_dll.Store.State.{Sys}
use librocks_dll.Store.Frame.{IsValid}
use librocks_dll.Kueue.State.{KueueImpl}
use librocks_dll.Kueue.Recover.{new_kueue}
use librocks_dll.Kueue.Constructed.{Stays, new_kueue-Stays}
use librocks_dll.Manager.Defs.{ManagerSys, is_open, create_queue, found_queue, get}

module _ {W : Type 0} {E : Engine W} (L : Laws E) where
  -- What get leaves: a null with Closed, or the identifier, under which there is a queue from then on.
  pub data Held (status : IntPtr) (id : Text) (s : ManagerSys W) (r : Option Text × IntPtr)
      (t : ManagerSys W) : Type 0 where
    closed :
        is_open s ≡ false → r ≡ (none, assign Status.closed status) → t ≡ s → Held status id s r t
    known :
        (q : KueueImpl)
        → find id s.queues ≡ some q
        → r ≡ (some id, assign Status.ok status)
        → t ≡ s
        → Held status id s r t
    made :
        (q : KueueImpl)
        → find id s.queues ≡ none
        → r ≡ (some id, assign Status.ok status)
        → new_kueue E id s.sys ≡ some (q, t.sys)
        → t.queues ≡ assign_key id q s.queues
        → find id t.queues ≡ some q
        → IsValid t.sys
        → is_open t ≡ true
        → Held status id s r t

  find-same :
      (id : Text) (q : KueueImpl) (s : ManagerSys W) → find id (assign_key id q s.queues) ≡ some q
  find-same id q s =
      find-assign_key id id q s.queues
      ∙ ap (λ b. if b then some q else find id s.queues) (text_eq_refl id)

  and-both : (a b : Bool) → (a && b) ≡ true → (a ≡ true) × (b ≡ true)
  and-both a b e = ground arith

  module _ (status : IntPtr) (id : Text) (s : ManagerSys W) where
    abbrev got : (Bool × IntPtr) → Option ((Option Text × IntPtr) × ManagerSys W)
    got p =
        if p.0
        then (do found_queue E id (find id s.queues); pure (some id, p.1)) s
        else some ((none, p.1), s)

    abbrev with_queue : KueueImpl → Sys W → ManagerSys W
    with_queue q t = record s { sys = t; queues = assign_key id q s.queues }

    entered :
        (r : Option (KueueImpl × Sys W))
        → Returns r (Stays L)
        → Returns
            (elim r as (λ _. Option (Unit {0} × ManagerSys W)) [
              | none ↦ none
              | some (q, t) ↦ some (tt, with_queue q t)
            ])
            (λ _ u.
              (q : KueueImpl) × (t : Sys W) × ((r ≡ some (q, t))
                × ((u ≡ with_queue q t) × Stays L q t)))
    entered none x = absurd x.out
    entered (some (q, t)) x = Returns-some (q, t, (refl, (refl, x.out)))

    create-Held :
        IsValid s.sys
        → is_open s ≡ true
        → find id s.queues ≡ none
        → Returns
            ((do create_queue E id; pure (some id, assign Status.ok status)) s)
            (Held status id s)
    unfolding create_queue
    create-Held v o e =
        let (g, p) = and-both s.has_store s.sys.store.is_open o in
        Returns-bind _ _ _ _ (entered _ (new_kueue-Stays L id s.sys v p))
          (λ _ u (q, t, (c, (y, z))). Returns-some (
            made q e refl (c ∙ ap (λ u. some (q, u.sys)) (sym y)) (ap (λ u. u.queues) y)
              (ap (λ u. find id u.queues) y ∙ find-same id q s)
              (subst IsValid (sym (ap (λ u. u.sys) y)) z.0)
              (ap is_open y ∙ (ap (λ b. b && t.store.is_open) g ∙ z.1))))

    found-Held :
        IsValid s.sys
        → is_open s ≡ true
        → (q : Option KueueImpl) → find id s.queues ≡ q
        → Returns
            ((do found_queue E id q; pure (some id, assign Status.ok status)) s)
            (Held status id s)
    unfolding found_queue
    found-Held v o (some q) e = Returns-then _ _ _ refl (Returns-some (known q e refl refl))
    found-Held v o none e = create-Held v o e

    -- On a manager with a valid store, get returns without a fault. Where the manager is not open it
    -- returns null and reports Closed; where it has a queue of the identifier, it returns this one and
    -- changes nothing; else it enters the queue that the constructor makes for the identifier on
    -- the manager's store, and the manager stays open and valid.
    pub get-Held : IsValid s.sys → Returns (get E status id s) (Held status id s)
    unfolding get
    get-Held v = elim (Bool-cases (is_open s)) [
      | inl o ↦
          subst
            (λ b.
              Returns
                (got (
                  if b
                  then (true, assign Status.ok status)
                  else (false, assign Status.closed status)))
                (Held status id s))
            (sym o) (found-Held v o (find id s.queues) refl)
      | inr o ↦
          subst
            (λ b.
              Returns
                (got (
                  if b
                  then (true, assign Status.ok status)
                  else (false, assign Status.closed status)))
                (Held status id s))
            (sym o) (Returns-some (closed o refl refl))
    ]
