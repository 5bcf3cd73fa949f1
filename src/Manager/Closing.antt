-- ===== src/Manager/Closing.antt =====
-- close of an open manager.
use librocks_dll.Prelude.{
  Bool, true, false, Option, none, some, [], ◌&&◌, ◌≡◌, refl, ◌∙◌, ap, arith,
}
use librocks_dll.Prelude.Tests.{if◌then◌else◌}
use librocks_dll.Prelude.Action.{bind-eq, ◌>>◌}
use librocks_dll.Engine.{Engine}
use librocks_dll.Store.State.{Sys}
use librocks_dll.Store.Maintain
use librocks_dll.Store.Closing.{after_close, close_lem}
use librocks_dll.Manager.Defs.{ManagerSys, is_open, through_store, close_, close}

module _ {W : Type 0} (E : Engine W) where
  -- no queues, and no store; the store that was deleted is closed
  abbrev pub after_close_all : ManagerSys W → ManagerSys W
  after_close_all s = record s { has_store = false; queues = []; sys = after_close E s.sys }

  and-right : (a b : Bool) → (a && b) ≡ true → b ≡ true
  and-right a b e = ground arith

  destroy-open :
      (s : Sys W) → s.store.is_open ≡ true → Maintain.destroy E s ≡ some (tt, after_close E s)
  unfolding Maintain.destroy
  destroy-open s e =
      ap (λ b. if b then Maintain.close E s else some (tt, s)) e ∙ (close_lem E s e).0

  -- close of an open manager drops every queue, closes the store as the close of the store does, and
  -- leaves the manager without a store. A second close does nothing.
  pub close-manager :
      (s : ManagerSys W)
      → is_open s ≡ true
      → (close E s ≡ some (tt, after_close_all s))
        × (close E (after_close_all s) ≡ some (tt, after_close_all s))
  unfolding close close_
  close-manager s e = (
    ap
          (λ b.
            if b
            then (do
              (λ t. some (tt, record t { queues = [] }))
              through_store E (Maintain.destroy E)
              (λ t. some (tt, record t { has_store = false })))
                s
            else some (tt, s))
          e
        ∙ (bind-eq _ _ s refl
            ∙ bind-eq _ _ _ (
                ap
                  (λ r. elim r as (λ r. Option (Unit {0} × ManagerSys W)) [
                    | none ↦ none
                    | some (a, t) ↦ some (a, record s { queues = []; sys = t })
                  ])
                  (destroy-open s.sys (and-right s.has_store s.sys.store.is_open e)))),
    refl,
  )
