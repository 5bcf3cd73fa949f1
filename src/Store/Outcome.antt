-- ===== src/Store/Outcome.antt =====
-- What put_, remove_ and singleRemove_ do: on every path they return, and either the write is
-- applied, or a code that is not Ok is reported and a reader sees no change.
use librocks_dll.Prelude.{
  true, false, Option, none, some, [], ◌∷◌, ◌≡◌, ◌≢◌, refl, ◌∙◌, subst, sym, arith,
}
use librocks_dll.Prelude.Tests.{ℤ, pos}
use librocks_dll.Prelude.Action.{
  Returns, Returns-bind, Returns-then, Returns-mono, Returns-some, Returns-if_at,
}
use librocks_dll.Status
use librocks_dll.Status.{IntPtr, assign}
use librocks_dll.Engine.{Engine, EngineStatus, status_ok, Handle, Tx}
use librocks_dll.Engine.Laws.{Laws, Write, Applied}
use librocks_dll.Kind.{KindImpl}
use librocks_dll.Store.State.{Sys, on_db-Returns}
use librocks_dll.Store.Write.{commit_staged, write_in, write_kind}
use librocks_dll.Store.Frame.{
  Frame, Frame-trans, Frame-world, Frame-IsValid, IsValid, world_IsValid, Quiet, Quiet-trans,
  Quiet-world, Quiet-refl, reusable_tx-Quiet, delete_if_new_tx-Quiet, occasional_wal_sync-Quiet,
}

pub code-ne-ok : (s : EngineStatus) → status_ok s ≡ false → pos s.code ≢ Status.ok
code-ne-ok s h = ground arith

module _ {W : Type 0} {E : Engine W} (L : Laws E) where
  pub data Outcome (op : Write) (status : IntPtr) (s : Sys W) (status' : IntPtr) (t : Sys W)
      : Type 0 where
    done :
        Frame s t
        → Applied op (L.view s.world) (L.view t.world)
        → status' ≡ status
        → Outcome op status s status' t
    failed :
        Quiet L s t
        → (c : ℤ) → c ≢ Status.ok
        → status' ≡ assign c status
        → Outcome op status s status' t

  -- The call stages the one write, and a reader sees nothing of it yet.
  pub record Stages (stage : Handle → Tx → W → EngineStatus × W) (h : Handle) (op : Write)
      : Type 0 where
    pub view : (t : Tx) (w : W) → L.view (stage h t w).1 ≡ L.view w
    pub staged :
        (t : Tx) (w : W)
        → L.staged w t ≡ []
        → status_ok (stage h t w).0 ≡ true
        → L.staged (stage h t w).1 t ≡ op ∷ []

  -- a quiet step before, and one after
  pub Outcome-before :
      (op : Write) (status status' : IntPtr) (s t u : Sys W)
      → Quiet L s t
      → Outcome op status t status' u
      → Outcome op status s status' u
  Outcome-before op status status' s t u q (done f a e) =
      done (Frame-trans s t u q.frame f) (subst (λ v. Applied op v (L.view u.world)) q.view a) e
  Outcome-before op status status' s t u q (failed r c n e) = failed (Quiet-trans L s t u q r) c n e

  Outcome-after :
      (op : Write) (status status' : IntPtr) (s t u : Sys W)
      → Outcome op status s status' t
      → Quiet L t u
      → Outcome op status s status' u
  Outcome-after op status status' s t u (done f a e) q =
      done (Frame-trans s t u f q.frame) (subst (λ v. Applied op (L.view s.world) v) (sym q.view) a)
        e
  Outcome-after op status status' s t u (failed r c n e) q = failed (Quiet-trans L s t u r q) c n e

  module _ (op : Write) (status : IntPtr) where
    commit_staged-Outcome :
        (t : Tx) (r : EngineStatus) (s : Sys W)
        → IsValid s
        → s.store.has_db ≡ true
        → (status_ok r ≡ true → L.staged s.world t ≡ op ∷ [])
        → Returns (commit_staged E status t r s) (Outcome op status s)
    unfolding commit_staged
    commit_staged-Outcome t r s v h st =
        Returns-if_at (status_ok r) _ _ s
          (λ ok. Returns-then _ _ _ refl (
            Returns-if_at (status_ok (E.tx_commit t s.world).0) _ _ _
              (λ ok'.
                Returns-bind _ _ _ _ (occasional_wal_sync-Quiet L _ (world_IsValid s _ v) h)
                  (λ o u q. Returns-some (
                    Outcome-after op status status s _ u
                      (done (Frame-world s _) (L.commit-ok t op s.world (st ok) ok') refl) q)))
              (λ bad. Returns-some (
                failed (Quiet-world L s _ (L.commit-failed t s.world bad)) _
                  (code-ne-ok (E.tx_commit t s.world).0 bad) refl))))
          (λ bad. Returns-some (failed (Quiet-refl L s) _ (code-ne-ok r bad) refl))

    module _ (stage : Handle → Tx → W → EngineStatus × W) (kind : KindImpl) (h : Handle)
        (handle : kind.handle_ ≡ some h) (stages : Stages stage h op) where
      write_in-Outcome :
          (tx : Option Tx) (s : Sys W)
          → IsValid s
          → s.store.has_db ≡ true
          → ((t : Tx) → tx ≡ some t → L.staged s.world t ≡ [])
          → Returns (write_in E status kind stage tx s) (Outcome op status s)
      unfolding write_in
      write_in-Outcome none s v d empty =
          Returns-some (failed (Quiet-refl L s) Status.no_transaction (λ e. cc) refl)
      write_in-Outcome (some t) s v d empty = rw handle (
          Returns-then _ _ _ refl (
            Returns-then _ _ _ refl (
              Returns-mono _
                (commit_staged-Outcome t _ _ (world_IsValid s _ v) d
                  (stages.staged t s.world (empty t refl)))
                (λ c u o.
                  Outcome-before op status c s _ u (Quiet-world L s _ (stages.view t s.world)) o))))

      -- The body of put_, remove_ and singleRemove_ on an open store.
      pub write_kind-Outcome :
          (s : Sys W)
          → IsValid s
          → s.store.has_db ≡ true
          → Returns (write_kind E status (some kind) stage s) (Outcome op status s)
      unfolding write_kind
      write_kind-Outcome s v d = Returns-bind _ _ _ _ (reusable_tx-Quiet L s d) (λ old u q.
          Returns-bind _ _ _
            (λ tx t. Quiet L s t × ((x : Tx) → tx ≡ some x → L.staged t.world x ≡ []))
            (on_db-Returns _ u (q.frame.has_db ∙ d) (
              Quiet-trans L s u _ q (Quiet-world L u _ (L.begin-view old u.world)),
              λ x e. L.begin-staged old u.world x e,
            ))
            (λ tx t p.
              Returns-bind _ _ _ _
                (write_in-Outcome tx t (Frame-IsValid s t p.0.frame v) (p.0.frame.has_db ∙ d) p.1)
                (λ status' y o. Returns-bind _ _ _ _ (delete_if_new_tx-Quiet L tx y) (λ u' z r.
                  Returns-some (
                    Outcome-before op status status' s t z p.0
                      (Outcome-after op status status' t y z o r))))))
