-- ===== src/Store/Ranges.antt =====
-- removeRange on an open store.
use librocks_dll.Prelude.{true, false, some, ◌≡◌, ◌≢◌, refl, ◌∙◌, sym, ap, subst, false≢true}
use librocks_dll.Prelude.Tests.{ℤ, pos, is_some, if◌then◌else◌}
use librocks_dll.Prelude.Text.{Text}
use librocks_dll.Prelude.Action.{
  Returns, Returns-then, Returns-bind, Returns-mono, Returns-some, Returns-if_at, pure,
}
use librocks_dll.Status
use librocks_dll.Status.{IntPtr, assign}
use librocks_dll.Engine.{Engine, EngineStatus, status_ok, Handle}
use librocks_dll.Engine.Laws.{Laws, erase_range}
use librocks_dll.Kind.{KindImpl, kind_impl, is_valid}
use librocks_dll.Store.State.{Sys, deref, on_db-Returns}
use librocks_dll.Store.Write.{remove_range_in, remove_range}
use librocks_dll.Store.Frame.{
  IsValid, Frame-IsValid, Frame, Frame-world, Quiet, Quiet-refl, Quiet-world,
}
use librocks_dll.Store.Writes.{with_open-open, assign-assign}
use librocks_dll.Store.Outcome.{code-ne-ok}

module _ {W : Type 0} {E : Engine W} (L : Laws E) where
  -- The keys of the range are gone, or an error and no change.
  pub data Ranged (h : Handle) (b e : Text) (status : IntPtr) (s : Sys W) (status' : IntPtr)
      (t : Sys W) : Type 0 where
    erased :
        Frame s t
        → L.view t.world ≡ erase_range (L.view s.world) h b e
        → status' ≡ assign Status.ok status
        → Ranged h b e status s status' t
    failed :
        (c : ℤ)
        → c ≢ Status.ok
        → Quiet L s t
        → status' ≡ assign c status
        → Ranged h b e status s status' t

  module _ (k : KindImpl) (h : Handle) (handle : k.handle_ ≡ some h) (b e : Text) (status : IntPtr)
      (s : Sys W) (v : IsValid s) (opened : s.store.is_open ≡ true) where
    abbrev done : Sys W
    done = record s { world = (E.write_delete_range h b e s.world).1 }

    report_failed :
        (r : EngineStatus) (t : Sys W)
        → status_ok r ≡ false
        → Quiet L s t
        → Returns (some (assign (pos r.code) (assign Status.ok status), t)) (Ranged h b e status s)
    report_failed r t f q =
        Returns-some
          (failed (pos r.code) (code-ne-ok r f) q (assign-assign (pos r.code) Status.ok status))

    after_write :
        (r : EngineStatus) (t : Sys W)
        → r ≡ (E.write_delete_range h b e s.world).0
        → t ≡ done
        → Returns
            ((if status_ok r
                then pure (assign Status.ok status)
                else pure (assign (pos r.code) (assign Status.ok status)))
              t)
            (Ranged h b e status s)
    after_write r t x y =
        Returns-if_at (status_ok r) _ _ t
          (λ o. Returns-some (
            erased (subst (λ t. Frame s t) (sym y) (Frame-world s done.world))
              (ap (λ t. L.view t.world) y
                ∙ L.write_delete_range-ok h b e s.world (ap status_ok (sym x) ∙ o))
              refl))
          (λ o. report_failed r t o (
            subst (λ t. Quiet L s t) (sym y)
              (Quiet-world L s _
                (L.write_delete_range-failed h b e s.world (ap status_ok (sym x) ∙ o)))))

    range_in-Ranged :
        Returns (remove_range_in E (assign Status.ok status) (some k) b e s) (Ranged h b e status s)
    unfolding remove_range_in
    range_in-Ranged = Returns-then _ _ _ (ap (λ o. deref o s) handle) (
        Returns-if_at (status_ok (E.batch_delete_range h b e)) _ _ s
          (λ o.
            Returns-bind _ _ _ (λ r t. (r ≡ (E.write_delete_range h b e s.world).0) × (t ≡ done))
              (on_db-Returns _ s (v.open-has_db opened) (refl, refl))
              (λ r t x. after_write r t x.0 x.1))
          (λ o. report_failed (E.batch_delete_range h b e) s o (Quiet-refl L s)))

    Ranged-IsValid : (st : IntPtr) (t : Sys W) → Ranged h b e status s st t → IsValid t
    Ranged-IsValid st t (erased f a x) = Frame-IsValid s t f v
    Ranged-IsValid st t (failed c n q x) = Frame-IsValid s t q.frame v

    -- On an open and valid store, with a kind that has a handle, removeRange returns without a fault
    -- and the store stays valid. The keys from the first one on, below the second one, are removed
    -- from the family, or an error is reported and the view is unchanged.
    pub remove_range_lem :
        Returns
          (remove_range E status (kind_impl k) (some b) (some e) s)
          (λ status' t. IsValid t × Ranged h b e status s status' t)
    unfolding remove_range
    remove_range_lem =
        Returns-if_at (is_valid (kind_impl k)) _ _ s
          (λ g.
            rw (with_open-open status (λ p. p) _ s opened)
              (Returns-mono _ range_in-Ranged (λ st t r. (Ranged-IsValid st t r, r))))
          (λ x. absurd (false≢true (sym x ∙ ap is_some handle)))
