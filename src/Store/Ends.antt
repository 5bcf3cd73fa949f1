-- ===== src/Store/Ends.antt =====
-- findMinKey and findMaxKey on an open store.
use librocks_dll.Prelude.{
  ℕ, Bool, true, false, Option, none, some, ◌≡◌, refl, ◌∙◌, sym, ap, subst, false≢true,
}
use librocks_dll.Prelude.Tests.{is_some, if◌then◌else◌}
use librocks_dll.Prelude.Text.{Text}
use librocks_dll.Prelude.Action.{
  Action, Returns, Returns-bind, Returns-then, Returns-mono, Returns-some, Returns-if_at, pure,
}
use librocks_dll.Status
use librocks_dll.Status.{IntPtr, assign}
use librocks_dll.Engine.{Engine, Handle, Iter}
use librocks_dll.Engine.Laws.{Laws, IsLeast, IsGreatest}
use librocks_dll.Kind.{KindImpl, kind_impl, is_valid}
use librocks_dll.Store.State.{Sys, Reply, deref, on_db-Returns}
use librocks_dll.Store.Read.{
  null_reply, copy_out, read_end, find_end_open, find_end_kind, find_end, find_min_key,
  find_max_key,
}
use librocks_dll.Store.Frame.{IsValid, Frame-IsValid, Quiet, Quiet-world, Quiet-trans}
use librocks_dll.Store.Writes.{with_open-open}
use librocks_dll.Store.Reads.{copied, copy_out_lem}

module _ {W : Type 0} {E : Engine W} (L : Laws E) where
  -- After the seek the iterator of the family has no key.
  abbrev pub Unseated : (Iter → W → W) → Handle → W → Type 0
  Unseated seek h w =
      (i : Iter) × ((E.new_iterator h w).0 ≡ some i)
      × (E.iter_valid i (seek i (E.new_iterator h w).1) ≡ false)

  -- RocksDB gives no iterator of the family.
  abbrev pub WithoutIterator : Handle → W → Type 0
  WithoutIterator h w = (E.new_iterator h w).0 ≡ none

  -- The key at an end of the family, or no key, or no iterator.
  pub data Ended (End : Text → Type 0) (NoKey NoIterator : Type 0) (status : IntPtr) (r : Reply)
      : Type 0 where
    at_end : (b : Text) → End b → r ≡ copied status 0 b → Ended End NoKey NoIterator status r
    no_key : NoKey → r ≡ null_reply status (some 0) → Ended End NoKey NoIterator status r
    no_iterator :
        NoIterator
        → r ≡ null_reply (assign Status.no_iterator status) (some 0)
        → Ended End NoKey NoIterator status r

  module _ (status : IntPtr) (End : Text → Type 0) (NoKey NoIterator : Type 0) (seek : Iter → W → W)
      (i : Iter) (s : Sys W) (calm : (w : W) → L.view (seek i w) ≡ L.view w)
      (ends : E.iter_valid i (seek i s.world) ≡ true → End (E.iter_key i (seek i s.world)))
      (gone : E.iter_valid i (seek i s.world) ≡ false → NoKey) where
    abbrev sought : Sys W
    sought = record s { world = seek i s.world }

    Ends : Reply → Sys W → Type 0
    Ends r t = Quiet L s t × Ended End NoKey NoIterator status r

    sought-Ends :
        (b : Bool)
        → E.iter_valid i (seek i s.world) ≡ b
        → Returns
            (if b
              then copy_out status (some 0) (E.iter_key i (seek i s.world)) sought
              else pure (null_reply status (some 0)) sought)
            Ends
    unfolding Ends
    sought-Ends true e =
        copy_out_lem status 0 _ sought (Quiet-world L s _ (calm s.world), at_end _ (ends e) refl)
    sought-Ends false e = Returns-some (Quiet-world L s _ (calm s.world), no_key (gone e) refl)

    read_end-Ends : Returns (read_end E status (some 0) seek i s) Ends
    unfolding read_end Ends
    read_end-Ends = Returns-then _ _ _ refl (
        Returns-bind _ _ _ Ends (sought-Ends _ refl) (λ r t x. Returns-then _ _ _ refl (
          Returns-some
            (Quiet-trans L s t _ x.0 (Quiet-world L t _ (L.delete_iter-view i t.world)), x.1))))

  module _ (k : KindImpl) (h : Handle) (handle : k.handle_ ≡ some h) (status : IntPtr) (n : ℕ)
      (s : Sys W) (v : IsValid s) (opened : s.store.is_open ≡ true) (End : Text → Type 0)
      (seek : Iter → W → W) (calm : (i : Iter) (w : W) → L.view (seek i w) ≡ L.view w)
      (ends : (i : Iter)
        → (E.new_iterator h s.world).0 ≡ some i
        → E.iter_valid i (seek i (E.new_iterator h s.world).1) ≡ true
        → End (E.iter_key i (seek i (E.new_iterator h s.world).1))) where
    with_iterator :
        (status : IntPtr) (it : Option Iter)
        → (E.new_iterator h s.world).0 ≡ it
        → (t : Sys W) → t ≡ record s { world = (E.new_iterator h s.world).1 }
        → Returns
            (elim it as (λ o. Action (Sys W) Reply) [
              | none ↦ pure (null_reply (assign Status.no_iterator status) (some 0))
              | some i ↦ read_end E status (some 0) seek i
            ]
              t)
            (λ r u.
              Quiet L s u
              × Ended End (Unseated seek h s.world) (WithoutIterator h s.world) status r)
    with_iterator status none e t x = Returns-some (
      subst (λ t. Quiet L s t) (sym x) (Quiet-world L s _ (L.iterator-view h s.world)),
      no_iterator e refl,
    )
    with_iterator status (some i) e t x =
        subst
          (λ t. Returns (read_end E status (some 0) seek i t) (λ r u.
            Quiet L s u × Ended End (Unseated seek h s.world) (WithoutIterator h s.world) status r))
          (sym x)
          (Returns-mono _
            (read_end-Ends status End (Unseated seek h s.world) (WithoutIterator h s.world) seek i _
              (calm i) (ends i e) (λ g. (i, e, g)))
            (λ r u y.
              unfold Ends in
              (Quiet-trans L s _ u (Quiet-world L s _ (L.iterator-view h s.world)) y.0, y.1)))

    find_open :
        (status : IntPtr)
        → Returns (find_end_open E status k (some 0) seek s) (λ r u.
          Quiet L s u × Ended End (Unseated seek h s.world) (WithoutIterator h s.world) status r)
    unfolding find_end_open
    find_open status = Returns-then _ _ _ (ap (λ o. deref o s) handle) (
        Returns-bind _ _ _
          (λ it t.
            ((E.new_iterator h s.world).0 ≡ it)
            × (t ≡ record s { world = (E.new_iterator h s.world).1 }))
          (on_db-Returns _ s (v.open-has_db opened) (refl, refl))
          (λ it t x. with_iterator status it x.0 t x.1))

    find_end-Ends : Returns (find_end E status (kind_impl k) (some n) seek s) (λ r t.
        IsValid t
        × Quiet L s t
        × Ended End
            (Unseated seek h s.world)
            (WithoutIterator h s.world)
            (assign Status.ok status)
            r)
    unfolding find_end find_end_kind
    find_end-Ends =
        Returns-if_at (is_valid (kind_impl k)) _ _ s
          (λ g. Returns-then _ _ _ refl (
            rw
              (with_open-open status (λ p. null_reply p (some 0))
                (λ st. find_end_open E st k (some 0) seek) s opened)
              (Returns-mono _ (find_open (assign Status.ok status))
                (λ r t x. (Frame-IsValid s t x.0.frame v, x.0, x.1)))))
          (λ e. absurd (false≢true (sym e ∙ ap is_some handle)))

  module _ (k : KindImpl) (h : Handle) (handle : k.handle_ ≡ some h) (status : IntPtr) (n : ℕ)
      (s : Sys W) (v : IsValid s) (opened : s.store.is_open ≡ true) where
    -- On an open and valid store, with a kind that has a handle and a `resultLen` that is not null,
    -- findMinKey returns without a fault, the store stays valid and the view is unchanged. It finds
    -- the least key of the family, or no key, if its iterator has none after the seek, with the
    -- status Ok; or it reports NoIterator, if RocksDB gives it none.
    pub find_min_key_lem : Returns (find_min_key E status (kind_impl k) (some n) s) (λ r t.
        IsValid t
        × Quiet L s t
        × Ended
            (IsLeast (L.view s.world) h)
            (Unseated E.seek_to_first h s.world)
            (WithoutIterator h s.world)
            (assign Status.ok status)
            r)
    unfolding find_min_key
    find_min_key_lem =
        find_end-Ends k h handle status n s v opened (IsLeast (L.view s.world) h) E.seek_to_first
          L.first-view (λ i e x. L.first-key h s.world i e x)

    -- On an open and valid store, with a kind that has a handle and a `resultLen` that is not null,
    -- findMaxKey returns without a fault, the store stays valid and the view is unchanged. It finds
    -- the greatest key of the family, or no key, if its iterator has none after the seek, with the
    -- status Ok; or it reports NoIterator, if RocksDB gives it none.
    pub find_max_key_lem : Returns (find_max_key E status (kind_impl k) (some n) s) (λ r t.
        IsValid t
        × Quiet L s t
        × Ended
            (IsGreatest (L.view s.world) h)
            (Unseated E.seek_to_last h s.world)
            (WithoutIterator h s.world)
            (assign Status.ok status)
            r)
    unfolding find_max_key
    find_max_key_lem =
        find_end-Ends k h handle status n s v opened (IsGreatest (L.view s.world) h) E.seek_to_last
          L.last-view (λ i e x. L.last-key h s.world i e x)
