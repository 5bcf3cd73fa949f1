-- ===== src/Store/RoundTrip.antt =====
-- A get after a put.
use librocks_dll.Prelude.{
  ℕ, true, some, ◌≡◌, ◌&&◌, inl, inr, ◌∙◌, sym, ap, subst, false≢true, arith,
}
use librocks_dll.Prelude.Tests.{ℤ, is_some, ◌==◌, if◌then◌else◌}
use librocks_dll.Prelude.Text.{Text, text_eq}
use librocks_dll.Prelude.Action.{Action, Returns, Returns-bind, Returns-some, pure, ◌>>=◌}
use librocks_dll.Status
use librocks_dll.Status.{IntPtr, assign}
use librocks_dll.Engine.{Engine, Handle}
use librocks_dll.Engine.Laws.{Laws, Write, Applied, written}
use librocks_dll.Kind.{KindImpl, Kind, kind_impl}
use librocks_dll.Store.State.{Sys, Reply}
use librocks_dll.Store.Write
use librocks_dll.Store.Read
use librocks_dll.Store.Frame.{IsValid, Quiet, Quiet-refl}
use librocks_dll.Store.Outcome.{Outcome}
use librocks_dll.Store.Writes
use librocks_dll.Store.Writes.{Written, put_lem}
use librocks_dll.Store.Reads
use librocks_dll.Store.Reads.{Found, get_lem}

module _ {W : Type 0} {E : Engine W} (L : Laws E) (k : KindImpl) (h : Handle)
    (handle : k.handle_ ≡ some h) (key : Text) (s : Sys W) (v : IsValid s)
    (opened : s.store.is_open ≡ true) where
  -- With these arguments a write of the interface is run.
  pub Written-open :
      (op : Handle → Text → Write) (c : ℤ) (status' : IntPtr) (t : Sys W)
      → Written L op (some c) (kind_impl k) (some key) s status' t
      → Outcome L (op h key) (some Status.ok) s status' t
  Written-open op c status' t (Writes.refused (inl e) _ _) = cc
  Written-open op c status' t (Writes.refused (inr e) _ _) =
      absurd (false≢true (sym e ∙ ap is_some handle))
  Written-open op c status' t (Writes.closed e _ _) = cc
  Written-open op c status' t (Writes.foreign n e _ _ _) = cc
  Written-open op c status' t (Writes.ran k' h' b e f g o out) =
      let eh : h' ≡ h = cc in
      let eb : b ≡ key = cc in
      subst (λ x. Outcome L (op x key) (some Status.ok) s status' t) eh
        (subst (λ x. Outcome L (op h' x) (some Status.ok) s status' t) eb out)

  pub Outcome-ok :
      (op : Write) (status' : IntPtr) (t : Sys W)
      → Outcome L op (some Status.ok) s status' t
      → status' ≡ some Status.ok
      → Applied op (L.view s.world) (L.view t.world) × (t.store.is_open ≡ true)
  Outcome-ok op status' t (Outcome.done f a e) ok = (a, f.is_open ∙ opened)
  Outcome-ok op status' t (Outcome.failed q c n e) ok = absurd (n (cc))

  -- A get with the kind and a key, on an open store, finds the cell of the view.
  pub Read-open :
      (c : ℤ) (n : ℕ) (r : Reply) (t : Sys W)
      → Reads.Read L (some c) (kind_impl k) (some n) (some key) s r t
      → Found (L.view s.world h key) (some Status.ok) 0 r
  Read-open c n r t (Reads.refused a e _) = ground arith
  Read-open c n r t (Reads.closed e _ _) = cc
  Read-open c n r t (Reads.foreign m e _ _ _) = cc
  Read-open c n r t (Reads.ran k' h' b e f g o q out) =
      let eh : h' ≡ h = cc in
      let eb : b ≡ key = cc in
      subst (λ x. Found (L.view s.world x key) (some Status.ok) 0 r) eh
        (subst (λ x. Found (L.view s.world h' x) (some Status.ok) 0 r) eb out)

  pub Read-Quiet :
      (c : ℤ) (n : ℕ) (r : Reply) (t : Sys W)
      → Reads.Read L (some c) (kind_impl k) (some n) (some key) s r t
      → Quiet L s t
  Read-Quiet c n r t (Reads.refused a e q) = subst (λ x. Quiet L s x) (sym q) (Quiet-refl L s)
  Read-Quiet c n r t (Reads.closed e _ _) = cc
  Read-Quiet c n r t (Reads.foreign m e _ _ _) = cc
  Read-Quiet c n r t (Reads.ran k' h' b e f g o q out) = q

module _ {W : Type 0} {E : Engine W} (L : Laws E) where
  -- put, and then get with another kind and key
  unfoldable pub put_then_get :
      ℤ → Kind → Text → Text → Kind → Text → Action (Sys W) (IntPtr × Reply)
  put_then_get c kind key value kind' key' = do
    st ← Write.put E (some c) kind (some key) value
    r ← Read.get E (some c) kind' (some 0) (some key')
    pure (st, r)

  -- On an open and valid store, with two kinds that have handles: a get after an accepted put finds
  -- the value that was put, if it asks for that family and key, and else what was there before the
  -- put; or it reports an error of the engine.
  pub get-put :
      (c : ℤ) (k k' : KindImpl) (h h' : Handle) (key key' value : Text) (s : Sys W)
      → k.handle_ ≡ some h
      → k'.handle_ ≡ some h'
      → IsValid s
      → s.store.is_open ≡ true
      → Returns (put_then_get c (kind_impl k) key value (kind_impl k') key' s) (λ p t.
        p.0 ≡ some Status.ok
        → Found
            (if h == h' && text_eq key key'
              then written value (L.view s.world h key)
              else L.view s.world h' key')
            (some Status.ok)
            0
            p.1)
  unfolding put_then_get
  get-put c k k' h h' key key' value s e e' v o =
      Returns-bind _ _ _ _ (put_lem L (some c) (kind_impl k) s (some key) value v) (λ st t w.
        Returns-bind _ _ _ _ (get_lem L (some c) (kind_impl k') (some 0) (some key') t w.0)
          (λ r u x. Returns-some λ ok.
            let (a, o') =
              Outcome-ok L k h e key s v o _ st t (Written-open L k h e key s v o _ c st t w.1)
                ok in
            subst (λ f. Found (f h' key') (some Status.ok) 0 r) a
              (Read-open L k' h' e' key' t w.0 o' c 0 r u x.1)))
