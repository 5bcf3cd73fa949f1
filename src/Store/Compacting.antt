-- ===== src/Store/Compacting.antt =====
-- compactAll on an open store.
use librocks_dll.Prelude.{
  Bool, true, false, some, [], ◌∷◌, ◌≡◌, inl, inr, refl, ◌∙◌, sym, ap, subst, false≢true,
}
use librocks_dll.Prelude.Tests.{pos, is_some, All, Option-cases, if◌then◌else◌}
use librocks_dll.Prelude.Text.{Text}
use librocks_dll.Prelude.Map.{Map}
use librocks_dll.Prelude.Action.{Returns, Returns-then, Returns-mono, Returns-some, ◌>>=◌}
use librocks_dll.Status
use librocks_dll.Status.{IntPtr, assign}
use librocks_dll.Engine.{Engine, status_ok, Handle}
use librocks_dll.Engine.Laws.{Laws}
use librocks_dll.Kind.{KindImpl, kind_impl}
use librocks_dll.Store.State.{Sys, on_db}
use librocks_dll.Store.Maintain.{compact_kind, compact_each, compact_all}
use librocks_dll.Store.Frame.{IsValid}
use librocks_dll.Store.Writes.{with_open-open, assign-assign}

module _ {W : Type 0} {E : Engine W} (L : Laws E) where
  -- The calls of CompactRange, one for each kind in order, up to the first that fails: the world
  -- before and after, and the status.
  pub data Compactions (status : IntPtr) : W → Map KindImpl → W → IntPtr → Type 0 where
    all_done : (w : W) → Compactions status w [] w (assign Status.ok status)
    next :
        (n : Text) (k : KindImpl) (h : Handle) (rest : Map KindImpl) (w w' : W) (status' : IntPtr)
        → k.handle_ ≡ some h
        → status_ok (E.compact_range h w).0 ≡ true
        → Compactions status (E.compact_range h w).1 rest w' status'
        → Compactions status w ((n, k) ∷ rest) w' status'
    failed :
        (n : Text) (k : KindImpl) (h : Handle) (rest : Map KindImpl) (w : W)
        → k.handle_ ≡ some h
        → status_ok (E.compact_range h w).0 ≡ false
        → Compactions status w
            ((n, k) ∷ rest)
            (E.compact_range h w).1
            (assign (pos (E.compact_range h w).0.code) status)

  -- These calls were made, and they left the store and its view as they were.
  pub record Compacted (status : IntPtr) (m : Map KindImpl) (s : Sys W) (status' : IntPtr)
      (t : Sys W) : Type 0 where
    pub calls : Compactions status s.world m t.world status'
    pub store : t.store ≡ s.store
    pub view : L.view t.world ≡ L.view s.world

  abbrev after : Sys W → Handle → Sys W
  after s h = record s { world = (E.compact_range h s.world).1 }

  compact_kind-eq :
      (status : IntPtr) (k : KindImpl) (h : Handle) (s : Sys W)
      → k.handle_ ≡ some h
      → s.store.has_db ≡ true
      → (b : Bool) → status_ok (E.compact_range h s.world).0 ≡ b
      → compact_kind E status (kind_impl k) s
        ≡ some (
          if b
              then (true, status)
              else (false, assign (pos (E.compact_range h s.world).0.code) status),
          after s h,
        )
  unfolding compact_kind on_db ◌>>=◌
  compact_kind-eq status k h s e d true g = rw (e, d, g)
  compact_kind-eq status k h s e d false g = rw (e, d, g)

  go_on :
      (status : IntPtr) (n : Text) (k : KindImpl) (h : Handle) (rest : Map KindImpl) (s : Sys W)
      → k.handle_ ≡ some h
      → s.store.has_db ≡ true
      → Returns
          (compact_each E (assign Status.ok status) rest (after s h))
          (Compacted status rest (after s h))
      → (b : Bool) → status_ok (E.compact_range h s.world).0 ≡ b
      → Returns
          (compact_each E (assign Status.ok status) ((n, k) ∷ rest) s)
          (Compacted status ((n, k) ∷ rest) s)
  unfolding compact_each
  go_on status n k h rest s e d more true g =
      Returns-then _ _ _ (compact_kind-eq (assign Status.ok status) k h s e d true g) (
        Returns-mono _ more (λ st u c. record {
          calls = next n k h rest s.world u.world st e g c.calls;
          store = c.store;
          view = c.view ∙ L.compact-view h s.world;
        }))
  go_on status n k h rest s e d more false g =
      Returns-then _ _ _ (compact_kind-eq (assign Status.ok status) k h s e d false g) (
        subst (λ st. Returns (some (st, after s h)) (Compacted status ((n, k) ∷ rest) s))
          (sym (assign-assign _ Status.ok status))
          (Returns-some (record {
            calls = failed n k h rest s.world e g;
            store = refl;
            view = L.compact-view h s.world;
          })))

  compact_each-Compacted :
      (status : IntPtr) (m : Map KindImpl) (s : Sys W)
      → All (λ e. is_some (e.1).handle_ ≡ true) m
      → s.store.has_db ≡ true
      → Returns (compact_each E (assign Status.ok status) m s) (Compacted status m s)
  unfolding compact_each
  compact_each-Compacted status [] s a d =
      Returns-some (record { calls = all_done s.world; store = refl; view = refl })
  compact_each-Compacted status ((n, k) ∷ rest) s a d = elim (Option-cases k.handle_) [
    | inl e ↦ absurd (false≢true (sym (ap is_some e) ∙ a.0))
    | inr (h, e) ↦
        go_on status n k h rest s e d (compact_each-Compacted status rest (after s h) a.1 d) _ refl
  ]

  -- On an open and valid store whose kinds all have handles, compactAll returns without a fault, and
  -- the store and the view are unchanged. It calls CompactRange for each kind, in the order of the
  -- map, up to the first call that fails; it reports the code of this call, or Ok where none fails.
  pub compact_all_lem :
      (status : IntPtr) (s : Sys W)
      → IsValid s
      → s.store.is_open ≡ true
      → All (λ e. is_some (e.1).handle_ ≡ true) s.store.kinds
      → Returns (compact_all E status s) (Compacted status s.store.kinds s)
  unfolding compact_all
  compact_all_lem status s v o a =
      rw (with_open-open status (λ p. p) (λ st. compact_each E st s.store.kinds) s o)
        (compact_each-Compacted status s.store.kinds s a (v.open-has_db o))
