-- ===== src/Kueue/Reopen.antt =====
-- The constructor on a store that holds the messages of an earlier queue.
use librocks_dll.Prelude.{
  ℕ, ◌+◌, ◌<◌, ◌^◌, true, false, Option, none, some, List, [], ◌∷◌, ◌≡◌, refl, ◌∙◌, sym, ap, subst,
  false≢true,
}
use librocks_dll.Prelude.Tests.{length, is_some, if◌then◌else◌}
use librocks_dll.Prelude.Text.{Text, c_str}
use librocks_dll.Prelude.Map.{find}
use librocks_dll.Prelude.Action.{
  Action, Returns, Returns-then, Returns-bind, Returns-bind_eq, Returns-some, Returns-if_at,
  bind-eq, pure,
}
use librocks_dll.Status
use librocks_dll.Status.{IntPtr, assign}
use librocks_dll.Engine.{Engine, Handle}
use librocks_dll.Engine.Laws.{Laws, IsLeast, IsGreatest}
use librocks_dll.Kind.{KindImpl, kind_impl}
use librocks_dll.Store.State.{Sys, Reply}
use librocks_dll.Store.Kinds.{get_kind_manager, get_or_create_kind, found_or_create}
use librocks_dll.Store.Read.{find_min_key}
use librocks_dll.Store.Frame.{IsValid}
use librocks_dll.Store.Writes.{validate_open-open}
use librocks_dll.Store.Reads.{copied}
use librocks_dll.Store.Ends
use librocks_dll.Store.Ends.{Ended, Unseated, WithoutIterator, find_min_key_lem, find_max_key_lem}
use librocks_dll.Kueue.State.{KueueImpl, is_ok}
use librocks_dll.Kueue.Recover.{
  blank, read_key, or_min_key, recovered, recover_max, recover_min, new_kueue,
}
use librocks_dll.Kueue.Contents.{expected, Contains}
use librocks_dll.Kueue.IsQueue.{IsQueue}
use librocks_dll.Kueue.Recovered.{recovered-IsCounted}

module _ {W : Type 0} {E : Engine W} (L : Laws E) (k : KindImpl) (h : Handle)
    (handle : k.handle_ ≡ some h) (lo : ℕ) (items : List Text) (bound : lo + length items < 2 ^ 63)
    (some_items : 0 < length items) where
  -- the call of findMinKey in the constructor
  abbrev pub FindsMin : Sys W → Reply → Sys W → Type 0
  FindsMin s r t = find_min_key E (some Status.ok) (kind_impl k) (some 0) s ≡ some (r, t)

  -- The queue with its messages is back; or RocksDB gives one of the two calls no iterator, and the
  -- queue is not valid; or the iterator of one has no key after its seek, on a family that the view
  -- says has one.
  pub data Reopened (s : Sys W) (q : KueueImpl) (t : Sys W) : Type 0 where
    back : IsQueue L k h items (record { queue = q; sys = t }) → q.min_key ≡ lo → Reopened s q t
    no_min_iterator : WithoutIterator L h s.world → q.is_valid ≡ false → Reopened s q t
    no_max_iterator :
        (r : Reply) (u : Sys W)
        → FindsMin s r u
        → WithoutIterator L h u.world
        → q.is_valid ≡ false
        → Reopened s q t
    no_first : Unseated L E.seek_to_first h s.world → Reopened s q t
    no_last :
        (r : Reply) (u : Sys W)
        → FindsMin s r u
        → Unseated L E.seek_to_last h u.world
        → Reopened s q t

  abbrev after_max : Option ℕ → Reply → KueueImpl
  after_max smallest greatest =
      if is_ok greatest.status
      then recovered (kind_impl k) smallest (read_key greatest.value)
      else record blank { queue_kind = some (kind_impl k); min_key = or_min_key smallest }

  after_max-eq :
      (smallest : Option ℕ) (b : Text)
      → after_max smallest (copied (some Status.ok) 0 b)
        ≡ recovered (kind_impl k) smallest (read_key (some b))
  after_max-eq smallest [] = refl
  after_max-eq smallest (c ∷ b) = refl

  abbrev after_min : Reply → Action (Sys W) KueueImpl
  after_min smallest =
      if is_ok smallest.status
      then recover_max E (kind_impl k) (read_key smallest.value)
      else pure (record blank { queue_kind = some (kind_impl k) })

  after_min-eq :
      (b : Text)
      → after_min (copied (some Status.ok) 0 b) ≡ recover_max E (kind_impl k) (read_key (some b))
  after_min-eq [] = refl
  after_min-eq (c ∷ b) = refl

  module _ (s : Sys W) (contains : Contains (L.view s.world) h lo items) where
    last_read :
        (smallest : Text)
        → IsLeast (L.view s.world) h smallest
        → (t u : Sys W) (m : Reply) → FindsMin s m t
        → IsValid u
        → u.store.is_open ≡ true
        → L.view t.world ≡ L.view s.world
        → L.view u.world ≡ L.view s.world
        → (r : Reply)
        → Ended L
            (IsGreatest (L.view t.world) h)
            (Unseated L E.seek_to_last h t.world)
            (WithoutIterator L h t.world)
            (some Status.ok)
            r
        → Reopened s (after_max (read_key (some smallest)) r) u
    last_read smallest least t u m f v o et eu r (Ends.at_end b most e) =
        let numbers =
          recovered-IsCounted k (L.view s.world) h lo items smallest b contains bound some_items
            least (subst (λ f. IsGreatest f h b) et most) in
        let q = recovered (kind_impl k) (read_key (some smallest)) (read_key (some b)) in
        subst (λ q. Reopened s q u)
          (sym (ap (after_max (read_key (some smallest))) e ∙ after_max-eq _ b))
          (back
            (record {
              store = v;
              opened = o;
              counted = numbers.0;
              contains =
                  subst (λ lo. (j : Text) → L.view u.world h j ≡ expected lo items j)
                    (sym numbers.1) (λ j. ap (λ f. f h j) eu ∙ contains j);
            })
            numbers.1)
    last_read smallest least t u m f v o et eu r (Ends.no_key g e) = no_last m t f g
    last_read smallest least t u m f v o et eu r (Ends.no_iterator g e) =
        no_max_iterator m t f g (ap (λ r. (after_max (read_key (some smallest)) r).is_valid) e)

    max_read :
        (smallest : Text)
        → IsLeast (L.view s.world) h smallest
        → (t : Sys W) (m : Reply) → FindsMin s m t
        → IsValid t
        → t.store.is_open ≡ true
        → L.view t.world ≡ L.view s.world
        → Returns (recover_max E (kind_impl k) (read_key (some smallest)) t) (Reopened s)
    unfolding recover_max
    max_read smallest least t m f v o e =
        Returns-bind _ _ _ _ (find_max_key_lem L k h handle (some Status.ok) 0 t v o) (λ r u x.
          Returns-some
            (last_read smallest least t u m f x.0 (x.1.frame.is_open ∙ o) e (x.1.view ∙ e) r x.2))

    max_none :
        Unseated L E.seek_to_first h s.world
        → (t : Sys W) → IsValid t
        → t.store.is_open ≡ true
        → Returns (recover_max E (kind_impl k) none t) (Reopened s)
    unfolding recover_max
    max_none g t v o =
        Returns-bind _ _ _ _ (find_max_key_lem L k h handle (some Status.ok) 0 t v o)
          (λ r u x. Returns-some (no_first g))

    first_read :
        (t : Sys W) (r : Reply)
        → FindsMin s r t
        → IsValid t
        → t.store.is_open ≡ true
        → L.view t.world ≡ L.view s.world
        → Ended L
            (IsLeast (L.view s.world) h)
            (Unseated L E.seek_to_first h s.world)
            (WithoutIterator L h s.world)
            (some Status.ok)
            r
        → Returns (after_min r t) (Reopened s)
    first_read t r f v o e (Ends.at_end b least x) =
        subst (λ m. Returns (m t) (Reopened s)) (sym (ap after_min x ∙ after_min-eq b))
          (max_read b least t r f v o e)
    first_read t r f v o e (Ends.no_key g x) =
        subst (λ r. Returns (after_min r t) (Reopened s)) (sym x) (max_none g t v o)
    first_read t r f v o e (Ends.no_iterator g x) =
        subst (λ r. Returns (after_min r t) (Reopened s)) (sym x)
          (Returns-some (no_min_iterator g refl))

    min_read :
        IsValid s → s.store.is_open ≡ true → Returns (recover_min E (kind_impl k) s) (Reopened s)
    unfolding recover_min
    min_read v o =
        Returns-bind_eq _ _ _ _ (find_min_key_lem L k h handle (some Status.ok) 0 s v o)
          (λ r t f x. first_read t r f x.0 (x.1.frame.is_open ∙ o) x.1.view x.2)

    -- On an open and valid store that knows the kind of the identifier, with a handle, and whose
    -- family holds at least one message, all under 63-bit keys in a row: the constructor returns
    -- without a fault, and the queue is back with these messages, from the first key on. Else it is
    -- not valid, and RocksDB gave findMinKey or findMaxKey no iterator; or the iterator of one of
    -- them has no key after its seek.
    pub new_kueue-Reopened :
        (id : Text)
        → IsValid s
        → s.store.is_open ≡ true
        → find (c_str id) s.store.kinds ≡ some k
        → Returns (new_kueue E id s) (Reopened s)
    unfolding new_kueue get_kind_manager get_or_create_kind
    new_kueue-Reopened id v o known =
        Returns-then _ _ _ (bind-eq _ _ s (validate_open-open (some Status.ok) s o)) (
          Returns-then _ _ _
            (bind-eq _ _ s (validate_open-open (some Status.ok) s o)
              ∙ ap (λ x. found_or_create E (some Status.ok) (c_str id) x s) known)
            (Returns-if_at (is_some k.handle_) _ _ s (λ e. min_read v o)
              (λ e. absurd (false≢true (sym e ∙ ap is_some handle)))))
