-- ===== src/Kueue/Fresh.antt =====
-- The constructor on a family with no keys.
use librocks_dll.Prelude.{
  true, false, none, some, [], ◌≡◌, refl, ◌∙◌, sym, ap, subst, false≢true, arith,
}
use librocks_dll.Prelude.Tests.{is_some, if◌then◌else◌}
use librocks_dll.Prelude.Text.{Text, c_str}
use librocks_dll.Prelude.Map.{find}
use librocks_dll.Prelude.Action.{
  Action, Returns, Returns-then, Returns-bind, Returns-bind_eq, Returns-some, Returns-if_at,
  bind-eq, pure,
}
use librocks_dll.Status
use librocks_dll.Engine.{Engine, Handle}
use librocks_dll.Engine.Laws.{Laws, value_of, IsLeast, IsGreatest, IsEmptyFamily}
use librocks_dll.Kind.{KindImpl, kind_impl}
use librocks_dll.Store.State.{Sys, Reply}
use librocks_dll.Store.Kinds.{get_kind_manager, get_or_create_kind, found_or_create}
use librocks_dll.Store.Read.{find_min_key}
use librocks_dll.Store.Frame.{IsValid}
use librocks_dll.Store.Writes.{validate_open-open}
use librocks_dll.Store.Ends
use librocks_dll.Store.Ends.{Ended, Unseated, WithoutIterator, find_min_key_lem, find_max_key_lem}
use librocks_dll.Kueue.State.{KueueImpl, is_ok}
use librocks_dll.Kueue.Recover.{
  blank, read_key, or_min_key, recovered, recover_max, recover_min, new_kueue,
}
use librocks_dll.Kueue.IsQueue.{IsQueue, IsCounted}

recovered-empty : (k : KindImpl) → IsCounted k 0 (recovered (kind_impl k) none none)
unfolding recovered
recovered-empty k = record {
  kind = refl;
  valid = refl;
  count = refl;
  max_key = refl;
  bound = omega arith;
}

recovered-first : (k : KindImpl) → (recovered (kind_impl k) none none).min_key ≡ 0
unfolding recovered
recovered-first k = refl

module _ {W : Type 0} {E : Engine W} (L : Laws E) (k : KindImpl) (h : Handle)
    (handle : k.handle_ ≡ some h) where
  -- the call of findMinKey in the constructor
  abbrev FindsMin : Sys W → Reply → Sys W → Type 0
  FindsMin s r t = find_min_key E (some Status.ok) (kind_impl k) (some 0) s ≡ some (r, t)

  -- An empty queue that starts at the key 0; or RocksDB gives one of the two calls no iterator, and
  -- the queue is not valid.
  pub data Started (s : Sys W) (q : KueueImpl) (t : Sys W) : Type 0 where
    ready : IsQueue L k h [] (record { queue = q; sys = t }) → q.min_key ≡ 0 → Started s q t
    no_min_iterator : WithoutIterator L h s.world → q.is_valid ≡ false → Started s q t
    no_max_iterator :
        (r : Reply) (u : Sys W)
        → FindsMin s r u
        → WithoutIterator L h u.world
        → q.is_valid ≡ false
        → Started s q t

  abbrev after_max : Reply → KueueImpl
  after_max greatest =
      if is_ok greatest.status
      then recovered (kind_impl k) none (read_key greatest.value)
      else record blank { queue_kind = some (kind_impl k); min_key = or_min_key none }

  abbrev after_min : Reply → Action (Sys W) KueueImpl
  after_min smallest =
      if is_ok smallest.status
      then recover_max E (kind_impl k) (read_key smallest.value)
      else pure (record blank { queue_kind = some (kind_impl k) })

  module _ (s : Sys W) (none_there : IsEmptyFamily (L.view s.world) h) where
    last_read :
        (t u : Sys W) (m : Reply)
        → FindsMin s m t
        → IsValid u
        → u.store.is_open ≡ true
        → L.view t.world ≡ L.view s.world
        → L.view u.world ≡ L.view s.world
        → (r : Reply)
        → Ended L
            (IsGreatest (L.view t.world) h)
            (Unseated L E.seek_to_last h t.world)
            (WithoutIterator L h t.world)
            (some Status.ok)
            r
        → Started s (after_max r) u
    last_read t u m f v o et eu r (Ends.at_end b most e) =
        absurd (most.0 (ap value_of (ap (λ f. f h b) et ∙ none_there b)))
    last_read t u m f v o et eu r (Ends.no_key g e) =
        subst (λ r. Started s (after_max r) u) (sym e)
          (ready
            (record {
              store = v;
              opened = o;
              counted = recovered-empty k;
              contains = λ j. ap (λ f. f h j) eu ∙ none_there j;
            })
            (recovered-first k))
    last_read t u m f v o et eu r (Ends.no_iterator g e) =
        no_max_iterator m t f g (ap (λ r. (after_max r).is_valid) e)

    first_read :
        (t : Sys W) (r : Reply)
        → FindsMin s r t
        → IsValid t
        → t.store.is_open ≡ true
        → L.view t.world ≡ L.view s.world
        → Ended L
            (IsLeast (L.view s.world) h)
            (Unseated L E.seek_to_first h s.world)
            (WithoutIterator L h s.world)
            (some Status.ok)
            r
        → Returns (after_min r t) (Started s)
    unfolding recover_max
    first_read t r f v o e (Ends.at_end b least x) = absurd (least.0 (ap value_of (none_there b)))
    first_read t r f v o e (Ends.no_key g x) =
        subst (λ r. Returns (after_min r t) (Started s)) (sym x)
          (Returns-bind _ _ _ _ (find_max_key_lem L k h handle (some Status.ok) 0 t v o) (λ q u x.
            Returns-some (last_read t u r f x.0 (x.1.frame.is_open ∙ o) e (x.1.view ∙ e) q x.2)))
    first_read t r f v o e (Ends.no_iterator g x) =
        subst (λ r. Returns (after_min r t) (Started s)) (sym x)
          (Returns-some (no_min_iterator g refl))

    pub min_read :
        IsValid s → s.store.is_open ≡ true → Returns (recover_min E (kind_impl k) s) (Started s)
    unfolding recover_min
    min_read v o =
        Returns-bind_eq _ _ _ _ (find_min_key_lem L k h handle (some Status.ok) 0 s v o)
          (λ r t f x. first_read t r f x.0 (x.1.frame.is_open ∙ o) x.1.view x.2)

    -- On an open and valid store that knows the kind of the identifier, with a handle and an empty
    -- family, the constructor returns without a fault a valid queue with no message that starts at
    -- the key 0; or the queue is not valid, and RocksDB gave findMinKey or findMaxKey no iterator.
    pub new_kueue-Started :
        (id : Text)
        → IsValid s
        → s.store.is_open ≡ true
        → find (c_str id) s.store.kinds ≡ some k
        → Returns (new_kueue E id s) (Started s)
    unfolding new_kueue get_kind_manager get_or_create_kind
    new_kueue-Started id v o known =
        Returns-then _ _ _ (bind-eq _ _ s (validate_open-open (some Status.ok) s o)) (
          Returns-then _ _ _
            (bind-eq _ _ s (validate_open-open (some Status.ok) s o)
              ∙ ap (λ x. found_or_create E (some Status.ok) (c_str id) x s) known)
            (Returns-if_at (is_some k.handle_) _ _ s (λ e. min_read v o)
              (λ e. absurd (false≢true (sym e ∙ ap is_some handle)))))
