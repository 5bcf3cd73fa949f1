-- ===== src/Kueue/Fifo.antt =====
-- put and take of a queue: first in, first out.
use librocks_dll.Prelude.{
  suc, ◌+◌, ◌<◌, ◌^◌, true, none, some, List, [], ◌∷◌, ◌++◌, ◌≡◌, ◌≢◌, refl, ◌∙◌, sym, ap, subst,
  false≢true, arith,
}
use librocks_dll.Prelude.Tests.{ℤ, length, length-append, if◌then◌else◌}
use librocks_dll.Prelude.Text.{Text}
use librocks_dll.Prelude.Action.{
  Action, Returns, Returns-then, Returns-some, Returns-if, pure, ◌>>◌,
}
use librocks_dll.Status
use librocks_dll.Status.{IntPtr, assign}
use librocks_dll.Engine.{Engine, Handle}
use librocks_dll.Engine.Laws.{Laws, puts, Applied}
use librocks_dll.Codec.Bytes.{put_u64_be}
use librocks_dll.Kind.{KindImpl, Kind, kind_impl}
use librocks_dll.Store.State.{Sys}
use librocks_dll.Store.Frame.{IsValid, Quiet}
use librocks_dll.Store.Outcome.{Outcome}
use librocks_dll.Store.Writes
use librocks_dll.Store.Writes.{put_lem, Outcome-IsValid}
use librocks_dll.Store.RoundTrip.{Written-open}
use librocks_dll.Store.Updates.{int_ne}
use librocks_dll.Kueue.State.{
  QueueSys, inc64, dec64, is_ok, local_state, hand_back, modify_queue, in_store-Returns,
  get_kind_ref,
}
use librocks_dll.Kueue.Operations.{added, put_valid, put}
use librocks_dll.Kueue.IsQueue.{IsQueue, IsCounted, IsCounted-added, IsCounted-undone, Contains-put}

pub local_state-some : (status : IntPtr) → (c : ℤ) × (local_state status ≡ some c)
local_state-some none = (Status.ok, refl)
local_state-some (some c) = (c, refl)

pub get_kind_ref-eq :
    {W : Type 0} (k : Kind) (s : QueueSys W)
    → s.queue.queue_kind ≡ some k
    → get_kind_ref s ≡ some (k, s)
get_kind_ref-eq k s e = ap (λ o. elim o [ none ↦ none | some k ↦ some (k, s) ]) e

module _ {W : Type 0} {E : Engine W} (L : Laws E) (k : KindImpl) (h : Handle)
    (handle : k.handle_ ≡ some h) where
  -- What a put leaves: the message at the end, or an error and the same messages.
  pub data Added (items : List Text) (value : Text) (status : IntPtr) (s : QueueSys W)
      (status' : IntPtr) (t : QueueSys W) : Type 0 where
    stored :
        IsQueue L k h (items ++ value ∷ []) t
        → t.queue.max_key ≡ s.queue.max_key + 1
        → status' ≡ hand_back status (some Status.ok)
        → Added items value status s status' t
    refused :
        (c : ℤ)
        → c ≢ Status.ok
        → IsQueue L k h items t
        → t.queue.max_key ≡ s.queue.max_key
        → status' ≡ hand_back status (some c)
        → Added items value status s status' t

  module _ (items : List Text) (value : Text) (status : IntPtr) (s : QueueSys W)
      (q : IsQueue L k h items s) (room : s.queue.min_key + suc (length items) < 2 ^ 63) where
    stored_queue :
        (u : Sys W)
        → IsValid u
        → u.store.is_open ≡ true
        → Applied (puts h (put_u64_be s.queue.max_key) value) (L.view s.sys.world) (L.view u.world)
        → IsQueue L k h (items ++ value ∷ []) (record s {
          queue = added (record s.queue { max_key = inc64 s.queue.max_key });
          sys = u;
        })
    stored_queue u v o a = record {
      store = v;
      opened = o;
      counted =
          subst (λ n. IsCounted k n (added (record s.queue { max_key = inc64 s.queue.max_key })))
            (sym (length-append items (value ∷ []) ∙ omega arith))
            (IsCounted-added k (length items) s.queue q.counted room);
      contains =
          Contains-put (L.view s.sys.world) (L.view u.world) h s.queue.min_key items value
            (omega arith) q.contains
            (subst
              (λ m. Applied (puts h (put_u64_be m) value) (L.view s.sys.world) (L.view u.world))
              q.counted.max_key a);
    }

    refused_queue :
        (u : Sys W)
        → IsValid u
        → Quiet L s.sys u
        → IsQueue L k h items (record s {
          queue = record s.queue { max_key = dec64 (inc64 s.queue.max_key) };
          sys = u;
        })
    refused_queue u v p = record {
      store = v;
      opened = p.frame.is_open ∙ q.opened;
      counted = IsCounted-undone k (length items) s.queue q.counted;
      contains = λ j. ap (λ f. f h j) p.view ∙ q.contains j;
    }

    next_key : inc64 s.queue.max_key ≡ s.queue.max_key + 1
    next_key = omega (arith, q.counted.max_key)

    same_key : dec64 (inc64 s.queue.max_key) ≡ s.queue.max_key
    same_key = omega (arith, q.counted.max_key)

    abbrev claimed : Sys W → QueueSys W
    claimed u = record s { queue = record s.queue { max_key = inc64 s.queue.max_key }; sys = u }

    after_put : (st : IntPtr) → Action (QueueSys W) IntPtr
    after_put st = do
      (if is_ok st
          then modify_queue added
          else modify_queue (λ q. record q { max_key = dec64 q.max_key }))
      pure (hand_back status st)

    after_put-Added :
        (st : IntPtr) (u : Sys W)
        → IsValid u
        → Outcome L (puts h (put_u64_be s.queue.max_key) value) (some Status.ok) s.sys st u
        → Returns (after_put st (claimed u)) (Added items value status s)
    unfolding after_put
    after_put-Added st u v (Outcome.done f a e) =
        Returns-then _ _ _
          (ap
            (λ p.
              (if is_ok p
                  then modify_queue added
                  else modify_queue (λ q. record q { max_key = dec64 q.max_key }))
                (claimed u))
            e)
          (Returns-some
            (stored (stored_queue u v (f.is_open ∙ q.opened) a) next_key (ap (hand_back status) e)))
    after_put-Added st u v (Outcome.failed p c n e) =
        Returns-then _ _ _
          (ap
            (λ b.
              (if b
                  then modify_queue added
                  else modify_queue (λ q. record q { max_key = dec64 q.max_key }))
                (claimed u))
            (ap is_ok e ∙ int_ne c Status.ok n))
          (Returns-some (refused c n (refused_queue u v p) same_key (ap (hand_back status) e)))

    put_valid-Added : Returns (put_valid E status value s) (Added items value status s)
    unfolding put_valid after_put-Added after_put
    put_valid-Added =
        let (c, e) = local_state-some status in
        Returns-then _ _ _ (get_kind_ref-eq (kind_impl k) s q.counted.kind) (
          Returns-then _ _ _ refl (
            in_store-Returns _ _ _ _
              (put_lem L (local_state status) (kind_impl k) s.sys
                (some (put_u64_be s.queue.max_key)) value q.store)
              (λ st u w. after_put-Added st u w.0 (
                Written-open L k h handle _ s.sys q.store q.opened _ c st u (
                  subst
                    (λ p.
                      Writes.Written L (λ h k. puts h k value) p (kind_impl k)
                        (some (put_u64_be s.queue.max_key)) s.sys st u)
                    e w.1)))))

    -- On a valid queue of an open store, with room for one more 63-bit key, put returns without a
    -- fault, and either it reports Ok and the queue holds the message behind the others, or it
    -- reports another code and the queue holds the messages it held.
    pub put-IsQueue : Returns (put E status value s) (Added items value status s)
    unfolding put
    put-IsQueue =
        Returns-if s.queue.is_valid (λ e. put_valid-Added)
          (λ e. absurd (false≢true (sym e ∙ q.counted.valid)))
