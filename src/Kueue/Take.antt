-- ===== src/Kueue/Take.antt =====
-- Both overloads of take: the first message is returned and the rest is left.
use librocks_dll.Prelude.{
  ℕ, suc, ◌+◌, ◌<◌, ◌^◌, Bool, true, false, some, List, [], ◌∷◌, ◌≡◌, ◌≢◌, refl, ◌∙◌, sym, ap,
  subst, false≢true, arith,
}
use librocks_dll.Prelude.Tests.{ℤ, ltb, ◌==◌, length, if◌then◌else◌}
use librocks_dll.Prelude.Text.{Text}
use librocks_dll.Prelude.Action.{
  Action, Returns, Returns-bind, Returns-then, Returns-some, Returns-if, pure, ◌>>=◌, ◌>>◌,
}
use librocks_dll.Status
use librocks_dll.Status.{IntPtr, assign}
use librocks_dll.Engine.{Engine, Handle}
use librocks_dll.Engine.Laws.{Laws, once, value_of, single_deletes, Applied}
use librocks_dll.Codec.Bytes.{put_u64_be}
use librocks_dll.Kind.{KindImpl, kind_impl}
use librocks_dll.Store.State.{Sys, Reply}
use librocks_dll.Store.Read.{null_reply}
use librocks_dll.Store.Frame.{IsValid, Quiet}
use librocks_dll.Store.Reads.{copied}
use librocks_dll.Store.Updates
use librocks_dll.Store.Updates.{int_ne, Updated, single_remove_if_present_lem}
use librocks_dll.Kueue.State.{
  QueueSys, is_ok, is_positive, taken, local_state, hand_back, modify_queue, in_store-Returns,
}
use librocks_dll.Kueue.Operations.{
  Outcome, waiting, returned, with_status, take_first, take, take_timed,
}
use librocks_dll.Kueue.Contents.{expected, expected-first}
use librocks_dll.Kueue.IsQueue.{IsQueue, IsCounted-taken, Contains-take}
use librocks_dll.Kueue.Fifo.{local_state-some, get_kind_ref-eq}

pub with_status-copied :
    (status p : IntPtr) (n : ℕ) (v : Text)
    → with_status status (copied p n v) ≡ copied (hand_back status p) n v
with_status-copied status p n [] = refl
with_status-copied status p n (c ∷ v) = refl

pub copied-status : (p : IntPtr) (n : ℕ) (v : Text) → (copied p n v).status ≡ p
copied-status p n [] = refl
copied-status p n (c ∷ v) = refl

pub value_once : (v w : Text) → value_of (once v) ≡ some w → w ≡ v
value_once v w e = cc

suc-ne-zero : (n : ℕ) → (suc n == 0) ≡ false
suc-ne-zero n = ground arith

pub positive_count : (n : ℕ) → suc n < 2 ^ 63 → is_positive (suc n) ≡ true
positive_count n b = ground arith

module _ {W : Type 0} {E : Engine W} (L : Laws E) (k : KindImpl) (h : Handle)
    (handle : k.handle_ ≡ some h) where
  -- What a take does. It waits, or times out if it has a deadline, where there is no message.
  pub data Taken (deadline : Bool) (items : List Text) (status : IntPtr) (n : ℕ) (s : QueueSys W)
      (r : Outcome Reply) (t : QueueSys W) : Type 0 where
    waits :
        items ≡ [] → deadline ≡ false → r ≡ waiting → t ≡ s → Taken deadline items status n s r t
    timed_out :
        items ≡ []
        → deadline ≡ true
        → r ≡ returned (null_reply (hand_back status (some Status.timed_out)) (some n))
        → t ≡ s
        → Taken deadline items status n s r t
    delivered :
        (v : Text) (rest : List Text)
        → items ≡ v ∷ rest
        → r ≡ returned (copied (hand_back status (some Status.ok)) 0 v)
        → t.queue.max_key ≡ s.queue.max_key
        → IsQueue L k h rest t
        → Taken deadline items status n s r t
    failed :
        (c : ℤ) (reply : Reply)
        → c ≢ Status.ok
        → r ≡ returned reply
        → reply.status ≡ hand_back status (some c)
        → t.queue.max_key ≡ s.queue.max_key
        → IsQueue L k h items t
        → Taken deadline items status n s r t

  module _ (deadline : Bool) (v : Text) (rest : List Text) (status : IntPtr) (n : ℕ)
      (s : QueueSys W) (q : IsQueue L k h (v ∷ rest) s) where
    abbrev after : Sys W → QueueSys W
    after u = record s { sys = u }

    first : L.view s.sys.world h (put_u64_be s.queue.min_key) ≡ once v
    first = q.contains (put_u64_be s.queue.min_key) ∙ expected-first v rest s.queue.min_key

    pub rest_queue :
        (u : Sys W)
        → IsValid u
        → u.store.is_open ≡ true
        → Applied
            (single_deletes h (put_u64_be s.queue.min_key))
            (L.view s.sys.world)
            (L.view u.world)
        → IsQueue L k h rest (record s { queue = taken s.queue; sys = u })
    rest_queue u x o a =
        let e : s.queue.min_key + 1 ≡ (taken s.queue).min_key = omega (arith, q.counted.bound) in
        record {
          store = x;
          opened = o;
          counted = IsCounted-taken k (length rest) s.queue q.counted;
          contains =
              subst (λ lo. (j : Text) → L.view u.world h j ≡ expected lo rest j) e
                (Contains-take (L.view s.sys.world) (L.view u.world) h s.queue.min_key v rest
                  q.counted.bound q.contains a);
        }

    pub same-IsQueue :
        (u : Sys W) → IsValid u → Quiet L s.sys u → IsQueue L k h (v ∷ rest) (after u)
    same-IsQueue u x p = record {
      store = x;
      opened = p.frame.is_open ∙ q.opened;
      counted = q.counted;
      contains = λ j. ap (λ f. f h j) p.view ∙ q.contains j;
    }

    after_take : Reply → Action (QueueSys W) Reply
    after_take r = do
      (if is_ok r.status then modify_queue taken else pure tt)
      pure (with_status status r)

    after_take-Taken :
        (c : ℤ) (r : Reply) (u : Sys W)
        → IsValid u
        → Updated L (single_deletes h (put_u64_be s.queue.min_key)) (once v) (some c) s.sys r u
        → Returns
            (after_take r (after u))
            (λ r t. Taken deadline (v ∷ rest) status n s (returned r) t)
    unfolding after_take
    after_take-Taken c r u x (Updates.changed w e f a p) =
        let e' : w ≡ v = value_once v w e in
        let st : r.status ≡ some Status.ok =
          ap (λ r. r.status) p ∙ copied-status (some Status.ok) 0 w in
        Returns-then _ _ _
          (ap (λ p. (if is_ok p then modify_queue taken else pure tt) (after u)) st)
          (Returns-some (
            delivered v rest refl
              (ap returned (
                ap (with_status status) p
                ∙ (with_status-copied status (some Status.ok) 0 w
                    ∙ ap (copied (hand_back status (some Status.ok)) 0) e')))
              refl (rest_queue u x (f.is_open ∙ q.opened) a)))
    after_take-Taken c r u x (Updates.missing e p m) = cc
    after_take-Taken c r u x (Updates.failed e m p st) =
        Returns-then _ _ _
          (ap (λ b. (if b then modify_queue taken else pure tt) (after u))
            (ap is_ok st ∙ int_ne e Status.ok m))
          (Returns-some (
            failed e (with_status status r) m refl (ap (hand_back status) st) refl
              (same-IsQueue u x p)))

    pub take_first-Taken :
        Returns
          ((do r ← take_first E status (some n); pure (returned r)) s)
          (Taken deadline (v ∷ rest) status n s)
    unfolding take_first after_take-Taken after_take
    take_first-Taken =
        let (c, e) = local_state-some status in
        Returns-bind _ _ _ _
          (Returns-then _ _ _ (get_kind_ref-eq (kind_impl k) s q.counted.kind) (
            in_store-Returns _ _ _ _
              (single_remove_if_present_lem L k h handle n (put_u64_be s.queue.min_key)
                (local_state status) s.sys q.store q.opened)
              (λ r u w. after_take-Taken c r u w.0 (
                subst
                  (λ p.
                    Updated L (single_deletes h (put_u64_be s.queue.min_key)) (once v) p s.sys r u)
                  e
                  (subst
                    (λ x.
                      Updated L (single_deletes h (put_u64_be s.queue.min_key)) x
                        (local_state status) s.sys r u)
                    first w.1)))))
          (λ r t p. Returns-some p)

  module _ (status : IntPtr) (n : ℕ) (s : QueueSys W) where
    -- On a valid queue of an open store, take without a timeout waits where there is no message.
    -- Else it returns, without a fault, the first message with Ok and leaves the others, or a code
    -- other than Ok and leaves all.
    pub take-IsQueue :
        (items : List Text)
        → IsQueue L k h items s
        → Returns (take E status (some n) s) (Taken false items status n s)
    unfolding take
    take-IsQueue [] q =
        Returns-if s.queue.is_valid
          (λ e.
            Returns-if (s.queue.count == 0) (λ z. Returns-some (waits refl refl refl refl))
              (λ z. absurd (false≢true (sym z ∙ ap (λ c. c == 0) q.counted.count))))
          (λ e. absurd (false≢true (sym e ∙ q.counted.valid)))
    take-IsQueue (v ∷ rest) q =
        Returns-if s.queue.is_valid
          (λ e.
            Returns-if (s.queue.count == 0)
              (λ z. absurd (
                false≢true
                  (sym (suc-ne-zero (length rest)) ∙ (sym (ap (λ c. c == 0) q.counted.count) ∙ z))))
              (λ z. take_first-Taken false v rest status n s q))
          (λ e. absurd (false≢true (sym e ∙ q.counted.valid)))

    -- On a valid queue of an open store that holds no message, take with a timeout times out if the
    -- timeout is positive, and else waits. Where there is a message it returns, without a fault, the
    -- first message with Ok and leaves the others, or a code other than Ok and leaves all.
    pub take_timed-IsQueue :
        (timeout : ℕ) (items : List Text)
        → IsQueue L k h items s
        → Returns (take_timed E status (some n) timeout s) (Taken (ltb 0 timeout) items status n s)
    unfolding take_timed
    take_timed-IsQueue timeout [] q =
        Returns-if s.queue.is_valid
          (λ e.
            Returns-if (is_positive s.queue.count)
              (λ z. absurd (false≢true (sym (ap is_positive q.counted.count) ∙ z)))
              (λ z.
                Returns-if (ltb 0 timeout) (λ d. Returns-some (timed_out refl d refl refl))
                  (λ d. Returns-some (waits refl d refl refl))))
          (λ e. absurd (false≢true (sym e ∙ q.counted.valid)))
    take_timed-IsQueue timeout (v ∷ rest) q =
        Returns-if s.queue.is_valid
          (λ e.
            Returns-if (is_positive s.queue.count)
              (λ z. take_first-Taken (ltb 0 timeout) v rest status n s q)
              (λ z. absurd (
                false≢true (
                  sym z
                  ∙ (ap is_positive q.counted.count
                      ∙ positive_count (length rest) (omega (arith, q.counted.bound)))))))
          (λ e. absurd (false≢true (sym e ∙ q.counted.valid)))
