-- ===== src/Kueue/Peek.antt =====
-- readNext: the first message is returned and stays.
use librocks_dll.Prelude.{
  ℕ, Bool, true, false, Option, none, some, List, [], ◌∷◌, ◌≡◌, ◌≢◌, refl, ◌∙◌, sym, ap, subst,
  false≢true, arith,
}
use mathlib.Core.Path.{ap₂}
use librocks_dll.Prelude.Tests.{ℤ, ltb, length, if◌then◌else◌}
use librocks_dll.Prelude.Text.{Text}
use librocks_dll.Prelude.Action.{
  Returns, Returns-bind, Returns-then, Returns-some, Returns-if, pure, ◌>>=◌,
}
use librocks_dll.Status
use librocks_dll.Status.{IntPtr}
use librocks_dll.Engine.{Engine, Handle}
use librocks_dll.Engine.Laws.{Laws, once}
use librocks_dll.Codec.Bytes.{put_u64_be}
use librocks_dll.Kind.{KindImpl, kind_impl}
use librocks_dll.Store.State.{Sys, Reply}
use librocks_dll.Store.Read.{null_reply}
use librocks_dll.Store.Frame.{IsValid, Quiet}
use librocks_dll.Store.Reads
use librocks_dll.Store.Reads.{Found, copied, get_lem}
use librocks_dll.Store.RoundTrip.{Read-open, Read-Quiet}
use librocks_dll.Store.Updates.{int_ne}
use librocks_dll.Kueue.State.{
  QueueSys, is_ok, is_positive, local_state, hand_back, in_store-Returns,
}
use librocks_dll.Kueue.Operations.{
  Outcome, waiting, returned, Next, with_status, key_read, read_first, read_next,
}
use librocks_dll.Kueue.Contents.{expected-first}
use librocks_dll.Kueue.IsQueue.{IsQueue}
use librocks_dll.Kueue.Fifo.{local_state-some, get_kind_ref-eq}
use librocks_dll.Kueue.Take.{with_status-copied, copied-status, value_once, positive_count}

-- *pKey = minKey, through a pointer that may be null
abbrev pub key_out : Option ℕ → ℕ → Option ℕ
key_out none lo = none
key_out (some k) lo = some lo

key_read-ok :
    (r : Reply) (p_key : Option ℕ) (lo : ℕ)
    → is_ok r.status ≡ true
    → key_read r p_key lo ≡ key_out p_key lo
key_read-ok r none lo e = refl
key_read-ok r (some k) lo e = ap (λ b. if b then some lo else some k) e

key_read-failed :
    (r : Reply) (p_key : Option ℕ) (lo : ℕ) → is_ok r.status ≡ false → key_read r p_key lo ≡ p_key
key_read-failed r none lo e = refl
key_read-failed r (some k) lo e = ap (λ b. if b then some lo else some k) e

module _ {W : Type 0} {E : Engine W} (L : Laws E) (k : KindImpl) (h : Handle)
    (handle : k.handle_ ≡ some h) where
  -- What readNext does with a positive timeout (`deadline`) or without one.
  pub data Peeked (deadline : Bool) (items : List Text) (status : IntPtr) (n : ℕ) (p_key : Option ℕ)
      (s : QueueSys W) (r : Outcome Next) (t : QueueSys W) : Type 0 where
    waits :
        items ≡ []
        → deadline ≡ false
        → r ≡ waiting
        → t ≡ s
        → Peeked deadline items status n p_key s r t
    timed_out :
        items ≡ []
        → deadline ≡ true
        → r
          ≡ returned (record {
            reply = null_reply (hand_back status (some Status.timed_out)) (some n);
            key = p_key;
          })
        → t ≡ s
        → Peeked deadline items status n p_key s r t
    read :
        (v : Text) (rest : List Text)
        → items ≡ v ∷ rest
        → r
          ≡ returned (record {
            reply = copied (hand_back status (some Status.ok)) 0 v;
            key = key_out p_key s.queue.min_key;
          })
        → t.queue ≡ s.queue
        → IsQueue L k h items t
        → Peeked deadline items status n p_key s r t
    failed :
        (c : ℤ)
        → c ≢ Status.ok
        → r
          ≡ returned
              (record { reply = null_reply (hand_back status (some c)) (some 0); key = p_key })
        → t.queue ≡ s.queue
        → IsQueue L k h items t
        → Peeked deadline items status n p_key s r t

  module _ (deadline : Bool) (v : Text) (rest : List Text) (status : IntPtr) (n : ℕ)
      (p_key : Option ℕ) (s : QueueSys W) (q : IsQueue L k h (v ∷ rest) s) where
    peeked : Reply → Next
    peeked r = record { reply = with_status status r; key = key_read r p_key s.queue.min_key }

    same-IsQueue :
        (u : Sys W) → IsValid u → Quiet L s.sys u → IsQueue L k h (v ∷ rest) (record s { sys = u })
    same-IsQueue u x p = record {
      store = x;
      opened = p.frame.is_open ∙ q.opened;
      counted = q.counted;
      contains = λ j. ap (λ f. f h j) p.view ∙ q.contains j;
    }

    peeked-Peeked :
        (r : Reply) (u : Sys W)
        → IsQueue L k h (v ∷ rest) (record s { sys = u })
        → Found (once v) (some Status.ok) 0 r
        → Peeked deadline (v ∷ rest) status n p_key s (returned (peeked r)) (record s { sys = u })
    unfolding peeked
    peeked-Peeked r u x (Reads.found w e p) =
        let e' : w ≡ v = value_once v w e in
        let st : r.status ≡ some Status.ok =
          ap (λ r. r.status) p ∙ copied-status (some Status.ok) 0 w in
        read v rest refl
          (ap₂ (λ a b. returned (record { reply = a; key = b }))
            (ap (with_status status) p
              ∙ (with_status-copied status (some Status.ok) 0 w
                  ∙ ap (copied (hand_back status (some Status.ok)) 0) e'))
            (key_read-ok r p_key s.queue.min_key (ap is_ok st)))
          refl x
    peeked-Peeked r u x (Reads.missing e p) = cc
    peeked-Peeked r u x (Reads.failed c m m' p) =
        failed c m
          (ap₂ (λ a b. returned (record { reply = a; key = b })) (ap (with_status status) p)
            (key_read-failed r p_key s.queue.min_key
              (ap (λ r. is_ok r.status) p ∙ int_ne c Status.ok m)))
          refl x

    read_first-Peeked :
        Returns
          ((do r ← read_first E status (some n) p_key; pure (returned r)) s)
          (Peeked deadline (v ∷ rest) status n p_key s)
    unfolding read_first peeked peeked-Peeked
    read_first-Peeked =
        let (c, e) = local_state-some status in
        Returns-bind _ _ _ _
          (Returns-then _ _ _ (get_kind_ref-eq (kind_impl k) s q.counted.kind) (
            in_store-Returns _ _ _ _
              (get_lem L (local_state status) (kind_impl k) (some n)
                (some (put_u64_be s.queue.min_key)) s.sys q.store)
              (λ r u w.
                Returns-some {P = λ r t. Peeked deadline (v ∷ rest) status n p_key s (returned r) t}
                  (let w' =
                      subst
                        (λ p.
                          Reads.Read L p (kind_impl k) (some n) (some (put_u64_be s.queue.min_key))
                            s.sys r u)
                        e w.1 in
                    peeked-Peeked r u
                      (same-IsQueue u w.0
                        (Read-Quiet L k h handle _ s.sys q.store q.opened c n r u w'))
                      (subst (λ x. Found x (some Status.ok) 0 r)
                        (q.contains (put_u64_be s.queue.min_key)
                          ∙ expected-first v rest s.queue.min_key)
                        (Read-open L k h handle _ s.sys q.store q.opened c n r u w'))))))
          (λ r t p. Returns-some p)

  -- On a valid queue of an open store, readNext waits or times out where there is no message. Else
  -- it returns the first message and its key with Ok, or a code other than Ok with null; the queue
  -- and its messages stay.
  pub read_next-Peeked :
      (status : IntPtr) (n : ℕ) (p_key : Option ℕ) (timeout : ℕ) (items : List Text)
      (s : QueueSys W)
      → IsQueue L k h items s
      → Returns
          (read_next E status (some n) p_key timeout s)
          (Peeked (ltb 0 timeout) items status n p_key s)
  unfolding read_next
  read_next-Peeked status n p_key timeout [] s q =
      Returns-if s.queue.is_valid
        (λ e.
          Returns-if (is_positive s.queue.count)
            (λ z. absurd (false≢true (sym (ap is_positive q.counted.count) ∙ z)))
            (λ z.
              Returns-if (ltb 0 timeout) (λ d. Returns-some (timed_out refl d refl refl))
                (λ d. Returns-some (waits refl d refl refl))))
        (λ e. absurd (false≢true (sym e ∙ q.counted.valid)))
  read_next-Peeked status n p_key timeout (v ∷ rest) s q =
      Returns-if s.queue.is_valid
        (λ e.
          Returns-if (is_positive s.queue.count)
            (λ z. read_first-Peeked (ltb 0 timeout) v rest status n p_key s q)
            (λ z. absurd (
              false≢true (
                sym z
                ∙ (ap is_positive q.counted.count
                    ∙ positive_count (length rest) (omega (arith, q.counted.bound)))))))
        (λ e. absurd (false≢true (sym e ∙ q.counted.valid)))
