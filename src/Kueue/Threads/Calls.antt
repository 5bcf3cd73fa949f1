-- ===== src/Kueue/Threads/Calls.antt =====
-- The store's calls between the steps of a queue's threads: what they leave of the messages.
use librocks_dll.Prelude.{
  ℕ, suc, ◌+◌, ◌<◌, ◌^◌, true, false, Option, none, some, List, [], ◌∷◌, ◌++◌, ◌≡◌, refl, ◌∙◌, sym,
  ap, subst, false≢true, arith,
}
use librocks_dll.Prelude.Tests.{length}
use librocks_dll.Prelude.Text.{Text}
use librocks_dll.Prelude.Action.{Returns, Returns-some}
use librocks_dll.Status
use librocks_dll.Status.{IntPtr}
use librocks_dll.Engine.{Engine, Handle}
use librocks_dll.Engine.Laws.{Laws, Write, puts, single_deletes, Applied, once}
use librocks_dll.Codec.Bytes.{put_u64_be}
use librocks_dll.Kind.{KindImpl, kind_impl}
use librocks_dll.Store.State.{Sys, SizePtr, Reply}
use librocks_dll.Store.Write
use librocks_dll.Store.Read
use librocks_dll.Store.Update
use librocks_dll.Store.Frame.{IsValid}
use librocks_dll.Store.Outcome.{Outcome}
use librocks_dll.Store.Writes
use librocks_dll.Store.Writes.{put_lem, single_remove_lem}
use librocks_dll.Store.Reads.{copied, get_lem}
use librocks_dll.Store.RoundTrip.{Written-open, Read-Quiet}
use librocks_dll.Store.Updates
use librocks_dll.Store.Updates.{int_ne, single_remove_if_present_lem}
use librocks_dll.Kueue.State.{is_ok, local_state}
use librocks_dll.Kueue.Contents.{expected-first}
use librocks_dll.Kueue.IsQueue.{Contains-put, Contains-take}
use librocks_dll.Kueue.Fifo.{local_state-some}
use librocks_dll.Kueue.Take.{value_once}
use librocks_dll.Kueue.Threads.Labels.{text_of}
use librocks_dll.Kueue.Threads.Contents.{Holds, Holds-Quiet}

-- The result of an action that is known to return.
Returns-at :
    {S A : Type 0} {P : A → S → Type 0} (r : Option (A × S)) (a : A) (s : S)
    → r ≡ some (a, s)
    → Returns r P
    → P a s
Returns-at {S} {A} {P} r a s e h = (subst (λ r. Returns r P) e h).out

is_ok-invalid :
    (status : IntPtr) → is_ok (Status.assign Status.invalid_argument (local_state status)) ≡ false
is_ok-invalid none = refl
is_ok-invalid (some c) = refl

text_of-copied : (status : IntPtr) (n : ℕ) (v : Text) → text_of (copied status n v).value ≡ v
text_of-copied status n [] = refl
text_of-copied status n (c ∷ v) = refl

status-copied : (status : IntPtr) (n : ℕ) (v : Text) → (copied status n v).status ≡ status
status-copied status n [] = refl
status-copied status n (c ∷ v) = refl

module _ {W : Type 0} {E : Engine W} (L : Laws E) (k : KindImpl) (h : Handle) where
  module _ (handle : k.handle_ ≡ some h) where
    write-Outcome :
        (op : Handle → Text → Write) (status : IntPtr) (key : Text) (s : Sys W) (r : IntPtr)
        (t : Sys W)
        → IsValid s
        → s.store.is_open ≡ true
        → Writes.Written L op (local_state status) (kind_impl k) (some key) s r t
        → Outcome L (op h key) (some Status.ok) s r t
    write-Outcome op status key s r t v o w =
        let (c, e) = local_state-some status in
        Written-open L k h handle key s v o op c r t
          (subst (λ p. Writes.Written L op p (kind_impl k) (some key) s r t) e w)

    put-Outcome :
        (lo n : ℕ) (items : List Text) (value : Text) (s : Sys W) (r : IntPtr) (t : Sys W)
        → n ≡ lo + length items
        → n < 2 ^ 63
        → Holds L k h lo items s
        → IsValid t
        → Outcome L (puts h (put_u64_be n) value) (some Status.ok) s r t
        → ((is_ok r ≡ true) → Holds L k h lo (items ++ value ∷ []) t)
          × ((is_ok r ≡ false) → Holds L k h lo items t)
    put-Outcome lo n items value s r t e b p v (Outcome.done f a x) = (
      (λ _. record {
        store = v;
        opened = f.is_open ∙ p.opened;
        contains =
            Contains-put (L.view s.world) (L.view t.world) h lo items value (omega arith) p.contains
              (subst (λ m. Applied (puts h (put_u64_be m) value) (L.view s.world) (L.view t.world))
                e a);
      }),
      (λ w. absurd (false≢true (sym w ∙ ap is_ok x))),
    )
    put-Outcome lo n items value s r t e b p v (Outcome.failed q c m x) = (
      (λ w. absurd (false≢true (sym (ap is_ok x ∙ int_ne c Status.ok m) ∙ w))),
      (λ _. Holds-Quiet L k h lo items s t p v q),
    )

    -- store->put of the key behind the messages
    pub put-Holds :
        (lo n : ℕ) (items : List Text) (value : Text) (status : IntPtr) (s : Sys W) (r : IntPtr)
        (t : Sys W)
        → n ≡ lo + length items
        → n < 2 ^ 63
        → Holds L k h lo items s
        → Write.put E (local_state status) (kind_impl k) (some (put_u64_be n)) value s ≡ some (r, t)
        → ((is_ok r ≡ true) → Holds L k h lo (items ++ value ∷ []) t)
          × ((is_ok r ≡ false) → Holds L k h lo items t)
    put-Holds lo n items value status s r t e b p run =
        let w =
          Returns-at _ r t run
            (put_lem L (local_state status) (kind_impl k) s (some (put_u64_be n)) value p.store) in
        put-Outcome lo n items value s r t e b p w.0
          (write-Outcome (λ h k. puts h k value) status (put_u64_be n) s r t p.store p.opened w.1)

    remove-Outcome :
        (lo : ℕ) (v : Text) (items : List Text) (s : Sys W) (r : IntPtr) (t : Sys W)
        → lo + suc (length items) < 2 ^ 63
        → Holds L k h lo (v ∷ items) s
        → IsValid t
        → Outcome L (single_deletes h (put_u64_be lo)) (some Status.ok) s r t
        → ((is_ok r ≡ true) → Holds L k h (lo + 1) items t)
          × ((is_ok r ≡ false) → Holds L k h lo (v ∷ items) t)
    remove-Outcome lo v items s r t b p x (Outcome.done f a e) = (
      (λ _. record {
        store = x;
        opened = f.is_open ∙ p.opened;
        contains = Contains-take (L.view s.world) (L.view t.world) h lo v items b p.contains a;
      }),
      (λ w. absurd (false≢true (sym w ∙ ap is_ok e))),
    )
    remove-Outcome lo v items s r t b p x (Outcome.failed q c m e) = (
      (λ w. absurd (false≢true (sym (ap is_ok e ∙ int_ne c Status.ok m) ∙ w))),
      (λ _. Holds-Quiet L k h lo (v ∷ items) s t p x q),
    )

    -- store->singleRemove of the first key
    pub remove-Holds :
        (lo : ℕ) (v : Text) (items : List Text) (status : IntPtr) (s : Sys W) (r : IntPtr)
        (t : Sys W)
        → lo + suc (length items) < 2 ^ 63
        → Holds L k h lo (v ∷ items) s
        → Write.single_remove E (local_state status) (kind_impl k) (some (put_u64_be lo)) s
          ≡ some (r, t)
        → ((is_ok r ≡ true) → Holds L k h (lo + 1) items t)
          × ((is_ok r ≡ false) → Holds L k h lo (v ∷ items) t)
    remove-Holds lo v items status s r t b p run =
        let w = Returns-at _ r t run (
          single_remove_lem L (local_state status) (kind_impl k) s (some (put_u64_be lo))
            p.store) in
        remove-Outcome lo v items s r t b p w.0
          (write-Outcome single_deletes status (put_u64_be lo) s r t p.store p.opened w.1)

    take-Updated :
        (lo : ℕ) (v : Text) (items : List Text) (status : IntPtr) (s : Sys W) (r : Reply)
        (t : Sys W)
        → lo + suc (length items) < 2 ^ 63
        → Holds L k h lo (v ∷ items) s
        → IsValid t
        → Updates.Updated L (single_deletes h (put_u64_be lo)) (once v) (local_state status) s r t
        → ((is_ok r.status ≡ true) → (text_of r.value ≡ v) × Holds L k h (lo + 1) items t)
          × ((is_ok r.status ≡ false) → Holds L k h lo (v ∷ items) t)
    take-Updated lo v items status s r t b p x (Updates.changed w e f a y) =
        let st : is_ok r.status ≡ true = accepted status w r y in
        (
          (λ _. (
            ap (λ r. text_of r.value) y ∙ text_of-copied _ 0 w ∙ value_once v w e,
            record {
              store = x;
              opened = f.is_open ∙ p.opened;
              contains =
                  Contains-take (L.view s.world) (L.view t.world) h lo v items b p.contains a;
            },
          )),
          (λ z. absurd (false≢true (sym z ∙ st))),
        )
      where
        accepted :
            (status : IntPtr) (w : Text) (r : Reply)
            → r ≡ copied (Status.assign Status.ok (local_state status)) 0 w
            → is_ok r.status ≡ true
        accepted none w r y = ap (λ r. is_ok r.status) y ∙ ap is_ok (status-copied _ 0 w)
        accepted (some c) w r y = ap (λ r. is_ok r.status) y ∙ ap is_ok (status-copied _ 0 w)
    take-Updated lo v items status s r t b p x (Updates.missing e y m) = cc
    take-Updated lo v items status s r t b p x (Updates.failed c m q y) = (
      (λ z. absurd (false≢true (sym (refused status r y) ∙ z))),
      (λ _. Holds-Quiet L k h lo (v ∷ items) s t p x q),
    )
      where
        refused :
            (status : IntPtr) (r : Reply)
            → r.status ≡ Status.assign c (local_state status)
            → is_ok r.status ≡ false
        refused none r y = ap is_ok y ∙ int_ne c Status.ok m
        refused (some d) r y = ap is_ok y ∙ int_ne c Status.ok m

    -- store->singleRemoveIfPresent of the first key; with a null `valLen` it is refused
    pub take-Holds :
        (lo : ℕ) (v : Text) (items : List Text) (status : IntPtr) (len : SizePtr) (s : Sys W)
        (r : Reply) (t : Sys W)
        → lo + suc (length items) < 2 ^ 63
        → Holds L k h lo (v ∷ items) s
        → Update.single_remove_if_present E
            (local_state status)
            (kind_impl k)
            len
            (some (put_u64_be lo))
            s
          ≡ some (r, t)
        → ((is_ok r.status ≡ true) → (text_of r.value ≡ v) × Holds L k h (lo + 1) items t)
          × ((is_ok r.status ≡ false) → Holds L k h lo (v ∷ items) t)
    unfolding Update.single_remove_if_present Update.if_present
    take-Holds lo v items status none s r t b p run =
        let (bad, e) =
          Returns-at {P = λ r t. (is_ok r.status ≡ false) × (t ≡ s)} _ r t run
            (Returns-some (is_ok-invalid status, refl)) in
        (
          (λ z. absurd (false≢true (sym bad ∙ z))),
          (λ _. subst (Holds L k h lo (v ∷ items)) (sym e) p),
        )
    take-Holds lo v items status (some n) s r t b p run =
        let w = Returns-at _ r t run (
          single_remove_if_present_lem L k h handle n (put_u64_be lo) (local_state status) s p.store
            p.opened) in
        take-Updated lo v items status s r t b p w.0 (
          subst
            (λ x. Updates.Updated L (single_deletes h (put_u64_be lo)) x (local_state status) s r t)
            (p.contains (put_u64_be lo) ∙ expected-first v items lo) w.1)

    -- store->get; with a null `valLen` it is refused
    pub read-Holds :
        (lo : ℕ) (items : List Text) (status : IntPtr) (len : SizePtr) (key : Text) (s : Sys W)
        (r : Reply) (t : Sys W)
        → Holds L k h lo items s
        → Read.get E (local_state status) (kind_impl k) len (some key) s ≡ some (r, t)
        → Holds L k h lo items t
    unfolding Read.get
    read-Holds lo items status none key s r t p run =
        subst (Holds L k h lo items)
          (sym (Returns-at {P = λ r t. t ≡ s} _ r t run (Returns-some refl))) p
    read-Holds lo items status (some n) key s r t p run =
        let (c, e) = local_state-some status in
        let w =
          Returns-at _ r t
            (subst (λ p. Read.get E p (kind_impl k) (some n) (some key) s ≡ some (r, t)) e run)
            (get_lem L (some c) (kind_impl k) (some n) (some key) s p.store) in
        Holds-Quiet L k h lo items s t p w.0
          (Read-Quiet L k h handle key s p.store p.opened c n r t w.1)
