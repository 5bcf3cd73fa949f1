-- ===== src/Client/KvStore/Throws.antt =====
-- When the client throws, and what its put and get do.
use librocks_dll.Prelude.{
  true, false, Option, none, some, ◌≡◌, ◌≢◌, ◌⊎◌, inl, inr, ◌||◌, refl, ◌∙◌, sym, ap, subst,
  false≢true,
}
use mathlib.Core.Path.{ap₂}
use librocks_dll.Prelude.Tests.{ℤ, int_eq, if◌then◌else◌}
use librocks_dll.Prelude.Text.{Text}
use librocks_dll.Prelude.Action.{
  Action, Returns, Returns-bind, Returns-some, Returns-if, pure, ◌>>=◌,
}
use librocks_dll.Status
use librocks_dll.Status.{IntPtr, assign}
use librocks_dll.Engine.{Engine, Handle}
use librocks_dll.Engine.Laws.{Laws, Write, puts, deletes, single_deletes}
use librocks_dll.Kind.{Kind}
use librocks_dll.Store.State.{Sys, Reply}
use librocks_dll.Store.Frame.{IsValid}
use librocks_dll.Store.Outcome.{Outcome}
use librocks_dll.Store.Write
use librocks_dll.Store.Writes
use librocks_dll.Store.Writes.{Written, put_lem, remove_lem, single_remove_lem}
use librocks_dll.Store.Read
use librocks_dll.Store.Reads
use librocks_dll.Store.Reads.{get_lem}
use librocks_dll.Store.Updates.{int_ne}
use librocks_dll.Client.RocksException.{RocksException, new_exception}
use librocks_dll.Client.KvStore.Defs.{
  Result, returned, thrown, init_codes, code_name, name_or_unknown, throw_for_status, rethrow,
  check, text_of, ClientSys, on_store, put, remove, single_remove, value_of, check_found, get,
}

-- A call returns on Ok, and on another code throws an exception that has it.
pub record Reports {A : Type 0} (c : ℤ) (a : A) (r : Result A) : Type 0 where
  pub on_ok : c ≡ Status.ok → r ≡ returned a
  pub on_error : c ≢ Status.ok → (e : RocksException) × (r ≡ thrown e) × (e.code ≡ c)

-- throwForStatus returns false on Ok, and on another code throws an exception that has it.
pub throw_for_status-Reports : (c : ℤ) → Reports c false (throw_for_status c)
unfolding throw_for_status new_exception
throw_for_status-Reports c = record {
  on_ok = λ e.
      ap
        (λ b.
          if b
          then returned false
          else thrown (new_exception c (name_or_unknown (code_name c init_codes))))
        (ap (λ c. int_eq c Status.ok) e);
  on_error = λ n. (
    _,
    ap
        (λ b.
          if b
          then returned false
          else thrown (new_exception c (name_or_unknown (code_name c init_codes))))
        (int_ne c Status.ok n),
    refl,
  );
}

check-Reports : {A : Type 0} (c : ℤ) (a : A) → Reports c a (check (some c) a)
unfolding check
check-Reports c a =
    let r = throw_for_status-Reports c in
    record {
      on_ok = λ e. ap (λ x. rethrow x a) (r.on_ok e);
      on_error = λ n. let (e, x, y) = r.on_error n in (e, ap (λ x. rethrow x a) x, y);
    }

-- The same with NotFound let through.
pub record Answers {A : Type 0} (c : ℤ) (a : A) (r : Result A) : Type 0 where
  pub on_answer : (c ≡ Status.ok) ⊎ (c ≡ Status.not_found) → r ≡ returned a
  pub on_other :
      c ≢ Status.ok → c ≢ Status.not_found → (e : RocksException) × (r ≡ thrown e) × (e.code ≡ c)

check-value_of : {A : Type 0} (p : IntPtr) (a : A) → check p a ≡ check (some (value_of p)) a
unfolding check
check-value_of none a = refl
check-value_of (some c) a = refl

answered :
    (c : ℤ)
    → (c ≡ Status.ok) ⊎ (c ≡ Status.not_found)
    → (int_eq c Status.ok || int_eq c Status.not_found) ≡ true
answered c (inl e) = ap (λ c. int_eq c Status.ok || int_eq c Status.not_found) e
answered c (inr e) = ap (λ c. int_eq c Status.ok || int_eq c Status.not_found) e

check_found-Answers : {A : Type 0} (p : IntPtr) (a : A) → Answers (value_of p) a (check_found p a)
unfolding check_found
check_found-Answers p a = record {
  on_answer = λ e. ap (λ b. if b then returned a else check p a) (answered (value_of p) e);
  on_other = λ n m.
      let (e, x, y) = (check-Reports (value_of p) a).on_error n in
      (
        e,
        ap (λ b. if b then returned a else check p a)
              (ap₂ (λ b c. b || c) (int_ne (value_of p) Status.ok n)
                (int_ne (value_of p) Status.not_found m))
            ∙ (check-value_of p a ∙ x),
        y,
      );
}

module _ {W : Type 0} where
  on_result-Returns :
      {A : Type 0} (s : ClientSys W) (r : Option (A × Sys W)) {P : A → Sys W → Type 0}
      → Returns r P
      → Returns
          (elim r as (λ r. Option (A × ClientSys W)) [
            | none ↦ none
            | some (a, t) ↦ some (a, record s { sys = t })
          ])
          (λ a t. P a t.sys)
  on_result-Returns s none h = absurd h.out
  on_result-Returns s (some (a, t)) h = Returns-some h.out

  on_store-Returns :
      {A : Type 0} (m : Action (Sys W) A) (s : ClientSys W) (P : A → Sys W → Type 0)
      → s.has_store ≡ true
      → Returns (m s.sys) P
      → Returns (on_store m s) (λ a t. P a t.sys)
  on_store-Returns m s P e h =
      Returns-if s.has_store (λ b. on_result-Returns s (m s.sys) h)
        (λ b. absurd (false≢true (sym b ∙ e)))

module _ {W : Type 0} {E : Engine W} (L : Laws E) where
  Outcome-code :
      (op : Write) (c : ℤ) (s : Sys W) (st : IntPtr) (t : Sys W)
      → Outcome L op (some c) s st t
      → (d : ℤ) × (st ≡ some d)
  Outcome-code op c s st t (Outcome.done f a e) = (c, e)
  Outcome-code op c s st t (Outcome.failed q d n e) = (d, e)

  Written-code :
      (op : Handle → Text → Write) (c : ℤ) (kind : Kind) (key : Option Text) (s : Sys W)
      (st : IntPtr) (t : Sys W)
      → Written L op (some c) kind key s st t
      → (d : ℤ) × (st ≡ some d)
  Written-code op c kind key s st t (Writes.refused a e x) = (Status.invalid_argument, e)
  Written-code op c kind key s st t (Writes.closed o e x) = (Status.closed, e)
  Written-code op c kind key s st t (Writes.foreign n k o e x) = (Status.invalid_argument, e)
  Written-code op c kind key s st t (Writes.ran k h b x y z o out) =
      Outcome-code _ Status.ok s st t out

  -- the calls that write one key
  pub data WriteCall : Type 0 where
    put_call : Option Text → WriteCall
    remove_call : WriteCall
    single_remove_call : WriteCall

  abbrev pub written_by : WriteCall → Handle → Text → Write
  written_by (put_call value) = λ h k. puts h k (text_of value)
  written_by remove_call = deletes
  written_by single_remove_call = single_deletes

  abbrev pub run_write : WriteCall → Kind → Option Text → Action (ClientSys W) (Result (Unit {0}))
  run_write (put_call value) kind key = put E kind key value
  run_write remove_call kind key = remove E kind key
  run_write single_remove_call kind key = single_remove E kind key

  -- What the store reported, and what the client made of it.
  abbrev pub WriteReported :
      WriteCall → Kind → Option Text → Sys W → Result (Unit {0}) → Sys W → Type 0
  WriteReported call kind key s r u =
      IsValid u
      × ((c : ℤ) × Written L (written_by call) (some Status.ok) kind key s (some c) u
          × Reports c tt r)

  store_write-Reports :
      (call : WriteCall) (m : Action (Sys W) IntPtr) (kind : Kind) (key : Option Text)
      (s : ClientSys W)
      → s.has_store ≡ true
      → Returns
          (m s.sys)
          (λ st u. IsValid u × Written L (written_by call) (some Status.ok) kind key s.sys st u)
      → Returns
          (on_store (do status ← m; pure (check status tt)) s)
          (λ r t. WriteReported call kind key s.sys r t.sys)
  store_write-Reports call m kind key s e h =
      on_store-Returns (do status ← m; pure (check status tt)) s (WriteReported call kind key s.sys)
        e
        (Returns-bind _ _ _ _ h (λ st u w.
          let (c, x) = Written-code (written_by call) Status.ok kind key s.sys st u w.1 in
          Returns-some (
            w.0,
            (
              c,
              subst (λ p. Written L (written_by call) (some Status.ok) kind key s.sys p u) x w.1,
              subst (λ p. Reports c tt (check p tt)) (sym x) (check-Reports c tt),
            ),
          )))

  -- With a store that is valid, put, remove and singleRemove of the client return or throw without a
  -- fault: each does what the same operation of the store does, returns where that reports Ok, and
  -- else throws an exception with the code that it reports.
  pub write_call-Reports :
      (call : WriteCall) (kind : Kind) (key : Option Text) (s : ClientSys W)
      → s.has_store ≡ true
      → IsValid s.sys
      → Returns (run_write call kind key s) (λ r t. WriteReported call kind key s.sys r t.sys)
  unfolding put remove single_remove
  write_call-Reports (put_call value) kind key s e v =
      store_write-Reports (put_call value) (Write.put E (some Status.ok) kind key (text_of value))
        kind key s e (put_lem L (some Status.ok) kind s.sys key (text_of value) v)
  write_call-Reports remove_call kind key s e v =
      store_write-Reports remove_call (Write.remove E (some Status.ok) kind key) kind key s e
        (remove_lem L (some Status.ok) kind s.sys key v)
  write_call-Reports single_remove_call kind key s e v =
      store_write-Reports single_remove_call (Write.single_remove E (some Status.ok) kind key) kind
        key s e (single_remove_lem L (some Status.ok) kind s.sys key v)

  -- With a store that is valid, get of the client returns or throws without a fault: it does what the
  -- get of the store does, returns the buffer of the reply, or none, where that reports Ok or
  -- NotFound, and else throws an exception with the code that it reports.
  pub get-Answers :
      (kind : Kind) (key : Option Text) (s : ClientSys W)
      → s.has_store ≡ true
      → IsValid s.sys
      → Returns (get E kind key s) (λ r t.
        IsValid t.sys
        × ((reply : Reply) × Reads.Read L (some Status.ok) kind (some 0) key s.sys reply t.sys
            × Answers (value_of reply.status) reply.value r))
  unfolding get
  get-Answers kind key s e v =
      on_store-Returns
        (do r ← Read.get E (some Status.ok) kind (some 0) key; pure (check_found r.status r.value))
        s
        (λ r u.
          IsValid u
          × ((reply : Reply) × Reads.Read L (some Status.ok) kind (some 0) key s.sys reply u
              × Answers (value_of reply.status) reply.value r))
        e
        (Returns-bind _ _ _ _ (get_lem L (some Status.ok) kind (some 0) key s.sys v)
          (λ r u w. Returns-some (w.0, (r, w.1, check_found-Answers r.status r.value))))
