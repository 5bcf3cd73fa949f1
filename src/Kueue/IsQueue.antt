-- ===== src/Kueue/IsQueue.antt =====
-- A valid queue on an open store, with the messages that it holds, and how the store's writes move it.
use librocks_dll.Prelude.{
  ℕ, suc, ◌+◌, ◌<◌, ◌^◌, true, some, List, [], ◌∷◌, ◌++◌, ◌≡◌, inr, ◌∙◌, sym, ap, arith,
}
use librocks_dll.Prelude.Tests.{length, if◌then◌else◌}
use librocks_dll.Prelude.Text.{Text, text_eq}
use librocks_dll.Codec.Bytes.{put_u64_be}
use librocks_dll.Engine.{Engine, Handle}
use librocks_dll.Engine.Laws.{
  Laws, View, Cell, absent, puts, single_deletes, Applied, update, single_deletable,
}
use librocks_dll.Kind.{KindImpl, kind_impl}
use librocks_dll.Store.Frame.{IsValid}
use librocks_dll.Kueue.State.{KueueImpl, QueueSys, inc64, dec64, taken}
use librocks_dll.Kueue.Operations.{added}
use librocks_dll.Kueue.Contents.{
  Contains, expected-outside, expected-first, expected-append, expected-rest,
}

-- The numbers of a queue with `n` messages, of the kind `k`.
pub record IsCounted (k : KindImpl) (n : ℕ) (q : KueueImpl) : Type 0 where
  pub kind : q.queue_kind ≡ some (kind_impl k)
  pub valid : q.is_valid ≡ true
  pub count : q.count ≡ n
  pub max_key : q.max_key ≡ q.min_key + n
  pub bound : q.min_key + n < 2 ^ 63

update-same :
    (f : View) (h : Handle) (k : Text) (c : Cell) (j : Text)
    → update f h k c h j ≡ (if text_eq k j then c else f h j)
update-same f h k c j = ground arith

-- A put under the next key appends a message to those that the family holds.
pub Contains-put :
    (f g : View) (h : Handle) (lo : ℕ) (items : List Text) (v : Text)
    → lo + length items < 2 ^ 63
    → Contains f h lo items
    → Applied (puts h (put_u64_be (lo + length items)) v) f g
    → Contains g h lo (items ++ v ∷ [])
Contains-put f g h lo items v b c a j =
    let e : f h (put_u64_be (lo + length items)) ≡ absent =
      c _
      ∙ expected-outside items lo (lo + length items) (omega arith) (omega arith)
          (inr (omega arith)) in
    ap (λ g. g h j) a
    ∙ (update-same f h _ _ j ∙ (rw (e, c j) (sym (expected-append items lo v j (omega arith)))))

-- A SingleDelete of the first key leaves the rest.
pub Contains-take :
    (f g : View) (h : Handle) (lo : ℕ) (v : Text) (items : List Text)
    → lo + suc (length items) < 2 ^ 63
    → Contains f h lo (v ∷ items)
    → Applied (single_deletes h (put_u64_be lo)) f g
    → Contains g h (lo + 1) items
Contains-take f g h lo v items b c (x, a, sure) j =
    let e : x ≡ absent =
      sure (ap single_deletable (c (put_u64_be lo) ∙ expected-first v items lo)) in
    ap (λ g. g h j) a
    ∙ (update-same f h _ _ j ∙ (rw (e, c j) (sym (expected-rest v items lo j (omega arith)))))

module _ (k : KindImpl) where
  -- put: the key is claimed, and given back or kept
  pub IsCounted-added :
      (n : ℕ) (q : KueueImpl)
      → IsCounted k n q
      → q.min_key + suc n < 2 ^ 63
      → IsCounted k (suc n) (added (record q { max_key = inc64 q.max_key }))
  IsCounted-added n q c b = record {
    kind = c.kind;
    valid = c.valid;
    count = omega (arith, c.count);
    max_key = omega (arith, c.max_key);
    bound = b;
  }

  pub IsCounted-undone :
      (n : ℕ) (q : KueueImpl)
      → IsCounted k n q
      → IsCounted k n (record q { max_key = dec64 (inc64 q.max_key) })
  IsCounted-undone n q c = record {
    kind = c.kind;
    valid = c.valid;
    count = c.count;
    max_key = omega (arith, c.max_key, c.bound);
    bound = c.bound;
  }

  pub IsCounted-taken : (n : ℕ) (q : KueueImpl) → IsCounted k (suc n) q → IsCounted k n (taken q)
  IsCounted-taken n q c =
      let e : inc64 q.min_key ≡ q.min_key + 1 = omega (arith, c.bound) in
      record {
        kind = c.kind;
        valid = c.valid;
        count = omega (arith, c.count, c.bound);
        max_key = omega (arith, c.max_key, e);
        bound = omega (arith, c.bound, e);
      }

module _ {W : Type 0} {E : Engine W} (L : Laws E) (k : KindImpl) (h : Handle) where
  -- A valid queue with its messages, the first one to be taken first.
  pub record IsQueue (items : List Text) (s : QueueSys W) : Type 0 where
    pub store : IsValid s.sys
    pub opened : s.sys.store.is_open ≡ true
    pub counted : IsCounted k (length items) s.queue
    pub contains : Contains (L.view s.sys.world) h s.queue.min_key items
