-- ===== src/Kueue/Threads/Numbers.antt =====
-- The numbers of a queue between the steps of its threads.
use librocks_dll.Prelude.{ℕ, suc, ◌+◌, ◌<◌, ◌^◌, Bool, true, false, Option, none, ◌≡◌, ◌∙◌, arith}
use librocks_dll.Prelude.Text.{Text}
use librocks_dll.Kueue.State.{KueueImpl, inc64, dec64}
use librocks_dll.Kueue.Threads.State.{
  PutSide, put_free, claimed, stored, refused, put_leaving, clear_inside, TakeSide, chosen,
  erase_chosen, removed, advanced, clear_testing, clear_chosen, clear_removed, clear_advanced,
}
use librocks_dll.Kueue.Threads.Labels.{count_put}

-- a key that maxKey has passed and that holds no message
abbrev pub ahead : PutSide → ℕ
ahead (claimed v key) = 1
ahead refused = 1
ahead p = 0

-- a message that was put and not counted
abbrev pub uncounted : PutSide → ℕ
uncounted stored = 1
uncounted p = 0

-- a message that was removed, and that minKey, or the count, still has
abbrev pub behind : TakeSide → ℕ
behind removed = 1
behind clear_removed = 1
behind t = 0

abbrev pub overcounted : TakeSide → ℕ
overcounted removed = 1
overcounted advanced = 1
overcounted clear_removed = 1
overcounted clear_advanced = 1
overcounted t = 0

-- Between the wait and fetch_sub.
abbrev pub is_seated : TakeSide → Bool
is_seated (chosen c) = true
is_seated erase_chosen = true
is_seated removed = true
is_seated advanced = true
is_seated clear_chosen = true
is_seated clear_removed = true
is_seated clear_advanced = true
is_seated t = false

abbrev pub is_clear : TakeSide → Bool
is_clear clear_testing = true
is_clear clear_chosen = true
is_clear clear_removed = true
is_clear clear_advanced = true
is_clear t = false

abbrev pub is_inside : PutSide → Bool
is_inside clear_inside = true
is_inside p = false

-- The key that a put has claimed is the one behind the messages.
abbrev pub HasKey : ℕ → PutSide → Type 0
HasKey next (claimed v key) = key ≡ next
HasKey next p = Unit

-- `n` messages from the key `lo` on.
pub record Numbers (lo n : ℕ) (q : KueueImpl) (p : PutSide) (t : TakeSide) : Type 0 where
  pub min_key : q.min_key + behind t ≡ lo
  pub max_key : q.max_key ≡ lo + n + ahead p
  pub key : HasKey (lo + n) p
  pub count : q.count + uncounted p ≡ n + overcounted t
  pub bound : q.max_key < 2 ^ 63
  pub seated : is_seated t ≡ true → 0 < q.count
  pub both : is_clear t ≡ is_inside p

module _ (lo n : ℕ) (q : KueueImpl) where
  pub claim-Numbers :
      (t : TakeSide) (v : Text)
      → q.max_key + 1 < 2 ^ 63
      → Numbers lo n q put_free t
      → Numbers lo n (record q { max_key = inc64 q.max_key }) (claimed v q.max_key) t
  claim-Numbers t v b m = record {
    min_key = m.min_key;
    max_key = omega (arith, m.max_key);
    key = omega (arith, m.max_key);
    count = m.count;
    bound = omega arith;
    seated = m.seated;
    both = m.both;
  }

  pub store-Numbers :
      (t : TakeSide) (v : Text) (key : ℕ)
      → Numbers lo n q (claimed v key) t
      → Numbers lo (suc n) q stored t
  store-Numbers t v key m = record {
    min_key = m.min_key;
    max_key = omega (arith, m.max_key);
    key = tt;
    count = omega (arith, m.count);
    bound = m.bound;
    seated = m.seated;
    both = m.both;
  }

  pub fail-Numbers :
      (t : TakeSide) (v : Text) (key : ℕ)
      → Numbers lo n q (claimed v key) t
      → Numbers lo n q refused t
  fail-Numbers t v key m = record {
    min_key = m.min_key;
    max_key = m.max_key;
    key = tt;
    count = m.count;
    bound = m.bound;
    seated = m.seated;
    both = m.both;
  }

  overcounted_le : (t : TakeSide) → overcounted t < 2
  overcounted_le t = ground arith

  pub add-Numbers :
      (t : TakeSide) (c : Option ℕ)
      → Numbers lo n q stored t
      → Numbers lo n (count_put q) (put_leaving c) t
  add-Numbers t c m =
      let e : inc64 q.count ≡ q.count + 1 =
        omega (arith, m.count, m.max_key, m.bound, overcounted_le t) in
      record {
        min_key = m.min_key;
        max_key = m.max_key;
        key = tt;
        count = omega (arith, m.count, e);
        bound = m.bound;
        seated = λ s. omega (arith, e);
        both = m.both;
      }

  pub give_back-Numbers :
      (t : TakeSide)
      → Numbers lo n q refused t
      → Numbers lo n (record q { max_key = dec64 q.max_key }) (put_leaving none) t
  give_back-Numbers t m = record {
    min_key = m.min_key;
    max_key = omega (arith, m.max_key, m.bound);
    key = tt;
    count = m.count;
    bound = omega (arith, m.max_key, m.bound);
    seated = m.seated;
    both = m.both;
  }

  -- a step of the holder of putLock that leaves the numbers alone
  pub put_side-Numbers :
      (p p' : PutSide) (t : TakeSide)
      → ahead p ≡ ahead p'
      → uncounted p ≡ uncounted p'
      → is_inside p ≡ is_inside p'
      → HasKey (lo + n) p'
      → Numbers lo n q p t
      → Numbers lo n q p' t
  put_side-Numbers p p' t a u i k m = record {
    min_key = m.min_key;
    max_key = omega (arith, m.max_key, a);
    key = k;
    count = omega (arith, m.count, u);
    bound = m.bound;
    seated = m.seated;
    both = m.both ∙ i;
  }
