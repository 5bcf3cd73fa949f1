-- ===== src/Kueue/Threads/Moves.antt =====
-- How the holder of takeLock moves the numbers of a queue.
use librocks_dll.Prelude.{
  ℕ, suc, ◌+◌, ◌<◌, ◌^◌, true, false, ◌≡◌, refl, ◌∙◌, sym, false≢true, arith,
}
use librocks_dll.Kueue.State.{KueueImpl, is_positive}
use librocks_dll.Kueue.Threads.State.{
  Waiter, goes_on, take, take_timed, read_next, PutSide, put_free, clear_waits, clear_inside,
  TakeSide, take_free, clear_testing,
}
use librocks_dll.Kueue.Threads.Labels.{count_take, advance, notify}
use librocks_dll.Kueue.Threads.Numbers.{
  Numbers, behind, overcounted, is_seated, is_clear, is_inside, ahead, uncounted, HasKey,
}

module _ (lo n : ℕ) (q : KueueImpl) where
  -- a step of the holder of takeLock that leaves the numbers alone
  pub take_side-Numbers :
      (p : PutSide) (t t' : TakeSide)
      → behind t ≡ behind t'
      → overcounted t ≡ overcounted t'
      → is_clear t ≡ is_clear t'
      → (is_seated t' ≡ true → 0 < q.count)
      → Numbers lo n q p t
      → Numbers lo n q p t'
  take_side-Numbers p t t' a u i s m = record {
    min_key = omega (arith, m.min_key, a);
    max_key = m.max_key;
    key = m.key;
    count = omega (arith, m.count, u);
    bound = m.bound;
    seated = s;
    both = sym i ∙ m.both;
  }

  pub move_on-Numbers :
      (p : PutSide) (t t' : TakeSide)
      → behind t ≡ 1
      → behind t' ≡ 0
      → overcounted t ≡ overcounted t'
      → is_clear t ≡ is_clear t'
      → is_seated t ≡ true
      → Numbers lo n q p t
      → Numbers lo n (advance q) p t'
  move_on-Numbers p t t' a b u i s m = record {
    min_key = omega (arith, m.min_key, m.max_key, m.bound, a, b);
    max_key = m.max_key;
    key = m.key;
    count = omega (arith, m.count, u);
    bound = m.bound;
    seated = λ e. m.seated s;
    both = sym i ∙ m.both;
  }

  pub subtract-Numbers :
      (p : PutSide) (t t' : TakeSide)
      → behind t ≡ behind t'
      → overcounted t ≡ 1
      → overcounted t' ≡ 0
      → is_clear t ≡ is_clear t'
      → is_seated t ≡ true
      → is_seated t' ≡ false
      → Numbers lo n q p t
      → Numbers lo n (count_take q) p t'
  subtract-Numbers p t t' a u v i s r m =
      let c : 0 < q.count = m.seated s in
      record {
        min_key = omega (arith, m.min_key, a);
        max_key = m.max_key;
        key = m.key;
        count = omega (arith, m.count, u, v, c, m.max_key, m.bound);
        bound = m.bound;
        seated = λ e. absurd (false≢true (sym r ∙ e));
        both = sym i ∙ m.both;
      }

shift-HasKey : (lo n : ℕ) (p : PutSide) → HasKey (lo + suc n) p → HasKey (lo + 1 + n) p
shift-HasKey lo n p e = ground arith

-- The first message is removed.
pub remove-Numbers :
    (lo n : ℕ) (q : KueueImpl) (p : PutSide) (t t' : TakeSide)
    → behind t ≡ 0
    → behind t' ≡ 1
    → overcounted t ≡ 0
    → overcounted t' ≡ 1
    → is_clear t ≡ is_clear t'
    → is_seated t ≡ true
    → Numbers lo (suc n) q p t
    → Numbers (lo + 1) n q p t'
remove-Numbers lo n q p t t' a b u v i s m = record {
  min_key = omega (arith, m.min_key, a, b);
  max_key = omega (arith, m.max_key);
  key = shift-HasKey lo n p m.key;
  count = omega (arith, m.count, u, v);
  bound = m.bound;
  seated = λ e. m.seated s;
  both = sym i ∙ m.both;
}

-- clear has both locks, and leaves with both.
pub enter_both-Numbers :
    (lo n : ℕ) (q : KueueImpl)
    → Numbers lo n q clear_waits take_free
    → Numbers lo n q clear_inside clear_testing
enter_both-Numbers lo n q m = record {
  min_key = m.min_key;
  max_key = m.max_key;
  key = tt;
  count = m.count;
  bound = m.bound;
  seated = λ e. absurd (false≢true e);
  both = refl;
}

inside-ahead : (p : PutSide) → is_inside p ≡ true → (ahead p ≡ 0) × (uncounted p ≡ 0)
inside-ahead p e = ground arith

pub leave_both-Numbers :
    (lo n : ℕ) (q : KueueImpl) (p : PutSide) (t : TakeSide)
    → is_clear t ≡ true
    → behind t ≡ 0
    → overcounted t ≡ 0
    → Numbers lo n q p t
    → Numbers lo n q put_free take_free
leave_both-Numbers lo n q p t c b o m =
    let (a, u) = inside-ahead p (sym m.both ∙ c) in
    record {
      min_key = omega (arith, m.min_key, b);
      max_key = omega (arith, m.max_key, a);
      key = tt;
      count = omega (arith, m.count, u, o);
      bound = m.bound;
      seated = λ e. absurd (false≢true e);
      both = refl;
    }

pub notify-Numbers :
    (lo n : ℕ) (q : KueueImpl) (p : PutSide) (t : TakeSide)
    → Numbers lo n q p t
    → Numbers lo n (notify q) p t
notify-Numbers lo n q p t m = record {
  min_key = m.min_key;
  max_key = m.max_key;
  key = m.key;
  count = m.count;
  bound = m.bound;
  seated = m.seated;
  both = m.both;
}

-- A seated thread has a message in front of it.
pub seated-message :
    (lo n : ℕ) (q : KueueImpl) (p : PutSide) (t : TakeSide)
    → is_seated t ≡ true
    → overcounted t ≡ 0
    → Numbers lo n q p t
    → 0 < n
seated-message lo n q p t s u m = omega (arith, m.seated s, m.count, u)

pub goes_on-positive : (c : Waiter) (count : ℕ) → goes_on c count ≡ true → 0 < count
goes_on-positive take count e = ground arith
goes_on-positive (take_timed n) count e = ground arith
goes_on-positive (read_next n) count e = ground arith

pub goes_on-zero : (c : Waiter) (count : ℕ) → count < 2 ^ 63 → goes_on c count ≡ false → count ≡ 0
goes_on-zero take count b e = ground arith
goes_on-zero (take_timed n) count b e = ground arith
goes_on-zero (read_next n) count b e = ground arith

pub is_positive-positive : (count : ℕ) → is_positive count ≡ true → 0 < count
is_positive-positive count e = ground arith
