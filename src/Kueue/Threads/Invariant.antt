-- ===== src/Kueue/Threads/Invariant.antt =====
-- What holds between the steps of a queue's threads: a sequence of messages, and the numbers and the
-- column family to match.
use librocks_dll.Prelude.{
  ℕ, ◌+◌, ◌≤◌, ◌<◌, true, false, some, List, [], ◌∷◌, ◌++◌, ◌≡◌, ◌∙◌, sym, subst, false≢true, arith,
}
use librocks_dll.Prelude.Tests.{length}
use librocks_dll.Prelude.Text.{Text}
use librocks_dll.Engine.{Engine, Handle}
use librocks_dll.Engine.Laws.{Laws}
use librocks_dll.Kind.{KindImpl, kind_impl}
use librocks_dll.Kueue.Threads.State.{PutSide, TakeSide, Shared}
use librocks_dll.Kueue.Threads.Labels.{
  Label, silent, enters, claims, peeks, abandons, stores, delivers, discards,
}
use librocks_dll.Kueue.Threads.Numbers.{
  Numbers, uncounted, behind, overcounted, is_seated, is_clear,
}
use librocks_dll.Kueue.Threads.Moves.{take_side-Numbers, seated-message}
use librocks_dll.Kueue.Threads.Keys.{Keys, ErasesBelow, put-Keys, move-Keys}
use librocks_dll.Kueue.Threads.Contents.{Holds}

-- What a step does to the messages.
abbrev pub Effect : Label → List Text → List Text → Type 0
Effect silent items items' = items' ≡ items
Effect enters items items' = items' ≡ items
Effect claims items items' = items' ≡ items
Effect peeks items items' = items' ≡ items
Effect abandons items items' = items' ≡ items
Effect (stores value) items items' = items' ≡ items ++ value ∷ []
Effect (delivers value) items items' = items ≡ value ∷ items'
Effect discards items items' = (value : Text) × (items ≡ value ∷ items')

module _ {W : Type 0} {E : Engine W} (L : Laws E) (k : KindImpl) (h : Handle) where
  pub record IsShared (items : List Text) (s : Shared W) : Type 0 where
    pub lo : ℕ
    pub kind : s.queue.queue_kind ≡ some (kind_impl k)
    pub valid : s.queue.is_valid ≡ true
    pub numbers : Numbers lo (length items) s.queue s.put_side s.take_side
    pub keys : Keys lo (length items) s.put_side s.take_side s.read_keys
    pub holds : Holds L k h lo items s.sys

  -- what is left after a step
  abbrev pub Next : Label → List Text → Shared W → Type 0
  Next l items t = (items' : List Text) × Effect l items items' × IsShared items' t

  module _ (items : List Text) (s : Shared W) (i : IsShared items s) where
    abbrev n : ℕ
    n = length items

    -- the numbers where one of the sides is known
    pub with_put : (p : PutSide) → s.put_side ≡ p → Numbers i.lo n s.queue p s.take_side
    with_put p e = subst (λ p. Numbers i.lo n s.queue p s.take_side) e i.numbers

    pub with_take : (t : TakeSide) → s.take_side ≡ t → Numbers i.lo n s.queue s.put_side t
    with_take t e = subst (λ t. Numbers i.lo n s.queue s.put_side t) e i.numbers

    -- the keys where one of the sides moves, and no message comes or goes
    pub put_side-Keys :
        (p : PutSide) → uncounted p ≤ uncounted s.put_side → Keys i.lo n p s.take_side s.read_keys
    put_side-Keys p e =
        put-Keys i.lo n s.put_side n p s.take_side s.read_keys (omega (arith, e)) i.keys

    pub take_side-Keys :
        (t : TakeSide)
        → ErasesBelow (uncounted s.put_side) (i.lo + n) t
        → Keys i.lo n s.put_side t s.read_keys
    take_side-Keys t x =
        move-Keys i.lo n s.put_side i.lo n s.put_side s.take_side t s.read_keys (omega arith) x
          i.keys

    -- the holder of takeLock, where it moves no number
    pub moved :
        (t t' : TakeSide)
        → s.take_side ≡ t
        → behind t ≡ behind t'
        → overcounted t ≡ overcounted t'
        → is_clear t ≡ is_clear t'
        → (is_seated t' ≡ true → 0 < s.queue.count)
        → Numbers i.lo n s.queue s.put_side t'
    moved t t' e a u c d = take_side-Numbers i.lo n s.queue s.put_side t t' a u c d (with_take t e)

    pub stood :
        (t t' : TakeSide)
        → s.take_side ≡ t
        → behind t ≡ behind t'
        → overcounted t ≡ overcounted t'
        → is_clear t ≡ is_clear t'
        → is_seated t' ≡ false
        → Numbers i.lo n s.queue s.put_side t'
    stood t t' e a u c d = moved t t' e a u c (λ z. absurd (false≢true (sym d ∙ z)))

    pub message : (t : TakeSide) → s.take_side ≡ t → is_seated t ≡ true → overcounted t ≡ 0 → 0 < n
    message t e a u = seated-message i.lo n s.queue s.put_side t a u (with_take t e)
