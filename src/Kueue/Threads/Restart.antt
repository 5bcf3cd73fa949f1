-- ===== src/Kueue/Threads/Restart.antt =====
-- The constructor of a queue after its threads were stopped anywhere.
use librocks_dll.Prelude.{ℕ, ◌+◌, ◌<◌, ◌^◌, some, List, [], ◌∷◌, ◌≡◌, refl, ap, arith}
use librocks_dll.Prelude.Tests.{length, length-append, if◌then◌else◌}
use librocks_dll.Prelude.Text.{Text, c_str}
use librocks_dll.Prelude.Map.{find}
use librocks_dll.Prelude.Action.{Returns, Returns-mono}
use librocks_dll.Engine.{Engine, Handle}
use librocks_dll.Engine.Laws.{Laws}
use librocks_dll.Kind.{KindImpl, kind_impl}
use librocks_dll.Store.State.{Sys}
use librocks_dll.Kueue.State.{KueueImpl}
use librocks_dll.Kueue.Recover.{new_kueue}
use librocks_dll.Kueue.Reopen.{Reopened, new_kueue-Reopened}
use librocks_dll.Kueue.Threads.State.{Shared}
use librocks_dll.Kueue.Threads.Labels.{Label}
use librocks_dll.Kueue.Threads.Invariant.{IsShared}
use librocks_dll.Kueue.Threads.Runs.{
  Runs, Gone, none_yet, delivered, discarded, passed, takes_out, stored_values, claim_counts,
}
use librocks_dll.Kueue.Threads.Order.{Ordered, interleaved-Ordered}

-- how many messages were returned or dropped
abbrev pub removals : List Label → ℕ
removals [] = 0
removals (l ∷ ls) = (if takes_out l then 1 else 0) + removals ls

Gone-length : (ls : List Label) (gone : List Text) → Gone ls gone → length gone ≡ removals ls
Gone-length [] gone none_yet = refl
Gone-length (l ∷ ls) gone (delivered v g) = omega (arith, Gone-length ls _ g)
Gone-length (l ∷ ls) gone (discarded v g) = omega (arith, Gone-length ls _ g)
Gone-length (l ∷ ls) gone (passed m e g) =
    omega (arith, ap {B = ℕ} (λ b. (if b then 1 else 0)) e, Gone-length ls gone g)

module _ {W : Type 0} {E : Engine W} (L : Laws E) (k : KindImpl) (h : Handle)
    (handle : k.handle_ ≡ some h) where
  -- What a new KueueImpl finds: the messages that were neither returned nor dropped.
  pub record Restarted (items : List Text) (ls : List Label) (t : Shared W) (q : KueueImpl)
      (u : Sys W) : Type 0 where
    pub ordered : Ordered L k h items ls t
    pub bound : ordered.shared.lo + length ordered.left < 2 ^ 63
    pub some_left : 0 < length ordered.left
    pub back : Reopened L k h handle ordered.shared.lo ordered.left bound some_left t.sys q u

  some-left :
      (items : List Text) (ls : List Label) (t : Shared W)
      → removals ls < length items + length (stored_values ls)
      → (o : Ordered L k h items ls t) → 0 < length o.left
  some-left items ls t b o = omega (
    arith,
    ap length o.order,
    length-append items (stored_values ls),
    length-append o.gone o.left,
    Gone-length ls o.gone o.went,
  )

  -- The threads of a queue with the messages `items` are stopped anywhere, while there is still a
  -- message, on a store that knows the kind of the identifier. The constructor of a new queue for it
  -- returns without a fault, and the queue holds the messages of `items`, and of those that were
  -- stored since, that were neither returned nor dropped, in their order. Else it is not valid, and
  -- RocksDB gave findMinKey or findMaxKey no iterator; or the iterator of one of them has no key
  -- after its seek.
  pub new_kueue-Restarted :
      (items : List Text) (s : Shared W) (ls : List Label) (t : Shared W) (id : Text)
      → s.queue.max_key + claim_counts ls < 2 ^ 63
      → removals ls < length items + length (stored_values ls)
      → IsShared L k h items s
      → Runs E (kind_impl k) s ls t
      → find (c_str id) t.sys.store.kinds ≡ some k
      → Returns (new_kueue E id t.sys) (Restarted items ls t)
  new_kueue-Restarted items s ls t id b m i r known =
      let o = interleaved-Ordered L k h handle items s ls t b i r in
      let c : o.shared.lo + length o.left < 2 ^ 63 =
        omega (arith, o.shared.numbers.max_key, o.shared.numbers.bound) in
      let p : 0 < length o.left = some-left items ls t m o in
      Returns-mono _
        (new_kueue-Reopened L k h handle o.shared.lo o.left c p t.sys o.shared.holds.contains id
          o.shared.holds.store o.shared.holds.opened known)
        (λ q u x. record { ordered = o; bound = c; some_left = p; back = x })
