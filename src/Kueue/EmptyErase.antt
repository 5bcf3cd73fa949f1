-- ===== src/Kueue/EmptyErase.antt =====
-- erase does not test that there is a message.
use librocks_dll.Prelude.{
  ◌+◌, ◌&&◌, Bool, true, false, some, [], ◌≡◌, ◌∙◌, sym, ap, false≢true, arith,
}
use librocks_dll.Prelude.Tests.{negsuc, ◌==◌, if◌then◌else◌}
use librocks_dll.Prelude.Action.{
  Action, Returns, Returns-then, Returns-some, Returns-if, pure, ◌>>◌,
}
use librocks_dll.Status
use librocks_dll.Status.{IntPtr}
use librocks_dll.Engine.{Engine, Handle}
use librocks_dll.Engine.Laws.{Laws, single_deletes}
use librocks_dll.Codec.Bytes.{put_u64_be}
use librocks_dll.Kind.{KindImpl, kind_impl}
use librocks_dll.Store.State.{Sys}
use librocks_dll.Store.Outcome.{Outcome}
use librocks_dll.Store.Writes.{single_remove_lem}
use librocks_dll.Store.RoundTrip.{Written-open}
use librocks_dll.Store.Updates.{int_ne}
use librocks_dll.Kueue.State.{
  QueueSys, dec64, is_ok, taken, signed64, size, modify_queue, in_store-Returns,
}
use librocks_dll.Kueue.Operations.{erase}
use librocks_dll.Kueue.IsQueue.{IsQueue}
use librocks_dll.Kueue.Fifo.{get_kind_ref-eq}

module _ {W : Type 0} {E : Engine W} (L : Laws E) (k : KindImpl) (h : Handle)
    (handle : k.handle_ ≡ some h) (s : QueueSys W) (q : IsQueue L k h [] s) where
  abbrev Broken : Bool → QueueSys W → Type 0
  Broken b t = b ≡ true → (size t.queue ≡ negsuc 0) × (t.queue.min_key ≡ t.queue.max_key + 1)

  taken_size : size (taken s.queue) ≡ negsuc 0
  unfolding size
  taken_size = ap (λ c. signed64 (dec64 c)) q.counted.count

  taken_keys : (taken s.queue).min_key ≡ s.queue.max_key + 1
  taken_keys = omega (arith, q.counted.max_key, q.counted.bound)

  after_erase : IntPtr → Action (QueueSys W) Bool
  after_erase st = do (if is_ok st then modify_queue taken else pure tt); pure (is_ok st)

  after_erase-Broken :
      (st : IntPtr) (u : Sys W)
      → Outcome L (single_deletes h (put_u64_be s.queue.min_key)) (some Status.ok) s.sys st u
      → Returns (after_erase st (record s { sys = u })) Broken
  unfolding after_erase
  after_erase-Broken st u (Outcome.done f a e) =
      Returns-then _ _ _
        (ap (λ p. (if is_ok p then modify_queue taken else pure tt) (record s { sys = u })) e)
        (Returns-some (λ b. (taken_size, taken_keys)))
  after_erase-Broken st u (Outcome.failed p c n e) =
      let e' : is_ok st ≡ false = ap is_ok e ∙ int_ne c Status.ok n in
      Returns-then _ _ _
        (ap (λ b. (if b then modify_queue taken else pure tt) (record s { sys = u })) e')
        (Returns-some (λ b. absurd (false≢true (sym e' ∙ b))))

  -- On a valid queue of an open store that holds no message, erase of its smallest key, where it
  -- returns true, leaves the size -1 and the smallest key above the key of the next put.
  pub erase-empty :
      Returns
        (erase E s.queue.min_key s)
        (λ b t. b ≡ true → (size t.queue ≡ negsuc 0) × (t.queue.min_key ≡ t.queue.max_key + 1))
  unfolding erase after_erase-Broken after_erase
  erase-empty =
      Returns-if (s.queue.is_valid && s.queue.min_key == s.queue.min_key)
        (λ g. Returns-then _ _ _ (get_kind_ref-eq (kind_impl k) s q.counted.kind) (
          in_store-Returns _ _ _ _
            (single_remove_lem L (some Status.ok) (kind_impl k) s.sys
              (some (put_u64_be s.queue.min_key)) q.store)
            (λ st u w.
              after_erase-Broken st u
                (Written-open L k h handle _ s.sys q.store q.opened _ Status.ok st u w.1))))
        (λ g. Returns-some (λ b. absurd (false≢true b)))
