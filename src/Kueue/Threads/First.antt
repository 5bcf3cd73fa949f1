-- ===== src/Kueue/Threads/First.antt =====
-- The store's calls on the first message, made by the holder of takeLock.
use librocks_dll.Prelude.{
  ℕ, suc, ◌+◌, ◌<◌, true, false, none, some, List, [], ◌∷◌, ◌≡◌, refl, sym, ap, subst, false≢true,
  arith,
}
use librocks_dll.Prelude.Tests.{length}
use librocks_dll.Prelude.Text.{Text}
use librocks_dll.Status.{IntPtr}
use librocks_dll.Engine.{Engine, Handle}
use librocks_dll.Engine.Laws.{Laws}
use librocks_dll.Codec.Bytes.{put_u64_be}
use librocks_dll.Kind.{KindImpl, kind_impl}
use librocks_dll.Store.State.{Sys, SizePtr, Reply}
use librocks_dll.Store.Write
use librocks_dll.Store.Update
use librocks_dll.Kueue.State.{is_ok, local_state}
use librocks_dll.Kueue.Threads.State.{Waiter, TakeSide, chosen, removed, take_leaving, Shared}
use librocks_dll.Kueue.Threads.Labels.{abandons, delivers, discards, text_of}
use librocks_dll.Kueue.Threads.Numbers.{
  Numbers, uncounted, behind, overcounted, is_seated, is_clear,
}
use librocks_dll.Kueue.Threads.Moves.{take_side-Numbers, remove-Numbers}
use librocks_dll.Kueue.Threads.Calls.{remove-Holds, take-Holds}
use librocks_dll.Kueue.Threads.Contents.{Holds}
use librocks_dll.Kueue.Threads.Keys.{Keys, ErasesBelow, move-Keys}
use librocks_dll.Kueue.Threads.Invariant.{take_side-Keys, IsShared, Next}

module _ {W : Type 0} {E : Engine W} (L : Laws E) (k : KindImpl) (h : Handle) where
  module _ (handle : k.handle_ ≡ some h) (s : Shared W) where
    -- The thread that holds takeLock removes the first message.
    first-Numbers :
        (t t' : TakeSide) (v : Text) (rest : List Text) (i : IsShared L k h (v ∷ rest) s)
        → s.take_side ≡ t
        → behind t ≡ 0
        → behind t' ≡ 1
        → overcounted t ≡ 0
        → overcounted t' ≡ 1
        → is_clear t ≡ is_clear t'
        → is_seated t ≡ true
        → Numbers (i.lo + 1) (length rest) s.queue s.put_side t'
    first-Numbers t t' v rest i e a b u w c d =
        remove-Numbers i.lo (length rest) s.queue s.put_side t t' a b u w c d
          (subst (λ t. Numbers i.lo (suc (length rest)) s.queue s.put_side t) e i.numbers)

    first-Keys :
        (t' : TakeSide) (v : Text) (rest : List Text) (i : IsShared L k h (v ∷ rest) s)
        → ErasesBelow (uncounted s.put_side) (i.lo + 1 + length rest) t'
        → Keys (i.lo + 1) (length rest) s.put_side t' s.read_keys
    first-Keys t' v rest i x =
        move-Keys i.lo (suc (length rest)) s.put_side (i.lo + 1) (length rest) s.put_side
          s.take_side t' s.read_keys (omega arith) x i.keys

    first_key :
        (t : TakeSide) (items : List Text) (i : IsShared L k h items s)
        → s.take_side ≡ t
        → behind t ≡ 0
        → s.queue.min_key ≡ i.lo
    first_key t items i e a = omega (arith, i.numbers.min_key, ap behind e, a)

    pub take-Next :
        (items : List Text) (c : Waiter) (status : IntPtr) (m : SizePtr) (r : Reply) (u : Sys W)
        → IsShared L k h items s
        → 0 < length items
        → s.take_side ≡ chosen c
        → Update.single_remove_if_present E
            (local_state status)
            (kind_impl k)
            m
            (some (put_u64_be s.queue.min_key))
            s.sys
          ≡ some (r, u)
        → ((is_ok r.status ≡ true)
            → Next L k h
                (delivers (text_of r.value))
                items
                (record s { take_side = removed; sys = u }))
          × ((is_ok r.status ≡ false)
              → Next L k h abandons items (record s { take_side = take_leaving none; sys = u }))
    take-Next [] c status m r u i b e x = absurd (omega (arith, b))
    take-Next (v ∷ rest) c status m r u i b e x =
        let y =
          take-Holds L k h handle i.lo v rest status m s.sys r u
            (omega (arith, i.numbers.max_key, i.numbers.bound)) i.holds
            (subst
              (λ key.
                Update.single_remove_if_present E (local_state status) (kind_impl k) m
                  (some (put_u64_be key)) s.sys
                ≡ some (r, u))
              (first_key (chosen c) (v ∷ rest) i e refl) x) in
        (
          (λ ok. (
            rest,
            ap (λ w. w ∷ rest) (sym (y.0 ok).0),
            record {
              lo = i.lo + 1;
              kind = i.kind;
              valid = i.valid;
              keys = first-Keys removed v rest i tt;
              numbers = first-Numbers (chosen c) removed v rest i e refl refl refl refl refl refl;
              holds = (y.0 ok).1;
            },
          )),
          (λ bad. (
            v ∷ rest,
            refl,
            record {
              lo = i.lo;
              kind = i.kind;
              valid = i.valid;
              keys = take_side-Keys L k h (v ∷ rest) s i (take_leaving none) tt;
              numbers =
                  take_side-Numbers i.lo (suc (length rest)) s.queue s.put_side (chosen c)
                    (take_leaving none) refl refl refl (λ z. absurd (false≢true z))
                    (subst (λ t. Numbers i.lo (suc (length rest)) s.queue s.put_side t) e
                      i.numbers);
              holds = y.1 bad;
            },
          )),
        )

    pub discard-Next :
        (t t' : TakeSide) (items : List Text) (status r : IntPtr) (u : Sys W)
        → behind t ≡ 0
        → behind t' ≡ 1
        → overcounted t ≡ 0
        → overcounted t' ≡ 1
        → is_clear t ≡ is_clear t'
        → is_seated t ≡ true
        → ((u bound : ℕ) → ErasesBelow u bound t')
        → (i : IsShared L k h items s) → 0 < length items
        → s.take_side ≡ t
        → Write.single_remove E
            (local_state status)
            (kind_impl k)
            (some (put_u64_be s.queue.min_key))
            s.sys
          ≡ some (r, u)
        → ((is_ok r ≡ true) → Next L k h discards items (record s { take_side = t'; sys = u }))
          × ((is_ok r ≡ false) → Holds L k h i.lo items u)
    discard-Next t t' [] status r u a a' o o' c z erased i b e x = absurd (omega (arith, b))
    discard-Next t t' (v ∷ rest) status r u a a' o o' c z erased i b e x =
        let y =
          remove-Holds L k h handle i.lo v rest status s.sys r u
            (omega (arith, i.numbers.max_key, i.numbers.bound)) i.holds
            (subst
              (λ key.
                Write.single_remove E (local_state status) (kind_impl k) (some (put_u64_be key))
                  s.sys
                ≡ some (r, u))
              (first_key t (v ∷ rest) i e a) x) in
        (
          (λ ok. (
            rest,
            (v, refl),
            record {
              lo = i.lo + 1;
              kind = i.kind;
              valid = i.valid;
              keys =
                  first-Keys t' v rest i (erased (uncounted s.put_side) (i.lo + 1 + length rest));
              numbers = first-Numbers t t' v rest i e a a' o o' c z;
              holds = y.0 ok;
            },
          )),
          y.1,
        )
