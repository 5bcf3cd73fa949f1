-- ===== src/Kueue/Threads/Order.antt =====
-- Any interleaving of the threads of a queue is first in, first out.
use librocks_dll.Prelude.{
  ℕ, ◌+◌, ◌<◌, ◌≤◌, ◌^◌, some, List, [], ◌∷◌, ◌++◌, ◌≡◌, refl, ◌∙◌, sym, ap, arith,
}
use librocks_dll.Prelude.Text.{Text}
use librocks_dll.Engine.{Engine, Handle}
use librocks_dll.Engine.Laws.{Laws}
use librocks_dll.Kind.{KindImpl, kind_impl}
use librocks_dll.Kueue.State.{inc64, dec64}
use librocks_dll.Kueue.Threads.State.{Shared, refused}
use librocks_dll.Kueue.Threads.Step
use librocks_dll.Kueue.Threads.Labels.{
  Label, silent, enters, claims, peeks, abandons, stores, delivers, discards,
}
use librocks_dll.Kueue.Threads.Removals.{ClearStep, EraseStep}
use librocks_dll.Kueue.Threads.Step.{
  Step, PutStep, TakeStep, put_step, take_step, clear_step, erase_step,
}
use librocks_dll.Kueue.Threads.Invariant.{IsShared, Effect, with_put}
use librocks_dll.Kueue.Threads.Preserved.{step-Next}
use librocks_dll.Kueue.Threads.Runs.{
  Runs, stop, go, claim_count, claim_counts, stored_values, Gone, none_yet, delivered, discarded,
  passed,
}

append_assoc : (xs ys zs : List Text) → (xs ++ ys) ++ zs ≡ xs ++ (ys ++ zs)
append_assoc [] ys zs = refl
append_assoc (x ∷ xs) ys zs = ap (λ l. x ∷ l) (append_assoc xs ys zs)

inc64_le : (x : ℕ) → inc64 x ≤ x + 1
inc64_le x = omega arith

dec64_le : (x : ℕ) → 0 < x → dec64 x ≤ x
dec64_le x b = omega arith

module _ {W : Type 0} {E : Engine W} (L : Laws E) (k : KindImpl) (h : Handle) where
  -- Only a claim takes a key.
  pub step-max_key :
      (items : List Text) (s : Shared W) (l : Label) (t : Shared W)
      → IsShared L k h items s
      → Step E (kind_impl k) s l t
      → t.queue.max_key ≤ s.queue.max_key + claim_count l
  step-max_key items s l t i (put_step (Step.claim v e x)) = inc64_le s.queue.max_key
  step-max_key items s l t i (put_step (Step.give_back e)) = omega (
    arith,
    dec64_le s.queue.max_key (omega (arith, (with_put L k h items s i refused e).max_key)),
  )
  step-max_key items s l t i (put_step (Step.store v key status r u e x ok)) = omega arith
  step-max_key items s l t i (put_step (PutStep.fail v key status r u e x ok)) = omega arith
  step-max_key items s l t i (put_step (Step.add e)) = omega arith
  step-max_key items s l t i (put_step (PutStep.leave c e)) = omega arith
  step-max_key items s l t i (put_step (Step.enter_signal m x e)) = omega arith
  step-max_key items s l t i (put_step (Step.signal a b e x)) = omega arith
  step-max_key items s l t i (take_step (TakeStep.enter c e x)) = omega arith
  step-max_key items s l t i (take_step (Step.wait c e x)) = omega arith
  step-max_key items s l t i (take_step (Step.wake_up a b c e)) = omega arith
  step-max_key items s l t i (take_step (Step.enter_again a b c x e)) = omega arith
  step-max_key items s l t i (take_step (Step.expire a b c x d e)) = omega arith
  step-max_key items s l t i (take_step (Step.expire_woken a b c x d e)) = omega arith
  step-max_key items s l t i (take_step (Step.give_up c e x)) = omega arith
  step-max_key items s l t i (take_step (TakeStep.choose c e x)) = omega arith
  step-max_key items s l t i (take_step (TakeStep.remove c status m r u e x run ok)) = omega arith
  step-max_key items s l t i (take_step (TakeStep.fail c status m r u e x run ok)) = omega arith
  step-max_key items s l t i (take_step (Step.read c status m r u e x run)) = omega arith
  step-max_key items s l t i (take_step (TakeStep.move_on e)) = omega arith
  step-max_key items s l t i (take_step (TakeStep.subtract e)) = omega arith
  step-max_key items s l t i (take_step (TakeStep.leave c e x)) = omega arith
  step-max_key items s l t i (take_step (Step.pass_on c a b e x y)) = omega arith
  step-max_key items s l t i (erase_step (EraseStep.enter a b key x e y)) = omega arith
  step-max_key items s l t i (erase_step (EraseStep.pass_by key e x)) = omega arith
  step-max_key items s l t i (erase_step (EraseStep.choose key e x)) = omega arith
  step-max_key items s l t i (erase_step (EraseStep.remove r u e run ok)) = omega arith
  step-max_key items s l t i (erase_step (EraseStep.fail r u e run bad)) = omega arith
  step-max_key items s l t i (clear_step (ClearStep.enter e x)) = omega arith
  step-max_key items s l t i (clear_step (ClearStep.enter_both e x)) = omega arith
  step-max_key items s l t i (clear_step (ClearStep.choose e x)) = omega arith
  step-max_key items s l t i (clear_step (ClearStep.remove status r u e run ok)) = omega arith
  step-max_key items s l t i (clear_step (ClearStep.move_on e)) = omega arith
  step-max_key items s l t i (clear_step (ClearStep.subtract e)) = omega arith
  step-max_key items s l t i (clear_step (ClearStep.fail status r u e run bad)) = omega arith
  step-max_key items s l t i (clear_step (ClearStep.leave e x)) = omega arith

  -- What was put and what is gone, after a run.
  pub record Ordered (items : List Text) (ls : List Label) (t : Shared W) : Type 0 where
    pub gone : List Text
    pub left : List Text
    pub went : Gone ls gone
    pub order : items ++ stored_values ls ≡ gone ++ left
    pub shared : IsShared L k h left t

  pub cons-Ordered :
      (l : Label) (items items' : List Text) (ls : List Label) (t : Shared W)
      → Effect l items items'
      → Ordered items' ls t
      → Ordered items (l ∷ ls) t
  cons-Ordered silent items items' ls t e o = record {
    gone = o.gone;
    left = o.left;
    went = passed silent refl o.went;
    order = ap (λ x. x ++ stored_values ls) (sym e) ∙ o.order;
    shared = o.shared;
  }
  cons-Ordered abandons items items' ls t e o = record {
    gone = o.gone;
    left = o.left;
    went = passed abandons refl o.went;
    order = ap (λ x. x ++ stored_values ls) (sym e) ∙ o.order;
    shared = o.shared;
  }
  cons-Ordered peeks items items' ls t e o = record {
    gone = o.gone;
    left = o.left;
    went = passed peeks refl o.went;
    order = ap (λ x. x ++ stored_values ls) (sym e) ∙ o.order;
    shared = o.shared;
  }
  cons-Ordered enters items items' ls t e o = record {
    gone = o.gone;
    left = o.left;
    went = passed enters refl o.went;
    order = ap (λ x. x ++ stored_values ls) (sym e) ∙ o.order;
    shared = o.shared;
  }
  cons-Ordered claims items items' ls t e o = record {
    gone = o.gone;
    left = o.left;
    went = passed claims refl o.went;
    order = ap (λ x. x ++ stored_values ls) (sym e) ∙ o.order;
    shared = o.shared;
  }
  cons-Ordered (stores v) items items' ls t e o = record {
    gone = o.gone;
    left = o.left;
    went = passed (stores v) refl o.went;
    order =
        sym (append_assoc items (v ∷ []) (stored_values ls))
        ∙ ap (λ x. x ++ stored_values ls) (sym e)
        ∙ o.order;
    shared = o.shared;
  }
  cons-Ordered (delivers v) items items' ls t e o = record {
    gone = v ∷ o.gone;
    left = o.left;
    went = delivered v o.went;
    order = ap (λ x. x ++ stored_values ls) e ∙ ap (λ x. v ∷ x) o.order;
    shared = o.shared;
  }
  cons-Ordered discards items items' ls t (v, e) o = record {
    gone = v ∷ o.gone;
    left = o.left;
    went = discarded v o.went;
    order = ap (λ x. x ++ stored_values ls) e ∙ ap (λ x. v ∷ x) o.order;
    shared = o.shared;
  }

  -- From a queue with the messages `items`, however its threads are interleaved and whatever calls of
  -- the store fail, as long as maxKey stays below 2 ^ 63 and erase is called with keys that readNext
  -- returned: the messages that takes returned and that erase and clear dropped, followed by those
  -- that are left, are `items` followed by the values stored, in their order; and the keys, the count
  -- and the column family are again in line with those that are left.
  pub interleaved-Ordered :
      (handle : k.handle_ ≡ some h) (items : List Text) (s : Shared W) (ls : List Label)
      (t : Shared W)
      → s.queue.max_key + claim_counts ls < 2 ^ 63
      → IsShared L k h items s
      → Runs E (kind_impl k) s ls t
      → Ordered items ls t
  interleaved-Ordered handle items s [] t b i stop = record {
    gone = [];
    left = items;
    went = none_yet;
    order = append-nil items;
    shared = i;
  }
    where
      append-nil : (xs : List Text) → xs ++ [] ≡ xs
      append-nil [] = refl
      append-nil (x ∷ xs) = ap (λ l. x ∷ l) (append-nil xs)
  interleaved-Ordered handle items s (l ∷ ls) u b i (go {t} x r) =
      let m = step-max_key items s l t i x in
      let (items', e, j) = step-Next L k h handle items s i l t (λ c. room c) x in
      cons-Ordered l items items' ls u e
        (interleaved-Ordered handle items' t ls u (omega (arith, m)) j r)
    where
      room : l ≡ claims → s.queue.max_key + 1 < 2 ^ 63
      room e = omega (arith, ap claim_count e)
