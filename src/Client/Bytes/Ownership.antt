-- ===== src/Client/Bytes/Ownership.antt =====
-- Who owns a buffer: copies do not share it, and no buffer is deleted twice.
use librocks_dll.Prelude.{
  ℕ, ◌+◌, ◌<◌, true, false, Option, none, some, ◌≡◌, ◌≢◌, refl, ◌∙◌, sym, ap, subst, arith,
}
use librocks_dll.Prelude.Tests.{ltb, length, if◌then◌else◌}
use librocks_dll.Prelude.Text.{Text}
use librocks_dll.Prelude.Action.{
  Returns, Returns-then, Returns-some, Returns-mono, bind-eq, pure, ◌>>◌,
}
use librocks_dll.Client.Bytes.Defs.{
  Heap, Bytes, set_cell, new_buffer, read_buffer, delete_buffer, empty, clear, copy, copy_construct,
  copy_assign, destroy,
}

-- The object `b` holds the bytes `v`, which are not none, in the buffer at `p`.
pub record Owns (h : Heap) (b : Bytes) (p : ℕ) (v : Text) : Type 0 where
  pub size : b.size ≡ length v
  pub positive : 0 < length v
  pub ptr : b.ptr ≡ some p
  pub cell : h.cell p ≡ some v
  pub allocated : p < h.next

module _ (b : Bytes) (p : ℕ) (v : Text) (h : Heap) (o : Owns h b p v) where
  abbrev pub freed : Heap
  freed = record h { cell = set_cell h.cell p none }

  abbrev pub grown : Heap
  grown = record { next = h.next + 1; cell = set_cell h.cell h.next (some v) }

  not_empty : ltb 0 b.size ≡ true
  not_empty = ground (arith, o.size, o.positive)

  delete-eq : delete_buffer b.ptr h ≡ some (tt, freed)
  unfolding delete_buffer
  delete-eq =
      ap (λ x. delete_buffer x h) o.ptr
      ∙ ap
          (λ c. elim c as (λ c. Option (Unit {0} × Heap)) [
            | none ↦ none
            | some v ↦ some (tt, freed)
          ])
          o.cell

  pub clear-eq : clear b h ≡ some (empty, freed)
  unfolding clear
  clear-eq =
      ap (λ c. (if c then (do delete_buffer b.ptr; pure empty) else pure b) h) not_empty
      ∙ bind-eq _ _ h delete-eq

  pub destroy-eq : destroy b h ≡ some (tt, freed)
  unfolding destroy
  destroy-eq = bind-eq _ _ h clear-eq

  read-eq : read_buffer b.ptr h ≡ some (v, h)
  unfolding read_buffer
  read-eq =
      ap (λ x. read_buffer x h) o.ptr
      ∙ ap (λ c. elim c as (λ c. Option (Text × Heap)) [ none ↦ none | some v ↦ some (v, h) ])
          o.cell

  pub copy-eq : copy b h ≡ some (record { size = b.size; ptr = some h.next }, grown)
  unfolding copy new_buffer
  copy-eq = bind-eq _ _ h read-eq ∙ bind-eq _ _ h refl

  pub copy_construct-eq :
      copy_construct b h ≡ some (record { size = b.size; ptr = some h.next }, grown)
  unfolding copy_construct
  copy_construct-eq = ap (λ c. (if c then copy b else pure empty) h) not_empty ∙ copy-eq

  -- after the copy, the copy and the original
  copy-Owns : Owns grown (record { size = b.size; ptr = some h.next }) h.next v
  copy-Owns = record {
    size = o.size;
    positive = o.positive;
    ptr = refl;
    cell = ground arith;
    allocated = omega arith;
  }

  kept-Owns : Owns grown b p v
  kept-Owns = record {
    size = o.size;
    positive = o.positive;
    ptr = o.ptr;
    cell = ground (arith, o.cell, o.allocated);
    allocated = omega (arith, o.allocated);
  }

-- an object survives the deletion of another buffer
other-Owns :
    (h : Heap) (b : Bytes) (p q : ℕ) (v : Text)
    → Owns h b p v
    → p ≢ q
    → Owns (record h { cell = set_cell h.cell q none }) b p v
other-Owns h b p q v o n = record {
  size = o.size;
  positive = o.positive;
  ptr = o.ptr;
  cell = ground (arith, o.cell, n);
  allocated = o.allocated;
}

next-fresh : (p n : ℕ) → p < n → n ≢ p
next-fresh p n l e = omega (arith, l, e)

-- the deletion of a buffer, and the allocation of the next one
gone_buffer :
    (p : ℕ) (h : Heap) (w : Text)
    → p < h.next
    → set_cell (set_cell h.cell p none) h.next (some w) p ≡ none
gone_buffer p h w l = ground arith

both_gone :
    (c : ℕ → Option Text) (p q : ℕ)
    → p ≢ q
    → (set_cell (set_cell c p none) q none p ≡ none)
      × (set_cell (set_cell c p none) q none q ≡ none)
both_gone c p q n = (ground arith, ground arith)

both-destroyed :
    (b c : Bytes) (p q : ℕ) (v w : Text) (t : Heap)
    → Owns t b p v
    → Owns t c q w
    → p ≢ q
    → Returns ((do destroy b; destroy c) t) (λ u w. (w.cell p ≡ none) × (w.cell q ≡ none))
both-destroyed b c p q v w t o x n = Returns-then _ _ _ (destroy-eq b p v t o) (
    subst (λ r. Returns r (λ u w. (w.cell p ≡ none) × (w.cell q ≡ none)))
      (sym (destroy-eq c q w (freed b p v t o) (other-Owns t c q p w x (λ e. n (sym e)))))
      (Returns-some (both_gone t.cell p q n)))

-- The copy constructor returns an object that owns a new buffer with the same bytes. The original
-- keeps its buffer, and both destructors then run without a fault, in either order.
pub copy_construct-Owns :
    (b : Bytes) (p : ℕ) (v : Text) (h : Heap)
    → Owns h b p v
    → Returns (copy_construct b h) (λ c t.
      (q : ℕ) × (q ≢ p)
      × Owns t c q v
      × Owns t b p v
      × Returns ((do destroy b; destroy c) t) (λ u w. (w.cell p ≡ none) × (w.cell q ≡ none))
      × Returns ((do destroy c; destroy b) t) (λ u w. (w.cell p ≡ none) × (w.cell q ≡ none)))
copy_construct-Owns b p v h o =
    let n : h.next ≢ p = λ e. next-fresh p h.next o.allocated e in
    let c = copy-Owns b p v h o in
    let k = kept-Owns b p v h o in
    subst
      (λ r. Returns r (λ c t.
        (q : ℕ) × (q ≢ p)
        × Owns t c q v
        × Owns t b p v
        × Returns ((do destroy b; destroy c) t) (λ u w. (w.cell p ≡ none) × (w.cell q ≡ none))
        × Returns ((do destroy c; destroy b) t) (λ u w. (w.cell p ≡ none) × (w.cell q ≡ none))))
      (sym (copy_construct-eq b p v h o))
      (Returns-some (
        h.next,
        n,
        c,
        k,
        both-destroyed b _ p h.next v v (grown b p v h o) k c (λ e. n (sym e)),
        Returns-mono _ (both-destroyed _ b h.next p v v (grown b p v h o) c k n)
            (λ u w x. (x.1, x.0)),
      ))

-- Copy assignment to another object deletes the buffer that it had, and leaves it with a new buffer
-- with the bytes of the source, which keeps its own.
pub copy_assign-Owns :
    (this other : Bytes) (p q : ℕ) (v w : Text) (h : Heap)
    → Owns h this p v
    → Owns h other q w
    → p ≢ q
    → Returns
        (copy_assign false this other h)
        (λ c t. (r : ℕ) × (r ≢ q) × Owns t c r w × Owns t other q w × (t.cell p ≡ none))
unfolding copy_assign
copy_assign-Owns this other p q v w h o x n =
    let t = freed this p v h o in
    let y : Owns t other q w = other-Owns h other q p w x (λ e. n (sym e)) in
    Returns-then _ _ _ (clear-eq this p v h o) (
      subst
        (λ r.
          Returns r
            (λ c t. (r : ℕ) × (r ≢ q) × Owns t c r w × Owns t other q w × (t.cell p ≡ none)))
        (sym (
          ap (λ c. (if c then copy other else pure empty) t) (not_empty other q w t y)
          ∙ copy-eq other q w t y))
        (Returns-some (
          h.next,
          (λ e. next-fresh q h.next x.allocated e),
          copy-Owns other q w t y,
          kept-Owns other q w t y,
          gone_buffer p h w o.allocated,
        )))
