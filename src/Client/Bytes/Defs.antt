-- ===== src/Client/Bytes/Defs.antt =====
-- bytes of include/client/bytes.h and src/client/bytes.cpp: a buffer with an owner. The heap says
-- which buffers are allocated; `none` is the deletion of, or a read through, a dangling pointer.
use librocks_dll.Prelude.{ℕ, zero, suc, ◌+◌, Bool, true, false, Option, none, some, [], ◌∷◌}
use librocks_dll.Prelude.Tests.{◌==◌, ltb, is_some, if◌then◌else◌}
use librocks_dll.Prelude.Text.{Text}
use librocks_dll.Prelude.Action.{Action, pure, ◌>>=◌, ◌>>◌}

pub record Heap : Type 0 where
  pub next : ℕ
  pub cell : ℕ → Option Text

pub record Bytes : Type 0 where
  pub size : ℕ
  pub ptr : Option ℕ

abbrev pub set_cell : (ℕ → Option Text) → ℕ → Option Text → ℕ → Option Text
set_cell f p v q = if p == q then v else f q

-- new char[…], filled
unfoldable pub new_buffer : Text → Action Heap ℕ
new_buffer v h = some (h.next, record { next = h.next + 1; cell = set_cell h.cell h.next (some v) })

unfoldable pub read_buffer : Option ℕ → Action Heap Text
read_buffer none h = none
read_buffer (some p) h = elim (h.cell p) [ none ↦ none | some v ↦ some (v, h) ]

-- delete[]; of a null pointer it does nothing
unfoldable pub delete_buffer : Option ℕ → Action Heap (Unit {0})
delete_buffer none h = some (tt, h)
delete_buffer (some p) h = elim (h.cell p) [
  | none ↦ none
  | some v ↦ some (tt, record h { cell = set_cell h.cell p none })
]

abbrev pub empty : Bytes
empty = record { size = 0; ptr = none }

-- bytes(char*, size_t), for KVStore
unfoldable pub from_buffer : Option ℕ → ℕ → Bytes
from_buffer p n = record { size = n; ptr = p }

-- isEmpty, operator bool, and toString where the buffer holds `size` bytes
abbrev pub is_empty : Bytes → Bool
is_empty b = b.size == 0

abbrev pub to_bool : Bytes → Bool
to_bool b = is_some b.ptr

-- operator[]: the assertion, and the read
abbrev pub byte_at : Text → ℕ → Option ℕ
byte_at [] i = none
byte_at (c ∷ cs) zero = some c
byte_at (c ∷ cs) (suc i) = byte_at cs i

unfoldable pub to_string : Bytes → Action Heap Text
to_string b = read_buffer b.ptr

unfoldable pub clear : Bytes → Action Heap Bytes
clear b = if ltb 0 b.size then (do delete_buffer b.ptr; pure empty) else pure b

-- swap(src), of `this` and `src`
unfoldable pub swap : Bytes → Bytes → Bytes × Bytes
swap this src = (
  record this { size = src.size; ptr = src.ptr },
  record src { size = this.size; ptr = this.ptr },
)

-- copy(other)
unfoldable pub copy : Bytes → Action Heap Bytes
copy other = do
  v ← read_buffer other.ptr
  p ← new_buffer v
  pure (record { size = other.size; ptr = some p })

-- bytes(const bytes&)
unfoldable pub copy_construct : Bytes → Action Heap Bytes
copy_construct other = if ltb 0 other.size then copy other else pure empty

-- operator=(const bytes&); `same` is the test `this == &other`
unfoldable pub copy_assign : Bool → Bytes → Bytes → Action Heap Bytes
copy_assign true this other = pure this
copy_assign false this other = do
  cleared ← clear this
  if ltb 0 other.size then copy other else pure cleared

-- bytes(bytes&&): the new object, and what `moving` is left with
unfoldable pub move_construct : Bytes → Bytes × Bytes
unfolding swap
move_construct moving = swap empty moving

-- operator=(bytes&&), of `this` and `moving`
unfoldable pub move_assign : Bytes → Bytes → Bytes × Bytes
unfolding swap
move_assign this moving = swap this moving

-- ~bytes()
unfoldable pub destroy : Bytes → Action Heap (Unit {0})
destroy b = do cleared ← clear b; pure tt
