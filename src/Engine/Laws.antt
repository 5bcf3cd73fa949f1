-- ===== src/Engine/Laws.antt =====
-- What the code relies on of RocksDB, as documented. `view` is what a reader sees of the database;
-- a call that returns another status than Ok has changed nothing there.
use librocks_dll.Prelude.{
  ◌≡◌, ◌≢◌, Bool, true, false, Option, none, some, List, [], ◌∷◌, ◌||◌, ◌&&◌,
}
use librocks_dll.Prelude.Tests.{◌==◌, length, if◌then◌else◌}
use librocks_dll.Prelude.Text.{Text, text_eq, text_lt}
use librocks_dll.Engine.Types.{Options, Handle, Tx, Iter, status_ok, Engine}

-- A key is absent, and was since it was last removed by SingleDelete only; or it was put once since
-- then, or more often; or it is absent after a Delete or a DeleteRange, which do not mix with
-- SingleDelete: a put after them counts as one that overwrites.
pub data Cell : Type 0 where
  absent : Cell
  once : Text → Cell
  overwritten : Text → Cell
  deleted : Cell

abbrev pub View : Type 0
View = Handle → Text → Cell

abbrev pub value_of : Cell → Option Text
value_of absent = none
value_of (once v) = some v
value_of (overwritten v) = some v
value_of deleted = none

abbrev pub written : Text → Cell → Cell
written v absent = once v
written v (once _) = overwritten v
written v (overwritten _) = overwritten v
written v deleted = overwritten v

-- whether SingleDelete may be called
abbrev pub single_deletable : Cell → Bool
single_deletable absent = true
single_deletable (once _) = true
single_deletable (overwritten _) = false
single_deletable deleted = false

abbrev pub update : View → Handle → Text → Cell → View
update f h k c g j = if h == g && text_eq k j then c else f g j

-- The keys from `b` on, below `e`.
abbrev pub in_range : Text → Text → Text → Bool
in_range b e k = text_eq b k && text_lt k e || text_lt b k && text_lt k e

abbrev pub erase_range : View → Handle → Text → Text → View
erase_range f h b e g j = if h == g && in_range b e j then deleted else f g j

pub data Write : Type 0 where
  puts : Handle → Text → Text → Write
  deletes : Handle → Text → Write
  single_deletes : Handle → Text → Write

-- The view after a committed write. Of SingleDelete nothing is known at a key that was overwritten or
-- deleted otherwise, but that other keys keep their values.
abbrev pub Applied : Write → View → View → Type 0
Applied (puts h k v) a b = b ≡ update a h k (written v (a h k))
Applied (deletes h k) a b = b ≡ update a h k deleted
Applied (single_deletes h k) a b =
    (c : Cell) × (b ≡ update a h k c) × (single_deletable (a h k) ≡ true → c ≡ absent)

-- The bytewise least and greatest key of a column family.
abbrev pub IsLeast : View → Handle → Text → Type 0
IsLeast f h k =
    (value_of (f h k) ≢ none) × ((j : Text) → value_of (f h j) ≢ none → text_lt j k ≡ false)

abbrev pub IsGreatest : View → Handle → Text → Type 0
IsGreatest f h k =
    (value_of (f h k) ≢ none) × ((j : Text) → value_of (f h j) ≢ none → text_lt k j ≡ false)

abbrev pub with_empty_family : View → Handle → View
with_empty_family f h g j = if h == g then absent else f g j

abbrev pub IsEmptyFamily : View → Handle → Type 0
IsEmptyFamily f h = (j : Text) → f h j ≡ absent

-- `staged w t` is what the transaction would write.
pub record Laws {W : Type 0} (E : Engine W) : Type 0 where
  pub view : W → View
  pub staged : W → Tx → List Write
  pub begin-view : (o : Option Tx) (w : W) → view (E.begin_transaction o w).1 ≡ view w
  pub begin-staged :
      (o : Option Tx) (w : W) (t : Tx)
      → (E.begin_transaction o w).0 ≡ some t
      → staged (E.begin_transaction o w).1 t ≡ []
  pub put-view : (t : Tx) (h : Handle) (k v : Text) (w : W) → view (E.tx_put t h k v w).1 ≡ view w
  pub put-staged :
      (t : Tx) (h : Handle) (k v : Text) (w : W)
      → staged w t ≡ []
      → status_ok (E.tx_put t h k v w).0 ≡ true
      → staged (E.tx_put t h k v w).1 t ≡ puts h k v ∷ []
  pub delete-view : (t : Tx) (h : Handle) (k : Text) (w : W) → view (E.tx_delete t h k w).1 ≡ view w
  pub delete-staged :
      (t : Tx) (h : Handle) (k : Text) (w : W)
      → staged w t ≡ []
      → status_ok (E.tx_delete t h k w).0 ≡ true
      → staged (E.tx_delete t h k w).1 t ≡ deletes h k ∷ []
  pub single_delete-view :
      (t : Tx) (h : Handle) (k : Text) (w : W) → view (E.tx_single_delete t h k w).1 ≡ view w
  pub single_delete-staged :
      (t : Tx) (h : Handle) (k : Text) (w : W)
      → staged w t ≡ []
      → status_ok (E.tx_single_delete t h k w).0 ≡ true
      → staged (E.tx_single_delete t h k w).1 t ≡ single_deletes h k ∷ []
  pub commit-ok :
      (t : Tx) (op : Write) (w : W)
      → staged w t ≡ op ∷ []
      → status_ok (E.tx_commit t w).0 ≡ true
      → Applied op (view w) (view (E.tx_commit t w).1)
  pub commit-failed :
      (t : Tx) (w : W) → status_ok (E.tx_commit t w).0 ≡ false → view (E.tx_commit t w).1 ≡ view w
  pub delete_tx-view : (t : Tx) (w : W) → view (E.delete_tx t w) ≡ view w
  pub write_delete_range-ok :
      (h : Handle) (b e : Text) (w : W)
      → status_ok (E.write_delete_range h b e w).0 ≡ true
      → view (E.write_delete_range h b e w).1 ≡ erase_range (view w) h b e
  pub write_delete_range-failed :
      (h : Handle) (b e : Text) (w : W)
      → status_ok (E.write_delete_range h b e w).0 ≡ false
      → view (E.write_delete_range h b e w).1 ≡ view w
  pub get-view : (h : Handle) (k : Text) (w : W) → view (E.get h k w).1 ≡ view w
  pub get-ok :
      (h : Handle) (k : Text) (w : W)
      → status_ok (E.get h k w).0.0 ≡ true
      → value_of (view w h k) ≡ some (E.get h k w).0.1
  pub get-not_found :
      (h : Handle) (k : Text) (w : W) → (E.get h k w).0.0.code ≡ 1 → value_of (view w h k) ≡ none
  pub flush_wal-view : (sync : Bool) (w : W) → view (E.flush_wal sync w).1 ≡ view w
  pub flush-view : (wait : Bool) (w : W) → view (E.flush wait w).1 ≡ view w
  pub compact-view : (h : Handle) (w : W) → view (E.compact_range h w).1 ≡ view w
  pub now-view : (w : W) → view (E.now w).1 ≡ view w
  -- Open writes the pointer only on success, and then as many handles as it was given names
  pub open-ok :
      (o : Options) (p : Text) (names : List Text) (w : W)
      → status_ok (E.open_db o p names w).0.status ≡ true
      → ((E.open_db o p names w).0.has_db ≡ true)
        × (length (E.open_db o p names w).0.handles ≡ length names)
  pub open-failed :
      (o : Options) (p : Text) (names : List Text) (w : W)
      → status_ok (E.open_db o p names w).0.status ≡ false
      → (E.open_db o p names w).0.has_db ≡ false
  pub create-ok :
      (n : Text) (w : W)
      → status_ok (E.create_column_family n w).0.0 ≡ true
      → (h : Handle) × ((E.create_column_family n w).0.1 ≡ some h)
        × (view (E.create_column_family n w).1 ≡ with_empty_family (view w) h)
  pub create-failed :
      (n : Text) (w : W)
      → status_ok (E.create_column_family n w).0.0 ≡ false
      → view (E.create_column_family n w).1 ≡ view w
  pub iterator-view : (h : Handle) (w : W) → view (E.new_iterator h w).1 ≡ view w
  pub first-view : (i : Iter) (w : W) → view (E.seek_to_first i w) ≡ view w
  pub last-view : (i : Iter) (w : W) → view (E.seek_to_last i w) ≡ view w
  pub delete_iter-view : (i : Iter) (w : W) → view (E.delete_iter i w) ≡ view w
  pub first-key :
      (h : Handle) (w : W) (i : Iter)
      → (E.new_iterator h w).0 ≡ some i
      → let w' = E.seek_to_first i (E.new_iterator h w).1 in
        E.iter_valid i w' ≡ true → IsLeast (view w) h (E.iter_key i w')
  pub last-key :
      (h : Handle) (w : W) (i : Iter)
      → (E.new_iterator h w).0 ≡ some i
      → let w' = E.seek_to_last i (E.new_iterator h w).1 in
        E.iter_valid i w' ≡ true → IsGreatest (view w) h (E.iter_key i w')
