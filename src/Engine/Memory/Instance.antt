-- ===== src/Engine/Memory/Instance.antt =====
-- The engine in memory meets the laws.
use librocks_dll.Prelude.{
  ◌+◌, suc, Bool, true, false, not, Option, none, some, List, [], ◌∷◌, ◌++◌, ◌≡◌, ◌≢◌, arith, refl,
  ap,
}
use mathlib.Core.Path.{sym, subst, ◌∙◌}
use librocks_dll.Prelude.Tests.{length, is_some, if◌then◌else◌}
use librocks_dll.Prelude.Text.{Text, text_lt, text_lt_irrefl, text_lt_trans}
use librocks_dll.Engine.Types.{Handle, status_ok}
use librocks_dll.Engine.Laws.{
  Cell, absent, once, overwritten, deleted, value_of, IsLeast, IsGreatest, Write, puts, deletes,
  single_deletes, Applied, Laws,
}
use librocks_dll.Engine.Memory.Least.{has, extreme, extreme-present, extreme-bound}
use librocks_dll.Engine.Memory.State.{
  Layer, Memory, look, memory_view, keys, is_present, apply_write, apply_all, get_cell, or_nil,
  seek, handles_from, memory, cell, erased, wiped,
}

has-keys :
    (ls : List Layer) (h : Handle) (j : Text)
    → value_of (look ls h j) ≢ none
    → has j (keys ls) ≡ true
has-keys [] h j p = absurd (p refl)
has-keys (cell g k c ∷ ls) h j p = ground (arith, has-keys ls h j)
has-keys (erased g b e ∷ ls) h j p = ground (arith, has-keys ls h j)
has-keys (wiped g ∷ ls) h j p = ground (arith, has-keys ls h j)

handles_from-length : (h : Handle) (ns : List Text) → length (handles_from h ns) ≡ length ns
handles_from-length h [] = refl
handles_from-length h (n ∷ ns) = ap suc (handles_from-length (h + 1) ns)

is_present-true : (c : Cell) → value_of c ≢ none → is_present c ≡ true
is_present-true absent h = absurd (h refl)
is_present-true (once v) h = refl
is_present-true (overwritten v) h = refl
is_present-true deleted h = absurd (h refl)

present-ne-absent : (c : Cell) → is_present c ≡ true → value_of c ≢ none
present-ne-absent absent h = cc
present-ne-absent (once v) h = λ e. cc
present-ne-absent (overwritten v) h = λ e. cc
present-ne-absent deleted h = cc

module _ (lt : Text → Text → Bool) (ls : List Layer) (h : Handle)
    (tr : (a b c : Text) → lt a b ≡ true → lt b c ≡ true → lt a c ≡ true)
    (irr : (a : Text) → lt a a ≡ false) where
  seek_lem :
      (c : Option Text)
      → extreme lt (λ k. is_present (look ls h k)) (keys ls) ≡ c
      → is_some c ≡ true
      → (value_of (look ls h (or_nil c)) ≢ none)
        × ((j : Text) → value_of (look ls h j) ≢ none → lt j (or_nil c) ≡ false)
  seek_lem none e s = cc
  seek_lem (some m) e s = (
    present-ne-absent _ (extreme-present lt _ (keys ls) m e),
    λ j p. extreme-bound lt _ tr irr (keys ls) m j e (has-keys ls h j p) (is_present-true _ p),
  )

least_lem :
    (h : Handle) (w : Memory)
    → is_some (seek text_lt h w).cursor ≡ true
    → IsLeast (memory_view w) h (or_nil (seek text_lt h w).cursor)
least_lem h w = seek_lem text_lt w.layers h text_lt_trans text_lt_irrefl _ refl

greatest_lem :
    (h : Handle) (w : Memory)
    → is_some (seek (λ a b. text_lt b a) h w).cursor ≡ true
    → IsGreatest (memory_view w) h (or_nil (seek (λ a b. text_lt b a) h w).cursor)
greatest_lem h w =
    seek_lem (λ a b. text_lt b a) w.layers h (λ a b c p q. text_lt_trans c b a q p) text_lt_irrefl _
      refl

commit-Applied : (op : Write) (ls : List Layer) → Applied op (look ls) (look (apply_write op ls))
commit-Applied (puts h k v) ls = refl
commit-Applied (deletes h k) ls = refl
commit-Applied (single_deletes h k) ls = (absent, refl, λ e. refl)

works :
    (b : Bool)
    → status_ok (record { code = if b then 5 else 0; is_path_not_found = false }) ≡ true
    → b ≡ false
works b s = ground arith

fails :
    (b : Bool)
    → status_ok (record { code = if b then 5 else 0; is_path_not_found = false }) ≡ false
    → b ≡ true
fails b s = ground arith

if_working : (b : Bool) (x y : List Layer) → b ≡ false → (if b then x else y) ≡ y
if_working b x y h = ground arith

if_broken : (b : Bool) (x y : List Layer) → b ≡ true → (if b then x else y) ≡ x
if_broken b x y h = ground arith

same_iter : (a b : Handle) → some a ≡ some b → b ≡ a
same_iter a b e = cc

not-false : (b : Bool) → b ≡ false → not b ≡ true
not-false b h = ground arith

not-true : (b : Bool) → b ≡ true → not b ≡ false
not-true b h = ground arith

get_cell-ok :
    (b : Bool) (c : Cell) → status_ok (get_cell b c).0 ≡ true → value_of c ≡ some (get_cell b c).1
get_cell-ok b c s = ground arith

get_cell-not_found : (b : Bool) (c : Cell) → (get_cell b c).0.code ≡ 1 → value_of c ≡ none
get_cell-not_found b c s = ground arith

pub memory_laws : Laws memory
memory_laws = record {
  view = memory_view;
  staged = λ w t. w.pending;
  begin-view = λ o w. refl;
  begin-staged = λ o w t e. refl;
  put-view = λ t h k v w. refl;
  put-staged = λ t h k v w e s. ap (λ p. p ++ puts h k v ∷ []) e;
  delete-view = λ t h k w. refl;
  delete-staged = λ t h k w e s. ap (λ p. p ++ deletes h k ∷ []) e;
  single_delete-view = λ t h k w. refl;
  single_delete-staged = λ t h k w e s. ap (λ p. p ++ single_deletes h k ∷ []) e;
  commit-ok = λ t op w e s.
      subst (λ ls. Applied op (look w.layers) (look ls))
        (sym (
          if_working w.broken w.layers (apply_all w.pending w.layers) (works w.broken s)
          ∙ ap (λ ops. apply_all ops w.layers) e))
        (commit-Applied op w.layers);
  commit-failed = λ t w s. ap look (if_broken w.broken _ _ (fails w.broken s));
  delete_tx-view = λ t w. refl;
  write_delete_range-ok = λ h b e w s.
      ap look (if_working w.broken w.layers (erased h b e ∷ w.layers) (works w.broken s));
  write_delete_range-failed = λ h b e w s. ap look (if_broken w.broken _ _ (fails w.broken s));
  get-view = λ h k w. refl;
  get-ok = λ h k w s. get_cell-ok w.broken _ s;
  get-not_found = λ h k w s. get_cell-not_found w.broken _ s;
  flush_wal-view = λ y w. refl;
  flush-view = λ y w. refl;
  compact-view = λ h w. refl;
  now-view = λ w. refl;
  open-ok = λ o p names w s. (not-false w.broken (works w.broken s), handles_from-length 0 names);
  open-failed = λ o p names w s. not-true w.broken (fails w.broken s);
  create-ok = λ n w s. (
    w.next_handle,
    refl,
    ap look (if_working w.broken w.layers (wiped w.next_handle ∷ w.layers) (works w.broken s)),
  );
  create-failed = λ n w s. ap look (if_broken w.broken _ _ (fails w.broken s));
  iterator-view = λ h w. refl;
  first-view = λ i w. refl;
  last-view = λ i w. refl;
  delete_iter-view = λ i w. refl;
  first-key = λ h w i e v.
      subst (λ g. IsLeast (memory_view w) g (or_nil (seek text_lt i w).cursor)) (same_iter h i e)
        (least_lem i w v);
  last-key = λ h w i e v.
      subst (λ g. IsGreatest (memory_view w) g (or_nil (seek (λ a b. text_lt b a) i w).cursor))
        (same_iter h i e) (greatest_lem i w v);
}

pub memory_laws-view : memory_laws.view ≡ memory_view
unfolding memory_laws
memory_laws-view = refl
