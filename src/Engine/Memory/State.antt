-- ===== src/Engine/Memory/State.antt =====
-- The state and the calls of the engine in memory. On a broken engine every call fails but the listing
-- of the families.
use librocks_dll.Prelude.{
  ℕ, ◌+◌, Bool, true, false, not, Option, none, some, List, [], ◌∷◌, ◌++◌, ◌&&◌,
}
use librocks_dll.Prelude.Tests.{◌==◌, length, is_some, if◌then◌else◌}
use librocks_dll.Prelude.Text.{Text, codes, text_eq, text_lt}
use librocks_dll.Engine.Types.{Handle, EngineStatus, Engine}
use librocks_dll.Engine.Laws.{
  Cell, absent, once, overwritten, deleted, View, written, in_range, Write, puts, deletes,
  single_deletes,
}
use librocks_dll.Engine.Memory.Least.{extreme}

-- What was done to the view, the last first.
pub data Layer : Type 0 where
  cell : Handle → Text → Cell → Layer
  erased : Handle → Text → Text → Layer
  wiped : Handle → Layer

pub record Memory : Type 0 where
  pub layers : List Layer
  pub names : List Text
  pub next_handle : Handle
  pub pending : List Write
  pub cursor : Option Text
  pub clock : ℕ
  pub broken : Bool

abbrev pub look : List Layer → View
look [] g j = absent
look (cell h k c ∷ ls) g j = if h == g && text_eq k j then c else look ls g j
look (erased h b e ∷ ls) g j = if h == g && in_range b e j then deleted else look ls g j
look (wiped h ∷ ls) g j = if h == g then absent else look ls g j

abbrev pub memory_view : Memory → View
memory_view w = look w.layers

abbrev pub keys : List Layer → List Text
keys [] = []
keys (cell h k c ∷ ls) = k ∷ keys ls
keys (erased h b e ∷ ls) = keys ls
keys (wiped h ∷ ls) = keys ls

abbrev pub is_present : Cell → Bool
is_present absent = false
is_present (once v) = true
is_present (overwritten v) = true
is_present deleted = false

abbrev pub reply : Memory → EngineStatus
reply w = record { code = if w.broken then 5 else 0; is_path_not_found = false }

abbrev pub apply_write : Write → List Layer → List Layer
apply_write (puts h k v) ls = cell h k (written v (look ls h k)) ∷ ls
apply_write (deletes h k) ls = cell h k deleted ∷ ls
apply_write (single_deletes h k) ls = cell h k absent ∷ ls

abbrev pub apply_all : List Write → List Layer → List Layer
apply_all [] ls = ls
apply_all (op ∷ ops) ls = apply_all ops (apply_write op ls)

abbrev pub stage : Write → Memory → EngineStatus × Memory
stage op w = (reply w, record w { pending = w.pending ++ op ∷ [] })

abbrev pub commit : Memory → EngineStatus × Memory
commit w =
    (reply w, record w { layers = if w.broken then w.layers else apply_all w.pending w.layers })

abbrev pub get_cell : Bool → Cell → EngineStatus × Text
get_cell true c = (record { code = 5; is_path_not_found = false }, [])
get_cell false absent = (record { code = 1; is_path_not_found = false }, [])
get_cell false deleted = (record { code = 1; is_path_not_found = false }, [])
get_cell false (once v) = (record { code = 0; is_path_not_found = false }, v)
get_cell false (overwritten v) = (record { code = 0; is_path_not_found = false }, v)

abbrev pub or_nil : Option Text → Text
or_nil none = []
or_nil (some t) = t

abbrev pub seek : (Text → Text → Bool) → Handle → Memory → Memory
seek lt h w = record w { cursor = extreme lt (λ k. is_present (look w.layers h k)) (keys w.layers) }

abbrev pub handles_from : Handle → List Text → List Handle
handles_from h [] = []
handles_from h (n ∷ ns) = h ∷ handles_from (h + 1) ns

abbrev pub memory : Engine Memory
memory = record {
  hardware_concurrency = 8;
  version_string = codes "10.10.1";
  build_git_sha = codes "none";
  build_date = codes "none";
  list_column_families = λ o p w. ((record { code = 0; is_path_not_found = false }, w.names), w);
  open_db = λ o p names w. (
    record { status = reply w; handles = handles_from 0 names; has_db = not w.broken },
    record w { next_handle = length names },
  );
  delete_db = λ w. w;
  enable_file_deletions = λ w. w;
  create_column_family = λ n w. (
    (reply w, some w.next_handle),
    record w {
      next_handle = w.next_handle + 1;
      layers = if w.broken then w.layers else wiped w.next_handle ∷ w.layers;
    },
  );
  delete_handle = λ h w. w;
  begin_transaction = λ o w. (some 0, record w { pending = [] });
  tx_put = λ t h k v. stage (puts h k v);
  tx_delete = λ t h k. stage (deletes h k);
  tx_single_delete = λ t h k. stage (single_deletes h k);
  tx_commit = λ t. commit;
  delete_tx = λ t w. w;
  batch_delete_range = λ h b e. record { code = 0; is_path_not_found = false };
  write_delete_range = λ h b e w.
      (reply w, record w { layers = if w.broken then w.layers else erased h b e ∷ w.layers });
  get = λ h k w. (get_cell w.broken (look w.layers h k), w);
  flush_wal = λ sync w. (reply w, w);
  flush = λ wait w. (reply w, w);
  compact_range = λ h w. (reply w, w);
  new_iterator = λ h w. (some h, w);
  seek_to_first = seek text_lt;
  seek_to_last = seek (λ a b. text_lt b a);
  iter_valid = λ i w. is_some w.cursor;
  iter_key = λ i w. or_nil w.cursor;
  delete_iter = λ i w. w;
  now = λ w. (w.clock, record w { clock = w.clock + 1_000_000 });
}

abbrev pub fresh_memory : Memory
fresh_memory = record {
  layers = [];
  names = [];
  next_handle = 0;
  pending = [];
  cursor = none;
  clock = 0;
  broken = false;
}
