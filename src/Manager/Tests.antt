-- ===== src/Manager/Tests.antt =====
-- The close of a manager in memory.
use librocks_dll.Prelude.{true, none, some, [], refl, arith}
use librocks_dll.Prelude.Text.{codes}
use librocks_dll.Status
use librocks_dll.Engine.Memory.{Memory, memory, memory_laws, fresh_memory}
use librocks_dll.Store.Open.{store_options}
use librocks_dll.Prelude.Action.{Returns}
use librocks_dll.Manager.Defs.{ManagerSys, get, open_kueue_manager}
use librocks_dll.Manager.Getting.{Held, get-Held}
use librocks_dll.Manager.Opening.{Fresh, open_kueue_manager-Fresh}

abbrev manager : ManagerSys Memory
manager = record {
  has_store = true;
  version = [];
  queues = [];
  sys = record {
    store = record {
      is_open = true;
      code = Status.ok;
      has_db = true;
      reusable_tx = none;
      options = store_options 8;
      kinds = [];
      path = codes "/data";
      version = [];
      total_since_last_sync = 0;
      last_sync = 0;
    };
    world = fresh_memory;
  };
}

get-Held_example :
    Returns
      (get memory (some Status.ok) (codes "jobs") manager)
      (Held memory_laws (some Status.ok) (codes "jobs") manager)
get-Held_example =
    get-Held memory_laws (some Status.ok) (codes "jobs") manager
      (record { open-has_db = λ e. refl; below_batch = omega arith })

open_kueue_manager-Fresh_example :
    Returns
      (open_kueue_manager memory none (codes "/data") fresh_memory)
      (Fresh memory_laws (codes "/data") fresh_memory none refl refl)
open_kueue_manager-Fresh_example =
    open_kueue_manager-Fresh memory_laws (codes "/data") fresh_memory none refl refl
