-- ===== src/Manager/Tests.antt =====
-- The theorems on the cluster manager at concrete inputs.
use dubbo_go_pixiu.Prelude.{
  ℕ, Bool, true, false, not, ◌&&◌, ◌≡◌, ◌↔◌, ◌⊎◌, ◌≢◌, refl, Option, none, some, List, [], ◌∷◌,
}
use dubbo_go_pixiu.Prelude.Text.{Text, text_eq, codes}
use dubbo_go_pixiu.Prelude.Int.{pos}
use dubbo_go_pixiu.Cluster.Endpoint.{no_entries, LlmMeta, Endpoint, ClusterConfig}
use dubbo_go_pixiu.Manager.Assemble.{assemble, present, Settled, assemble-assemble}
use dubbo_go_pixiu.Manager.Content.{
  same_items, socket_address_content_equal, all_in, string_map_equal_for_set,
  llm_meta_equal_for_set, endpoint_content_equal_for_set, SameContent,
  endpoint_content_equal_for_set_iff,
}
use dubbo_go_pixiu.Manager.Slot.{
  find_slot, idempotent, resolve_set_endpoint_slot_by_id, resolve_set_endpoint_slot,
}
use dubbo_go_pixiu.Manager.SlotLaws.{has_id, set_by_id, set_by_id_found}
use dubbo_go_pixiu.Manager.ChangesLaws.{
  said, reaches, changes_between, endpoint_state_changes_exact,
}
use dubbo_go_pixiu.Manager.Operations.{ClusterManager, names_of, new_managed, replace_xds_clusters}
use dubbo_go_pixiu.Manager.Store.{ClusterStore, Work, find_cluster_config, replace_and_stop}
use dubbo_go_pixiu.Manager.Configs.{configs}
use dubbo_go_pixiu.Manager.Endpoints.{set_in_cluster, set_endpoint}
use dubbo_go_pixiu.Manager.Published.{
  InStep, replace_and_stop-InStep, decided, set_in_cluster-InStep,
}
use dubbo_go_pixiu.Manager.Registered.{
  endpoints_of, names_with, endpoints_after, set_endpoint-InStep,
}
use dubbo_go_pixiu.Manager.SwapLaws.{Refused, Swapped, compare_and_set_store_runtimes}
use dubbo_go_pixiu.Manager.Swap.{compare_and_set_store}
use dubbo_go_pixiu.Manager.Ownership.{replace_all, xds_step, statics, xds_step_keeps_statics}

abbrev endpoint : Text → Text → Text → Endpoint
endpoint id host zone = record {
  id = id;
  name = [];
  address = record { address = host; port = 80; resolver_name = []; domains = []; certs_dir = [] };
  metadata = (codes "zone", zone) ∷ [];
  un_healthy = false;
  llm_meta = some (record {
    provider = codes "openai";
    api_key = [];
    retry_policy = record { name = codes "NoRetry"; config = no_entries };
    fallback = true;
    health_check_interval = pos 5000;
  });
}

abbrev endpoints : List (Option Endpoint)
endpoints =
    some (endpoint (codes "a") (codes "h") (codes "x"))
    ∷ none
    ∷ some (endpoint [] (codes "k") (codes "y"))
    ∷ []

abbrev config : Text → ClusterConfig
config name = record {
  name = name;
  lb_str = codes "Rand";
  consistent_hash = record {
    replica_num = pos 0;
    max_vnode_num = pos 0;
    maglev_table_size = pos 0;
  };
  endpoints = endpoints;
  has_health_checks = false;
  config_id = 0;
}

abbrev same_text : Text → Text
same_text m = m

abbrev same_flag : Bool → Bool → Bool
same_flag true b = b
same_flag false b = not b

-- A `reflect.DeepEqual` that knows no settings of a retry policy.
abbrev deep_equal : LlmMeta → LlmMeta → Bool
deep_equal a b =
    text_eq a.provider b.provider
    && (text_eq a.api_key b.api_key
        && (text_eq a.retry_policy.name b.retry_policy.name && same_flag a.fallback b.fallback))

assemble-assemble_example :
    assemble same_text (codes "c") 0 [] (assemble same_text (codes "c") 0 [] endpoints)
    ≡ assemble same_text (codes "c") 0 [] endpoints
assemble-assemble_example = assemble-assemble same_text (codes "c") 0 [] endpoints

-- The ID does not count.
endpoint_content_equal_for_set_iff_example :
    (endpoint_content_equal_for_set deep_equal
        (endpoint (codes "a") (codes "h") (codes "x"))
        (endpoint (codes "b") (codes "h") (codes "x"))
      ≡ true)
    ↔ SameContent deep_equal
        (endpoint (codes "a") (codes "h") (codes "x"))
        (endpoint (codes "b") (codes "h") (codes "x"))
endpoint_content_equal_for_set_iff_example =
    endpoint_content_equal_for_set_iff deep_equal (endpoint (codes "a") (codes "h") (codes "x"))
      (endpoint (codes "b") (codes "h") (codes "x")) (refl, tt) (refl, tt)

-- The endpoint comes back with a new address.
moved :
    endpoint_content_equal_for_set deep_equal
      (endpoint (codes "a") (codes "n") (codes "x"))
      (endpoint (codes "a") (codes "n") (codes "x"))
    ≡ true
unfolding endpoint_content_equal_for_set socket_address_content_equal same_items
    string_map_equal_for_set all_in llm_meta_equal_for_set text_eq
moved = refl

set_by_id_found_example :
    (n : ℕ) × (x : Endpoint) × (find_slot
        (has_id (codes "a"))
        0
        (set_by_id deep_equal (endpoint (codes "a") (codes "n") (codes "x")) endpoints)
      ≡ some (n, x))
    × (endpoint_content_equal_for_set deep_equal x (endpoint (codes "a") (codes "n") (codes "x"))
        ≡ true)
    × ((resolve_set_endpoint_slot_by_id deep_equal
          (endpoint (codes "a") (codes "n") (codes "x"))
          (set_by_id deep_equal (endpoint (codes "a") (codes "n") (codes "x")) endpoints)).action
        ≡ idempotent)
set_by_id_found_example =
    set_by_id_found deep_equal (endpoint (codes "a") (codes "n") (codes "x")) endpoints moved

abbrev grown : ClusterConfig
grown = record (config (codes "c")) {
  endpoints = some (endpoint [] (codes "m") (codes "y")) ∷ endpoints;
}

endpoint_state_changes_exact_example :
    (said true (codes "c") (codes "m:80") (changes_between (config (codes "c") ∷ []) (grown ∷ []) 5)
      ≡ reaches (codes "c") (codes "m:80") (grown ∷ [])
        && not (reaches (codes "c") (codes "m:80") (config (codes "c") ∷ [])))
    × (said false
          (codes "c")
          (codes "m:80")
          (changes_between (config (codes "c") ∷ []) (grown ∷ []) 5)
        ≡ reaches (codes "c") (codes "m:80") (config (codes "c") ∷ [])
          && not (reaches (codes "c") (codes "m:80") (grown ∷ [])))
endpoint_state_changes_exact_example =
    endpoint_state_changes_exact (config (codes "c") ∷ []) (grown ∷ []) 5 (codes "c") (codes "m:80")

-- A manager with a cluster of its own and one that xDS owns.
abbrev manager : ClusterManager
manager = record {
  work = record {
    store_of = record {
      config = config (codes "static") ∷ config (codes "x") ∷ [];
      version = 3;
      clusters_map = [];
    };
    supply = record { cluster_index = 1; config_id_seq = 9; place = 4; heap = 20 };
    stopped = [];
  };
  xds_managed = codes "x" ∷ [];
  next_endpoint_event_id = 2;
  notified = [];
}

xds_step_keeps_statics_example :
    statics (
      xds_step same_text
        (replace_all (some (config (codes "y")) ∷ some (config (codes "z")) ∷ []))
        manager)
    ≡ statics manager
xds_step_keeps_statics_example =
    xds_step_keeps_statics same_text
      (replace_all (some (config (codes "y")) ∷ some (config (codes "z")) ∷ [])) manager

refused : xds_step same_text (replace_all (some (config (codes "static")) ∷ [])) manager ≡ manager
unfolding xds_step replace_xds_clusters new_managed text_eq
refused = refl

-- A store of one cluster, made from version 3 of the manager's.
abbrev candidate : ClusterStore
candidate = record { config = config (codes "c") ∷ []; version = 3; clusters_map = [] }

compare_and_set_store_runtimes_example :
    ((candidate.version ≢ manager.work.store_of.version)
      × Refused manager (compare_and_set_store same_text (some candidate) manager))
    ⊎ ((candidate.version ≡ manager.work.store_of.version)
        × Swapped (codes "c") candidate (compare_and_set_store same_text (some candidate) manager))
unfolding text_eq
compare_and_set_store_runtimes_example =
    compare_and_set_store_runtimes same_text candidate manager (codes "c") refl

-- The first endpoint of a cluster, in an empty store.
abbrev empty_work : Work
empty_work = record {
  store_of = record { config = []; version = 0; clusters_map = [] };
  supply = record { cluster_index = 1; config_id_seq = 0; place = 0; heap = 0 };
  stopped = [];
}

nothing_known :
    (i : ℕ) (c : ClusterConfig)
    → find_cluster_config (codes "c") 0 (configs empty_work) ≡ some (i, c)
    → InStep same_text (codes "c") i empty_work c
unfolding find_cluster_config
nothing_known i c found = cc

abbrev started : Work
started =
    set_endpoint deep_equal same_text (codes "c") (some (endpoint [] (codes "h") (codes "x")))
      empty_work

set_endpoint-InStep_example :
    (i : ℕ) × (c : ClusterConfig) × (find_cluster_config (codes "c") 0 (configs started)
      ≡ some (i, c))
    × InStep same_text (codes "c") i started c
    × (present c.endpoints
        ≡ present (
            endpoints_after deep_equal same_text
              (codes "c")
              (codes "c")
              (endpoint [] (codes "h") (codes "x"))
              (endpoints_of (codes "c") empty_work)))
    × (names_of (configs started) ≡ names_with (codes "c") empty_work)
unfolding text_eq
set_endpoint-InStep_example =
    set_endpoint-InStep deep_equal same_text (codes "c") (endpoint [] (codes "h") (codes "x"))
      empty_work refl nothing_known

-- A cluster of two endpoints, of which one moves.
abbrev settled_config : ClusterConfig
settled_config = record (config (codes "c")) {
  config_id = 7;
  endpoints =
      some (endpoint (codes "a") (codes "h") (codes "x"))
      ∷ some (endpoint (codes "b") (codes "k") (codes "x"))
      ∷ [];
}

abbrev one_work : Work
one_work = record empty_work {
  store_of = record { config = settled_config ∷ []; version = 0; clusters_map = [] };
}

settled : Settled [] (present settled_config.endpoints)
unfolding text_eq
settled = (refl, refl, (refl, refl, tt))

set_in_cluster-InStep_example :
    (c : ClusterConfig) × InStep same_text
      (codes "c")
      0
      (set_in_cluster deep_equal same_text
        (codes "c")
        (endpoint (codes "a") (codes "n") (codes "x"))
        0
        settled_config
        (replace_and_stop same_text (codes "c") settled_config one_work))
      c
    × (present c.endpoints
        ≡ present (
            decided same_text settled_config
              (resolve_set_endpoint_slot deep_equal same_text
                (codes "c")
                (endpoint (codes "a") (codes "n") (codes "x"))
                settled_config.endpoints).action
              (record (endpoint (codes "a") (codes "n") (codes "x")) {
                id =
                    (resolve_set_endpoint_slot deep_equal same_text
                      (codes "c")
                      (endpoint (codes "a") (codes "n") (codes "x"))
                      settled_config.endpoints).target_id;
              })))
set_in_cluster-InStep_example =
    set_in_cluster-InStep deep_equal same_text (codes "c")
      (endpoint (codes "a") (codes "n") (codes "x")) 0 settled_config
      (replace_and_stop same_text (codes "c") settled_config one_work)
      (replace_and_stop-InStep same_text (codes "c") 0 settled_config one_work refl settled)
