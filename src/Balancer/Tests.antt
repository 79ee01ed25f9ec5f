-- ===== src/Balancer/Tests.antt =====
-- The balancers on small clusters, and their theorems at concrete inputs.
use dubbo_go_pixiu.Prelude.{
  ◌+◌, ℕ, ◌<◌, false, ◌≡◌, refl, Option, none, some, List, [], ◌∷◌, arith, find?, ◌==◌,
  if◌then◌else◌,
}
use dubbo_go_pixiu.Prelude.Decimal.{itoa}
use dubbo_go_pixiu.Prelude.Int.{ℤ, pos}
use dubbo_go_pixiu.Prelude.Text.{Text, text_eq, codes}
use dubbo_go_pixiu.Cluster.Address.{address_equal}
use dubbo_go_pixiu.Cluster.Endpoint.{Endpoint, get_host, Ref}
use dubbo_go_pixiu.Balancer.Recheck.{
  PickContext, healthy_endpoint_from_snapshot, check_candidate, same_endpoint_identity,
  is_blank_placeholder,
}
use dubbo_go_pixiu.Balancer.RecheckLaws.{has_id}
use dubbo_go_pixiu.Balancer.Strategies.{
  weight_of, advance, Cursors, weight_random_handler, consistent_hash_handler,
}
use dubbo_go_pixiu.Balancer.RoundRobin.{turn, cursor, turn-each}
use dubbo_go_pixiu.Balancer.Weighted.{weight_random_handler_share}

abbrev endpoint : Text → ℕ → Text → Endpoint
endpoint id port weight = record {
  id = id;
  name = [];
  address = record {
    address = codes "10.0.0.1";
    port = port;
    resolver_name = [];
    domains = [];
    certs_dir = [];
  };
  metadata = (codes "weight", weight) ∷ [];
  un_healthy = false;
  llm_meta = none;
}

abbrev ref_a : Ref
ref_a = record { at = 1; value = endpoint (codes "a") 80 (codes "3") }

abbrev ref_b : Ref
ref_b = record { at = 2; value = endpoint (codes "b") 81 (codes "x") }

abbrev ref_c : Ref
ref_c = record { at = 3; value = endpoint (codes "c") 82 (codes "2") }

abbrev refs : List Ref
refs = ref_a ∷ ref_b ∷ ref_c ∷ []

abbrev one_digit : Text → Option ℤ
one_digit (c ∷ []) = if c == 50 then some (pos 2) else if c == 51 then some (pos 3) else none
one_digit [] = none
one_digit (_ ∷ _ ∷ _) = none

abbrev cursors : Cursors
cursors = record { round_robin_cursor = some 4; pre_pick_endpoint_index = 0 }

abbrev context : PickContext
context = record {
  config = some (record {
    name = [];
    lb_str = [];
    consistent_hash = record {
      replica_num = pos 0;
      max_vnode_num = pos 0;
      maglev_table_size = pos 0;
    };
    endpoints = [];
    has_health_checks = false;
    config_id = 1;
  });
  all_endpoints = some refs;
  healthy_endpoints = ref_a ∷ ref_c ∷ [];
  healthy_by_id = some (λ id. find? (has_id id) (ref_a ∷ ref_c ∷ []));
}

-- A copy of the second endpoint that is no longer healthy is not served; a copy of a healthy one is.
checked :
    (healthy_endpoint_from_snapshot (some ref_b) context ≡ none)
    × (healthy_endpoint_from_snapshot (some (record { at = 9; value = ref_c.value })) context
        ≡ some ref_c.value)
unfolding healthy_endpoint_from_snapshot text_eq check_candidate same_endpoint_identity
    is_blank_placeholder address_equal
checked = (refl, refl)

hashed :
    (consistent_hash_handler (some (codes "10.0.0.1:82")) refs ≡ some ref_c)
    × (consistent_hash_handler (some (codes "10.0.0.9:82")) refs ≡ some ref_a)
unfolding consistent_hash_handler text_eq get_host itoa
hashed = (refl, refl)

abbrev index_at : Text → Option (Text → Option Ref) → Option Ref
index_at id none = none
index_at id (some index) = index id

turn-each_example : (k : ℕ) × (k < 3) × (turn k refs cursors ≡ some ref_c)
unfolding cursor advance
turn-each_example = turn-each ref_a (ref_b ∷ ref_c ∷ []) cursors 2 (omega arith) (omega arith)

weight_random_handler_share_example : weight_random_handler one_digit (λ n. 4) refs ≡ some ref_c
unfolding weight_of text_eq
weight_random_handler_share_example =
    weight_random_handler_share one_digit (λ n. 4) refs 2 ref_c (omega arith) refl (omega arith)
      (omega arith)

-- A balancer that takes its first endpoint and moves the cursor twice.
abbrev first_of : List Ref → ℕ → Option Ref × ℕ
first_of [] n = (none, n)
first_of (r ∷ rs) n = (some r, n + 2)
