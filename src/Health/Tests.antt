-- ===== src/Health/Tests.antt =====
-- The theorems of the health checks at concrete inputs.
use mathlib.Core.List.{Memᴰ}
use dubbo_go_pixiu.Prelude.{
  ℕ, ◌≤◌, true, false, ◌≡◌, refl, Option, none, some, List, [], ◌∷◌, arith, ap,
}
use dubbo_go_pixiu.Prelude.Text.{Text, codes}
use dubbo_go_pixiu.Cluster.Endpoint.{Endpoint, Ref}
use dubbo_go_pixiu.Health.Counters.{
  Thresholds, Probe, response, stale, on_probe, after_probes, handle_success, handle_failure,
}
use dubbo_go_pixiu.Health.Streaks.{IsSet32, on_probe_emitted}
use dubbo_go_pixiu.Health.Sessions.{
  start, stop_check, without_endpoint, address_of, is_same, IsCovered, start-IsCovered,
  stop_check-IsCovered,
}

abbrev thresholds : Thresholds
thresholds = record { healthy = 2; unhealthy = 3 }

thresholds-IsSet32 : IsSet32 thresholds
thresholds-IsSet32 = ground arith

abbrev probes : List Probe
probes = response true ∷ stale ∷ response false ∷ []

on_probe_emitted_example : 2 ≤ 2
unfolding on_probe after_probes handle_success handle_failure
on_probe_emitted_example =
    on_probe_emitted thresholds thresholds-IsSet32 (response true) probes true refl

abbrev endpoint : Text → ℕ → Endpoint
endpoint id port = record {
  id = id;
  name = [];
  address = record {
    address = codes "10.0.0.1";
    port = port;
    resolver_name = [];
    domains = [];
    certs_dir = [];
  };
  metadata = [];
  un_healthy = false;
  llm_meta = none;
}

abbrev first : Ref
first = record { at = 1; value = endpoint (codes "a") 80 }

abbrev second : Ref
second = record { at = 2; value = endpoint (codes "b") 80 }

abbrev cluster : List (Option Ref)
cluster = some first ∷ none ∷ some second ∷ []

-- The second endpoint shares the address, so its session stays.
stop_check-IsCovered_example :
    IsCovered (without_endpoint first cluster) (stop_check cluster (some first) (start cluster []))
stop_check-IsCovered_example =
    stop_check-IsCovered cluster first (start cluster []) only (start-IsCovered cluster)
  where
    only :
        (c : Ref) → Memᴰ (some c) cluster → is_same first c ≡ true → address_of c ≡ address_of first
    only c (Memᴰ.head e) h = let same : c ≡ first = cc in ap address_of same
    only c (Memᴰ.tail (Memᴰ.head e)) h = cc
    only c (Memᴰ.tail (Memᴰ.tail (Memᴰ.tail m))) h = elim m [ ]
    only c (Memᴰ.tail (Memᴰ.tail (Memᴰ.head e))) h =
        let same : c ≡ second = cc in ap address_of same
