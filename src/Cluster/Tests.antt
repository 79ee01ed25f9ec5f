-- ===== src/Cluster/Tests.antt =====
-- The theorems on addresses and endpoint IDs at concrete inputs.
use dubbo_go_pixiu.Prelude.{false, ◌≡◌, refl, some, List, [], ◌∷◌}
use dubbo_go_pixiu.Prelude.Text.{Text, text_eq, codes}
use dubbo_go_pixiu.Prelude.Int.{pos}
use dubbo_go_pixiu.Prelude.Decimal.{itoa}
use dubbo_go_pixiu.Cluster.Address.{SocketAddress, get_address}
use dubbo_go_pixiu.Cluster.Endpoint.{
  no_entries, Endpoint, member, endpoint_id_material, endpoint_id_material_field,
  stable_unique_endpoint_id, unique_from, candidate_id,
}
use dubbo_go_pixiu.Cluster.Identity.{endpoint_id_material-injective}
use dubbo_go_pixiu.Cluster.UniqueId.{stable_unique_endpoint_id_fresh}

abbrev address : List Text → SocketAddress
address domains = record {
  address = codes "10.0.0.1";
  port = 8080;
  resolver_name = [];
  domains = domains;
  certs_dir = [];
}

abbrev endpoint : Text → Endpoint
endpoint id = record {
  id = id;
  name = [];
  address = address [];
  metadata = [];
  un_healthy = false;
  llm_meta = some (record {
    provider = codes "openai";
    api_key = codes "k:1\n";
    retry_policy = record { name = codes "NoRetry"; config = no_entries };
    fallback = false;
    health_check_interval = pos 5000;
  });
}

material :
    endpoint_id_material (codes "c") (endpoint [])
    ≡ codes "cluster:1:c\naddress:13:10.0.0.1:8080\nllm_provider:6:openai\nllm_api_key:4:k:1\n\n"
unfolding endpoint_id_material endpoint_id_material_field get_address itoa
material = refl

endpoint_id_material-injective_example : codes "c" ≡ codes "c"
unfolding endpoint_id_material
endpoint_id_material-injective_example =
    (endpoint_id_material-injective (codes "c") (codes "c") (endpoint []) (endpoint (codes "a"))
      refl).0

abbrev taken : List Text
taken = codes "a" ∷ codes "a-2" ∷ []

third :
    stable_unique_endpoint_id (λ m. m) (codes "c") (endpoint (codes "a")) taken ≡ some (codes "a-3")
unfolding stable_unique_endpoint_id unique_from candidate_id itoa text_eq
third = refl

stable_unique_endpoint_id_fresh_example :
    (id : Text) × (stable_unique_endpoint_id (λ m. m) (codes "c") (endpoint (codes "a")) taken
      ≡ some id)
    × (member id taken ≡ false)
stable_unique_endpoint_id_fresh_example =
    stable_unique_endpoint_id_fresh (λ m. m) (codes "c") (endpoint (codes "a")) taken
