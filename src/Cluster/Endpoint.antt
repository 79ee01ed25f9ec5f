-- ===== src/Cluster/Endpoint.antt =====
-- pkg/model/cluster.go and llm.go: endpoints and cluster configurations, and the IDs of endpoints.
-- A value is not shared, so a deep copy is the value itself. The digest of `GenerateEndpointID`,
-- sha256 cut to 8 bytes and printed in hex, is a parameter.
use dubbo_go_pixiu.Prelude.{
  ℕ, zero, suc, ◌+◌, Bool, not, ◌||◌, Option, none, some, List, [], ◌∷◌, ◌++◌, length, keep, any,
  if◌then◌else◌,
}
use dubbo_go_pixiu.Prelude.Text.{Text, text_eq, codes}
use dubbo_go_pixiu.Prelude.Int.{ℤ}
use dubbo_go_pixiu.Prelude.Decimal.{itoa}
use dubbo_go_pixiu.Cluster.Address.{SocketAddress, get_address}

mutual
  -- A value of Go's type `any` in a configuration: nothing, a flag, an integer, the bits of a float, a string,
  -- a slice or a map.
  pub data AnyValue : Type 0 where
    any_nil : AnyValue
    any_bool : Bool → AnyValue
    any_int : ℤ → AnyValue
    any_float : ℕ → AnyValue
    any_string : Text → AnyValue
    any_slice : AnyEntries → AnyValue
    any_map : AnyEntries → AnyValue

  -- The values of a slice, whose keys are not read, or the entries of a map.
  pub data AnyEntries : Type 0 where
    no_entries : AnyEntries
    entry : Text → AnyValue → AnyEntries → AnyEntries

-- pkg/model/retry.go.
pub record RetryPolicy : Type 0 where
  pub name : Text
  pub config : AnyEntries

pub record LlmMeta : Type 0 where
  pub provider : Text
  pub api_key : Text
  pub retry_policy : RetryPolicy
  pub fallback : Bool
  pub health_check_interval : ℤ

pub record Endpoint : Type 0 where
  pub id : Text
  pub name : Text
  pub address : SocketAddress
  pub metadata : List (Text × Text)
  pub un_healthy : Bool
  pub llm_meta : Option LlmMeta

-- A `*model.Endpoint`: where the endpoint is, and its value.
pub record Ref : Type 0 where
  pub at : ℕ
  pub value : Endpoint

-- The fields of a `ConsistentHash`, but for the hash itself.
pub record ConsistentHash : Type 0 where
  pub replica_num : ℤ
  pub max_vnode_num : ℤ
  pub maglev_table_size : ℤ

-- What the runtime and the cluster manager read of a `ClusterConfig`; nil endpoints are none.
pub record ClusterConfig : Type 0 where
  pub name : Text
  pub lb_str : Text
  pub consistent_hash : ConsistentHash
  pub endpoints : List (Option Endpoint)
  pub has_health_checks : Bool
  pub config_id : ℕ

-- `GetHost`.
unfoldable pub get_host : Endpoint → Text
get_host e = e.address.address ++ b':' ∷ itoa e.address.port

-- `GetEndpoint`, over endpoints that are not nil.
unfoldable pub get_endpoint : Bool → List Endpoint → List Endpoint
get_endpoint must_health = keep (λ e. not must_health || not e.un_healthy)

abbrev pub newline : ℕ
newline = 10

-- `endpointIDMaterialField`: the value is preceded by its name and its length.
unfoldable pub endpoint_id_material_field : Text → Text → Text
endpoint_id_material_field name value =
    name ++ b':' ∷ (itoa (length value) ++ b':' ∷ (value ++ newline ∷ []))

abbrev pub provider_of : Option LlmMeta → Text
provider_of none = []
provider_of (some m) = m.provider

abbrev pub api_key_of : Option LlmMeta → Text
api_key_of none = []
api_key_of (some m) = m.api_key

-- `endpointIDMaterial`, of an endpoint that is not nil.
unfoldable pub endpoint_id_material : Text → Endpoint → Text
endpoint_id_material cluster_name e =
    endpoint_id_material_field (codes "cluster") cluster_name
    ++ (endpoint_id_material_field (codes "address") (get_address e.address)
        ++ (endpoint_id_material_field (codes "llm_provider") (provider_of e.llm_meta)
            ++ endpoint_id_material_field (codes "llm_api_key") (api_key_of e.llm_meta)))

abbrev pub generated_endpoint_id_prefix : Text
generated_endpoint_id_prefix = codes "pixiu-generated-endpoint-"

-- A Go set of texts.
abbrev pub member : Text → List Text → Bool
member id = any (text_eq id)

-- `fmt.Sprintf("%s-%d", baseID, suffix)`.
unfoldable pub candidate_id : Text → ℕ → Text
candidate_id base suffix = base ++ b'-' ∷ itoa suffix

-- The loop over suffixes, on fuel; `none` means that the fuel ran out.
unfoldable pub unique_from : ℕ → Text → ℕ → List Text → Option Text
unique_from zero base suffix taken = none
unique_from (suc fuel) base suffix taken =
    let rest = unique_from fuel base (suffix + 1) taken in
    if not (member (candidate_id base suffix) taken) then some (candidate_id base suffix) else rest

module _ (digest : Text → Text) where
  -- `GenerateEndpointID`.
  unfoldable pub generate_endpoint_id : Text → Endpoint → Text
  generate_endpoint_id cluster_name e =
      generated_endpoint_id_prefix ++ digest (endpoint_id_material cluster_name e)

  abbrev pub base_id : Text → Endpoint → Text
  base_id cluster_name e = if text_eq e.id [] then generate_endpoint_id cluster_name e else e.id

  -- `StableUniqueEndpointID`. A set of n entries wants n + 1 rounds at most.
  unfoldable pub stable_unique_endpoint_id : Text → Endpoint → List Text → Option Text
  stable_unique_endpoint_id cluster_name e taken =
      if not (member (base_id cluster_name e) taken)
      then some (base_id cluster_name e)
      else unique_from (length taken + 1) (base_id cluster_name e) 2 taken
