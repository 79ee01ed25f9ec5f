-- ===== src/Balancer/Recheck.antt =====
-- pkg/cluster/loadbalancer/load_balancer.go: `pickEndpoint` for snapshot balancers and
-- `healthyEndpointFromSnapshot`. A `*model.Endpoint` is a reference: where the endpoint is, and its
-- value. A clone is the value.
use dubbo_go_pixiu.Prelude.{
  Bool, true, false, not, ◌&&◌, ◌||◌, Option, none, some, List, [], ◌∷◌, ◌==◌, if◌then◌else◌, find?,
}
use dubbo_go_pixiu.Prelude.Text.{Text, text_eq}
use dubbo_go_pixiu.Cluster.Address.{SocketAddress, address_equal}
use dubbo_go_pixiu.Cluster.Endpoint.{Ref, Endpoint, ClusterConfig}

-- `PickContext`, without the consistent hash; a nil slice of all endpoints is `none`.
pub record PickContext : Type 0 where
  pub config : Option ClusterConfig
  pub all_endpoints : Option (List Ref)
  pub healthy_endpoints : List Ref
  pub healthy_by_id : Option (Text → Option Ref)

abbrev only_blank : List Text → Bool
only_blank (d ∷ []) = text_eq d []
only_blank [] = false
only_blank (_ ∷ _ ∷ _) = false

-- `isBlankDomainPlaceholderAddress`.
unfoldable pub is_blank_placeholder : SocketAddress → Bool
unfolding text_eq
is_blank_placeholder a = only_blank a.domains && text_eq a.address [] && a.port == 0

-- `sameEndpointIdentity`, of two endpoints that are not nil; the first is the snapshot's.
unfoldable pub same_endpoint_identity : Endpoint → Endpoint → Bool
same_endpoint_identity candidate endpoint =
    if not (text_eq endpoint.id []) || not (text_eq candidate.id [])
    then if not (text_eq candidate.id endpoint.id)
      then false
      else if is_blank_placeholder candidate.address
      then true
      else address_equal candidate.address endpoint.address
    else address_equal candidate.address endpoint.address

-- `candidate == endpoint`.
abbrev pub same_ref : Ref → Ref → Bool
same_ref endpoint candidate = candidate.at == endpoint.at

abbrev pub same_identity_as : Ref → Ref → Bool
same_identity_as endpoint candidate = same_endpoint_identity candidate.value endpoint.value

abbrev pub clone : Option Ref → Option Endpoint
clone none = none
clone (some r) = some r.value

-- The fallback scan: by reference first, then by identity.
unfoldable pub scan_healthy : Ref → List Ref → Option Endpoint
scan_healthy endpoint healthy = elim (find? (same_ref endpoint) healthy) [
  | some candidate ↦ some candidate.value
  | none ↦ clone (find? (same_identity_as endpoint) healthy)
]

-- The check of the candidate that the index by ID has.
unfoldable pub check_candidate : Ref → Option Ref → Option Endpoint
check_candidate endpoint none = none
check_candidate endpoint (some candidate) =
    if same_ref endpoint candidate
    then some candidate.value
    else if same_identity_as endpoint candidate
    then some candidate.value
    else none

-- `healthyEndpointFromSnapshot`.
unfoldable pub healthy_endpoint_from_snapshot : Option Ref → PickContext → Option Endpoint
healthy_endpoint_from_snapshot none context = none
healthy_endpoint_from_snapshot (some endpoint) context = elim context.healthy_by_id [
  | none ↦ scan_healthy endpoint context.healthy_endpoints
  | some index ↦
      if not (text_eq endpoint.value.id [])
      then check_candidate endpoint (index endpoint.value.id)
      else scan_healthy endpoint context.healthy_endpoints
]

abbrev pub copies : (Ref → Ref) → List Ref → List Ref
copies copy [] = []
copies copy (r ∷ rs) = copy r ∷ copies copy rs

abbrev pub copies_if_set : (Ref → Ref) → Option (List Ref) → Option (List Ref)
copies_if_set copy none = none
copies_if_set copy (some rs) = some (copies copy rs)

-- `defensiveSnapshotPickContext`: the balancer sees copies, so other references.
abbrev pub defensive_context : (Ref → Ref) → PickContext → PickContext
defensive_context copy context = record {
  config = context.config;
  all_endpoints = copies_if_set copy context.all_endpoints;
  healthy_endpoints = copies copy context.healthy_endpoints;
  healthy_by_id = none;
}

-- `pickEndpoint` of a balancer with `HandlerWithSnapshot`; `none` is a nil balancer.
unfoldable pub pick_endpoint :
    (Ref → Ref) → Bool → Option (PickContext → Option Ref) → PickContext → Option Endpoint
unfolding healthy_endpoint_from_snapshot
pick_endpoint copy zero_copy none context = none
pick_endpoint copy zero_copy (some handler) context = elim context.config [
  | none ↦ none
  | some _ ↦
      healthy_endpoint_from_snapshot
        (handler (if zero_copy then context else defensive_context copy context)) context
]
