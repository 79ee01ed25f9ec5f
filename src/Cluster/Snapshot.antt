-- ===== src/Cluster/Snapshot.antt =====
-- `EndpointSnapshot` of pkg/cluster/cluster.go: the endpoints of a cluster as requests see them, with their
-- health and the indices by ID and by address. A published snapshot is never written again, so each
-- operation returns a new one. A clone is a new reference: `heap` is the next free place.
pub mod Total
pub mod Index
pub mod Inherited
pub mod Updates
pub mod Marks
pub mod Next
use dubbo_go_pixiu.Prelude.{
  ℕ, suc, ◌+◌, Bool, true, false, not, ◌&&◌, ◌||◌, Option, none, some, List, [], ◌∷◌, ◌++◌, ◌==◌,
  map, find?, any, keep, length, if◌then◌else◌,
}
use dubbo_go_pixiu.Prelude.Text.{Text, text_eq}
use dubbo_go_pixiu.Prelude.Dict.{lookup, store, or_default, is_some}
use dubbo_go_pixiu.Cluster.Address.{get_address}
use dubbo_go_pixiu.Cluster.Endpoint.{
  Ref, Endpoint, ConsistentHash, ClusterConfig, member, stable_unique_endpoint_id,
}

pub record EndpointSnapshot : Type 0 where
  pub all : List Ref
  pub healthy : List Ref
  pub endpoint_by_id : List (Text × Ref)
  pub healthy_endpoint_by_id : List (Text × Ref)
  pub address_by_id : List (Text × Text)
  pub healthy_by_id : List (Text × Bool)
  pub healthy_by_address : List (Text × Bool)
  pub lb_policy : Text
  pub hash_config : ConsistentHash

-- `newEndpointSnapshotIndex`, with the policy and the hash configuration of the cluster.
unfoldable pub new_endpoint_snapshot_index : Text → ConsistentHash → EndpointSnapshot
new_endpoint_snapshot_index policy config = record {
  all = [];
  healthy = [];
  endpoint_by_id = [];
  healthy_endpoint_by_id = [];
  address_by_id = [];
  healthy_by_id = [];
  healthy_by_address = [];
  lb_policy = policy;
  hash_config = config;
}

-- `addAddressHealth`, on the map.
unfoldable pub add_address_health : Text → Bool → List (Text × Bool) → List (Text × Bool)
add_address_health address healthy d =
    store address (elim (lookup address d) [ none ↦ healthy | some before ↦ before && healthy ]) d

abbrev pub set_un_healthy : Bool → Ref → Ref
set_un_healthy un_healthy r = record r { value = record r.value { un_healthy = un_healthy } }

abbrev pub append_if : Bool → Ref → List Ref → List Ref
append_if true r rs = rs ++ r ∷ []
append_if false r rs = rs

abbrev pub store_if : Bool → Text → Ref → List (Text × Ref) → List (Text × Ref)
store_if true key r d = store key r d
store_if false key r d = d

-- The part of `addEndpoint` behind the assignment to the endpoint.
unfoldable pub index_endpoint : Ref → Text → Bool → EndpointSnapshot → EndpointSnapshot
index_endpoint e address healthy s = record s {
  all = s.all ++ e ∷ [];
  healthy = append_if healthy e s.healthy;
  endpoint_by_id = store e.value.id e s.endpoint_by_id;
  healthy_endpoint_by_id = store_if healthy e.value.id e s.healthy_endpoint_by_id;
  address_by_id = store e.value.id address s.address_by_id;
  healthy_by_id = store e.value.id healthy s.healthy_by_id;
  healthy_by_address = add_address_health address healthy s.healthy_by_address;
}

-- `addEndpoint`.
unfoldable pub add_endpoint : Ref → Text → Bool → EndpointSnapshot → EndpointSnapshot
add_endpoint e address healthy = index_endpoint (set_un_healthy (not healthy) e) address healthy

-- The health that a map has for a key, false if it has none.
abbrev pub health_in : Text → List (Text × Bool) → Bool
health_in key d = or_default false (lookup key d)

abbrev pub is_at : Text → Option Text → Bool
is_at address none = false
is_at address (some a) = text_eq a address

abbrev pub inherited_health : Endpoint → Text → EndpointSnapshot → Bool → Bool
inherited_health e address previous healthy =
    if is_at address (lookup e.id previous.address_by_id)
    then health_in e.id previous.healthy_by_id
    else or_default healthy (lookup address previous.healthy_by_address)

-- `endpointSnapshotHealth`.
unfoldable pub endpoint_snapshot_health : Endpoint → Text → Option EndpointSnapshot → Bool → Bool
endpoint_snapshot_health e address none inherit = not e.un_healthy
endpoint_snapshot_health e address (some previous) inherit =
    if inherit then inherited_health e address previous (not e.un_healthy) else not e.un_healthy

module _ (digest : Text → Text) (cluster_name : Text) (previous : Option EndpointSnapshot)
    (inherit : Bool) where
  abbrev pub with_id : Text → ℕ → Endpoint → Ref
  with_id id heap e = record { at = heap; value = record e { id = id } }

  -- The loop of `newEndpointSnapshot`: `taken` is the set of IDs. It fails only if the search for an ID
  -- runs out of fuel.
  unfoldable pub add_endpoints :
      List (Option Endpoint) → List Text → ℕ → EndpointSnapshot → Option EndpointSnapshot
  add_endpoints [] taken heap s = some s
  add_endpoints (none ∷ es) taken heap s = add_endpoints es taken heap s
  add_endpoints (some e ∷ es) taken heap s =
      elim (stable_unique_endpoint_id digest cluster_name e taken) [
        | none ↦ none
        | some id ↦ add_endpoints es (id ∷ taken) (heap + 1) (
            add_endpoint (with_id id heap e) (get_address e.address)
              (endpoint_snapshot_health (with_id id heap e).value (get_address e.address) previous
                inherit)
              s)
      ]

-- `newEndpointSnapshot`, for a configuration that is not nil, but for the consistent hash.
unfoldable pub new_endpoint_snapshot :
    (Text → Text) → ℕ → ClusterConfig → Option EndpointSnapshot → Bool → Option EndpointSnapshot
new_endpoint_snapshot digest heap config previous inherit =
    add_endpoints digest config.name previous inherit config.endpoints [] heap
      (new_endpoint_snapshot_index config.lb_str config.consistent_hash)

-- The loop of `nextEndpointStartIndex` gives the endpoints behind the current one.
unfoldable pub endpoints_behind : Text → List Ref → List Ref
endpoints_behind id [] = []
endpoints_behind id (e ∷ es) = if text_eq e.value.id id then es else endpoints_behind id es

-- `NextHealthyEndpoint`.
unfoldable pub next_healthy_endpoint : Text → EndpointSnapshot → Option Endpoint
next_healthy_endpoint id s =
    elim (find? (λ e. health_in e.value.id s.healthy_by_id) (endpoints_behind id s.all)) [
      | none ↦ none
      | some e ↦ some e.value
    ]

-- `EndpointByID`, and `HealthyEndpointByIDForPick`, of which `HealthyEndpointByID` is a clone.
unfoldable pub endpoint_by_id_of : Text → EndpointSnapshot → Option Ref
endpoint_by_id_of id s = lookup id s.endpoint_by_id

unfoldable pub healthy_endpoint_by_id_for_pick : Text → EndpointSnapshot → Option Ref
healthy_endpoint_by_id_for_pick id s = lookup id s.healthy_endpoint_by_id

-- `PickHealthyEndpoint`; the callback is not nil.
unfoldable pub pick_healthy_endpoint : (List Ref → Option Ref) → EndpointSnapshot → Option Endpoint
pick_healthy_endpoint pick s = elim s.healthy [
  | [] ↦ none
  | _ ∷ _ ↦ elim (pick s.healthy) [ none ↦ none | some e ↦ some e.value ]
]

-- The loop of `withEndpointHealthForIDs` that looks for a change.
unfoldable pub any_changed : Bool → List Text → EndpointSnapshot → Bool
any_changed healthy [] s = false
any_changed healthy (id ∷ rest) s =
    (if healthy then not (health_in id s.healthy_by_id) else health_in id s.healthy_by_id)
    || any_changed healthy rest s

-- `withEndpointHealthForIDs`.
module _ (ids : List Text) (healthy : Bool) where
  abbrev pub next_health : Text → Bool → Bool
  next_health id was = if member id ids then healthy else was

  -- The loop over `healthyByID`.
  unfoldable pub carry_health :
      List (Text × Bool)
      → List (Text × Text)
      → List (Text × Bool) × List (Text × Bool)
      → List (Text × Bool) × List (Text × Bool)
  carry_health [] addresses (by_id, by_address) = (by_id, by_address)
  carry_health ((id, was) ∷ rest) addresses (by_id, by_address) = carry_health rest addresses (
    store id (next_health id was) by_id,
    add_address_health (or_default [] (lookup id addresses)) (next_health id was) by_address,
  )

  abbrev pub next_endpoint : ℕ → Ref → Ref
  next_endpoint heap e =
      if member e.value.id ids
      then record { at = heap; value = record e.value { un_healthy = not healthy } }
      else e

  -- The loop over the endpoints.
  unfoldable pub carry_endpoints : List Ref → ℕ → EndpointSnapshot → EndpointSnapshot
  carry_endpoints [] heap next = next
  carry_endpoints (e ∷ es) heap next = carry_endpoints es (heap + 1) (record next {
    all = next.all ++ next_endpoint heap e ∷ [];
    endpoint_by_id = store e.value.id (next_endpoint heap e) next.endpoint_by_id;
    healthy =
        append_if (health_in e.value.id next.healthy_by_id) (next_endpoint heap e) next.healthy;
    healthy_endpoint_by_id =
        store_if (health_in e.value.id next.healthy_by_id) e.value.id (next_endpoint heap e)
          next.healthy_endpoint_by_id;
  })

  abbrev pub rebuilt : ℕ → EndpointSnapshot → EndpointSnapshot
  rebuilt heap s =
      let maps = carry_health s.healthy_by_id s.address_by_id ([], []) in
      carry_endpoints s.all heap (record {
        all = [];
        healthy = [];
        endpoint_by_id = [];
        healthy_endpoint_by_id = [];
        address_by_id = s.address_by_id;
        healthy_by_id = maps.0;
        healthy_by_address = maps.1;
        lb_policy = s.lb_policy;
        hash_config = s.hash_config;
      })

-- `none` is (nil, false).
unfoldable pub with_endpoint_health_for_ids :
    List Text → Bool → ℕ → EndpointSnapshot → Option EndpointSnapshot
with_endpoint_health_for_ids [] healthy heap s = none
with_endpoint_health_for_ids (id ∷ ids) healthy heap s =
    if not (any_changed healthy (id ∷ ids) s)
    then some s
    else some (rebuilt (id ∷ ids) healthy heap s)

-- `withEndpointHealth`.
unfoldable pub with_endpoint_health :
    Text → Text → Bool → ℕ → EndpointSnapshot → Option EndpointSnapshot
with_endpoint_health id address healthy heap s =
    if is_at address (lookup id s.address_by_id)
    then with_endpoint_health_for_ids (id ∷ []) healthy heap s
    else none

-- The IDs at an address.
unfoldable pub ids_at : Text → List (Text × Text) → List Text
ids_at address [] = []
ids_at address ((id, a) ∷ rest) =
    if text_eq a address then id ∷ ids_at address rest else ids_at address rest

-- `withEndpointAddressHealth`.
unfoldable pub with_endpoint_address_health :
    Text → Bool → ℕ → EndpointSnapshot → Option EndpointSnapshot
with_endpoint_address_health address healthy heap s =
    with_endpoint_health_for_ids (ids_at address s.address_by_id) healthy heap s
