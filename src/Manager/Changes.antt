-- ===== src/Manager/Changes.antt =====
-- `endpointAddressSnapshot` and `endpointStateChanges`: what a change of the store means for those who hold
-- connections. A map of sets is a list of entries, and so is a set; nothing depends on their order.
use dubbo_go_pixiu.Prelude.{
  ℕ, Bool, true, false, not, Option, none, some, List, [], ◌∷◌, ◌++◌, if◌then◌else◌,
}
use dubbo_go_pixiu.Prelude.Text.{Text}
use dubbo_go_pixiu.Prelude.Dict.{lookup, store, or_default}
use dubbo_go_pixiu.Cluster.Address.{get_address}
use dubbo_go_pixiu.Cluster.Endpoint.{Endpoint, ClusterConfig, member}

pub record EndpointStateChange : Type 0 where
  pub cluster_name : Text
  pub address : Text
  pub is_present : Bool
  pub version : ℕ

-- `set[x] = struct{}{}`.
abbrev pub insert : Text → List Text → List Text
insert x xs = if member x xs then xs else xs ++ x ∷ []

unfoldable pub add_addresses : List (Option Endpoint) → List Text → List Text
add_addresses [] set = set
add_addresses (none ∷ es) set = add_addresses es set
add_addresses (some e ∷ es) set = add_addresses es (insert (get_address e.address) set)

abbrev pub addresses_in : Text → List (Text × List Text) → List Text
addresses_in name d = or_default [] (lookup name d)

-- The loop of `endpointAddressSnapshot`, over configurations that are not nil.
unfoldable pub add_configs : List ClusterConfig → List (Text × List Text) → List (Text × List Text)
add_configs [] d = d
add_configs (c ∷ cs) d =
    add_configs cs (store c.name (add_addresses c.endpoints (addresses_in c.name d)) d)

unfoldable pub endpoint_address_snapshot : List ClusterConfig → List (Text × List Text)
endpoint_address_snapshot cs = add_configs cs []

module _ (is_present : Bool) (version : ℕ) (other : List (Text × List Text)) where
  -- The inner loop: the addresses of a cluster that the other snapshot has not.
  unfoldable pub changes_of : Text → List Text → List EndpointStateChange
  changes_of name [] = []
  changes_of name (a ∷ rest) =
      if not (member a (addresses_in name other))
      then (record { cluster_name = name; address = a; is_present = is_present; version = version })
        ∷ changes_of name rest
      else changes_of name rest

  unfoldable pub changes_in : List (Text × List Text) → List EndpointStateChange
  changes_in [] = []
  changes_in ((name, addresses) ∷ rest) = changes_of name addresses ++ changes_in rest

-- `endpointStateChanges`.
unfoldable pub endpoint_state_changes :
    List (Text × List Text) → List (Text × List Text) → ℕ → List EndpointStateChange
endpoint_state_changes old new version =
    changes_in false version new old ++ changes_in true version old new
