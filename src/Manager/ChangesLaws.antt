-- ===== src/Manager/ChangesLaws.antt =====
-- The changes that `endpointStateChanges` lists, against the addresses of the configurations before and after.
use dubbo_go_pixiu.Prelude.{
  ℕ, Bool, true, false, not, ◌&&◌, ◌||◌, ◌≡◌, refl, Option, none, some, List, [], ◌∷◌, ◌++◌, any,
  arith, if◌then◌else◌, Bool-cases, inl, inr, ap, sym,
}
use dubbo_go_pixiu.Prelude.Text.{Text, text_eq, text_eq_iff}
use dubbo_go_pixiu.Prelude.Dict.{store, lookup-store_eq, Keyed, Keyed-store}
use dubbo_go_pixiu.Cluster.Address.{get_address}
use dubbo_go_pixiu.Cluster.Endpoint.{Endpoint, ClusterConfig, member}
use dubbo_go_pixiu.Manager.Changes.{
  EndpointStateChange, insert, add_addresses, addresses_in, add_configs, endpoint_address_snapshot,
  changes_of, changes_in, endpoint_state_changes,
}

-- Some endpoint has the address.
abbrev pub has_address : Text → List (Option Endpoint) → Bool
has_address a [] = false
has_address a (none ∷ es) = has_address a es
has_address a (some e ∷ es) = text_eq a (get_address e.address) || has_address a es

-- Some cluster of the name has an endpoint at the address.
abbrev pub reaches : Text → Text → List ClusterConfig → Bool
reaches name a = any (λ c. text_eq name c.name && has_address a c.endpoints)

-- A change says that the address comes to, or goes from, the cluster.
abbrev says : Bool → Text → Text → EndpointStateChange → Bool
says true name a c = c.is_present && text_eq name c.cluster_name && text_eq a c.address
says false name a c = not c.is_present && text_eq name c.cluster_name && text_eq a c.address

abbrev pub said : Bool → Text → Text → List EndpointStateChange → Bool
said comes name a = any (says comes name a)

member-append_one :
    (a x : Text) (xs : List Text) → member a (xs ++ x ∷ []) ≡ text_eq a x || member a xs
member-append_one a x [] = refl
member-append_one a x (y ∷ xs) = ground (arith, member-append_one a x xs)

member-insert : (a x : Text) (xs : List Text) → member a (insert x xs) ≡ text_eq a x || member a xs
member-insert a x xs = elim (Bool-cases (member x xs)) [
  | inl t ↦ elim (Bool-cases (text_eq a x)) [
    | inl u ↦ let same : a ≡ x = (text_eq_iff a x).0 u in rw (t, u, same) t
    | inr v ↦ rw (t, v) refl
  ]
  | inr f ↦ rw f (member-append_one a x xs)
]

member-add_addresses :
    (a : Text) (es : List (Option Endpoint)) (set : List Text)
    → member a (add_addresses es set) ≡ has_address a es || member a set
unfolding add_addresses
member-add_addresses a [] set = refl
member-add_addresses a (none ∷ es) set = member-add_addresses a es set
member-add_addresses a (some e ∷ es) set = ground (
  arith,
  member-add_addresses a es (insert (get_address e.address) set),
  member-insert a (get_address e.address) set,
)

addresses_in-store :
    (name k a : Text) (v : List Text) (d : List (Text × List Text))
    → member a (addresses_in name (store k v d))
      ≡ (if text_eq name k then member a v else member a (addresses_in name d))
addresses_in-store name k a v d = elim (Bool-cases (text_eq name k)) [
  | inl t ↦ rw (lookup-store_eq name k v d, t) refl
  | inr f ↦ rw (lookup-store_eq name k v d, f) refl
]

member-add_configs :
    (name a : Text) (cs : List ClusterConfig) (d : List (Text × List Text))
    → member a (addresses_in name (add_configs cs d))
      ≡ reaches name a cs || member a (addresses_in name d)
unfolding add_configs
member-add_configs name a [] d = refl
member-add_configs name a (c ∷ cs) d =
    let v = add_addresses c.endpoints (addresses_in c.name d) in
    let rest =
      rw (addresses_in-store name c.name a v d) at
        (member-add_configs name a cs (store c.name v d)) in
    elim (Bool-cases (text_eq name c.name)) [
      | inl t ↦
          let same : name ≡ c.name = (text_eq_iff name c.name).0 t in
          ground (
            arith,
            rest,
            t,
            member-add_addresses a c.endpoints (addresses_in c.name d),
            ap (λ n. member a (addresses_in n d)) same,
          )
      | inr f ↦ ground (arith, rest, f)
    ]

Keyed-add_configs :
    (cs : List ClusterConfig) (d : List (Text × List Text)) → Keyed d → Keyed (add_configs cs d)
unfolding add_configs
Keyed-add_configs [] d h = h
Keyed-add_configs (c ∷ cs) d h =
    Keyed-add_configs cs (store c.name (add_addresses c.endpoints (addresses_in c.name d)) d)
      (Keyed-store c.name (add_addresses c.endpoints (addresses_in c.name d)) d h)

said-append :
    (comes : Bool) (name a : Text) (xs ys : List EndpointStateChange)
    → said comes name a (xs ++ ys) ≡ said comes name a xs || said comes name a ys
said-append comes name a [] ys = refl
said-append comes name a (x ∷ xs) ys = ground (arith, said-append comes name a xs ys)

abbrev same : Bool → Bool → Bool
same true b = b
same false b = not b

module _ (is_present : Bool) (version : ℕ) (other : List (Text × List Text)) (comes : Bool)
    (name a : Text) where
  said-changes_of :
      (n : Text) (addresses : List Text)
      → said comes name a (changes_of is_present version other n addresses)
        ≡ text_eq name n
          && (same comes is_present
              && (member a addresses && not (member a (addresses_in n other))))
  unfolding changes_of
  said-changes_of n [] = ground arith
  said-changes_of n (x ∷ rest) = elim (Bool-cases (text_eq a x)) [
    | inl t ↦
        let moved : member a (addresses_in n other) ≡ member x (addresses_in n other) =
          ap (λ y. member y (addresses_in n other)) ((text_eq_iff a x).0 t) in
        ground (arith, said-changes_of n rest, t, moved)
    | inr f ↦ ground (arith, said-changes_of n rest, f)
  ]

  said-changes_in :
      (d : List (Text × List Text))
      → Keyed d
      → said comes name a (changes_in is_present version other d)
        ≡ same comes is_present
          && (member a (addresses_in name d) && not (member a (addresses_in name other)))
  unfolding changes_in
  said-changes_in [] h = ground arith
  said-changes_in ((n, addresses) ∷ rest) (new, h) =
      let first = said-changes_of n addresses in
      let others = said-changes_in rest h in
      let both =
        said-append comes name a (changes_of is_present version other n addresses)
          (changes_in is_present version other rest) in
      elim (Bool-cases (text_eq name n)) [
        | inl t ↦
            let same_name : name ≡ n = (text_eq_iff name n).0 t in
            let nothing_more : member a (addresses_in name rest) ≡ false =
              rw (same_name, new) refl in
            let moved : member a (addresses_in n other) ≡ member a (addresses_in name other) =
              ap (λ m. member a (addresses_in m other)) (sym same_name) in
            ground (arith, both, first, others, t, nothing_more, moved)
        | inr f ↦ ground (arith, both, first, others, f)
      ]

-- The changes between two lists of configurations.
abbrev pub changes_between : List ClusterConfig → List ClusterConfig → ℕ → List EndpointStateChange
changes_between old new version =
    endpoint_state_changes (endpoint_address_snapshot old) (endpoint_address_snapshot new) version

-- What `endpointStateChanges` lists between the address snapshots of two lists of configurations is exact:
-- an address comes to a cluster if an endpoint of the cluster has it in the second list and none has it in
-- the first, and it goes if one has it in the first and none has it in the second.
pub endpoint_state_changes_exact :
    (old new : List ClusterConfig) (version : ℕ) (name a : Text)
    → (said true name a (changes_between old new version)
        ≡ reaches name a new && not (reaches name a old))
      × (said false name a (changes_between old new version)
          ≡ reaches name a old && not (reaches name a new))
unfolding endpoint_state_changes endpoint_address_snapshot
endpoint_state_changes_exact old new version name a =
    let before = add_configs old [] in
    let after = add_configs new [] in
    let in_old = member-add_configs name a old [] in
    let in_new = member-add_configs name a new [] in
    let gone = λ (comes : Bool).
      said-changes_in false version after comes name a before (Keyed-add_configs old [] tt) in
    let come = λ (comes : Bool).
      said-changes_in true version before comes name a after (Keyed-add_configs new [] tt) in
    let both = λ (comes : Bool).
      said-append comes name a (changes_in false version after before)
        (changes_in true version before after) in
    (
      ground (arith, both true, gone true, come true, in_old, in_new),
      ground (arith, both false, gone false, come false, in_old, in_new),
    )
