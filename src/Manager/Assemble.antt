-- ===== src/Manager/Assemble.antt =====
-- `assembleClusterEndpoints`: the IDs and the names that the endpoints of a configuration get. The
-- configuration is not nil.
use dubbo_go_pixiu.Prelude.{
  ℕ, zero, suc, ◌+◌, true, false, ◌≡◌, refl, Option, none, some, List, [], ◌∷◌, ◌++◌, map, length,
  arith, if◌then◌else◌, Bool-cases, inl, inr, ap, ap₂, ◌∙◌,
}
use dubbo_go_pixiu.Prelude.Text.{Text, text_eq, codes}
use dubbo_go_pixiu.Prelude.Dict.{is_some, from_some, from_some-eq}
use dubbo_go_pixiu.Prelude.Decimal.{itoa}
use dubbo_go_pixiu.Cluster.Endpoint.{
  LlmMeta, Endpoint, member, generate_endpoint_id, base_id, candidate_id, unique_from,
  stable_unique_endpoint_id,
}
use dubbo_go_pixiu.Cluster.UniqueId.{stable_unique_endpoint_id_fresh}

pub stable_unique_endpoint_id-is_some :
    (digest : Text → Text) (name : Text) (e : Endpoint) (taken : List Text)
    → is_some (stable_unique_endpoint_id digest name e taken) ≡ true
stable_unique_endpoint_id-is_some digest name e taken =
    ap is_some (stable_unique_endpoint_id_fresh digest name e taken).1

abbrev pub default_name : ℕ → Option LlmMeta → Text
default_name i (some m) = codes "endpoint-" ++ (itoa (i + 1) ++ b'#' ∷ m.provider)
default_name i none = codes "endpoint-" ++ itoa (i + 1)

-- The endpoints that are not nil.
abbrev pub present : List (Option Endpoint) → List Endpoint
present [] = []
present (none ∷ es) = present es
present (some e ∷ es) = e ∷ present es

abbrev pub ids_of : List Endpoint → List Text
ids_of = map (λ (e : Endpoint). e.id)

-- IDs that are set, and apart from each other and from those that are taken.
abbrev pub Settled : List Text → List Endpoint → Type 0
Settled taken [] = Unit {0}
Settled taken (e ∷ es) =
    (text_eq e.id [] ≡ false) × (member e.id taken ≡ false) × Settled (e.id ∷ taken) es

module _ (digest : Text → Text) (cluster_name : Text) where
  -- The ID that `StableUniqueEndpointID` gives.
  unfoldable pub unique_id : Endpoint → List Text → Text
  unique_id e taken =
      from_some (stable_unique_endpoint_id digest cluster_name e taken)
        (stable_unique_endpoint_id-is_some digest cluster_name e taken)

  abbrev pub assigned_id : Endpoint → List Text → Text
  assigned_id e taken =
      if text_eq e.id []
      then unique_id e taken
      else if member e.id taken
      then unique_id e taken
      else e.id

  abbrev pub assembled : ℕ → Endpoint → List Text → Endpoint
  assembled i e taken = record e {
    id = assigned_id e taken;
    name = if text_eq e.name [] then default_name i e.llm_meta else e.name;
  }

  -- The loop of `assembleClusterEndpoints`, at index `i`; `taken` is the set of IDs.
  unfoldable pub assemble : ℕ → List Text → List (Option Endpoint) → List (Option Endpoint)
  assemble i taken [] = []
  assemble i taken (none ∷ es) = none ∷ assemble (i + 1) taken es
  assemble i taken (some e ∷ es) =
      some (assembled i e taken) ∷ assemble (i + 1) (assigned_id e taken ∷ taken) es

  candidate_id_set : (base : Text) (n : ℕ) → text_eq (candidate_id base n) [] ≡ false
  unfolding candidate_id text_eq
  candidate_id_set [] n = refl
  candidate_id_set (x ∷ base) n = refl

  unique_from_set :
      (fuel : ℕ) (base : Text) (n : ℕ) (taken : List Text) {id : Text}
      → unique_from fuel base n taken ≡ some id
      → text_eq id [] ≡ false
  unfolding unique_from
  unique_from_set zero base n taken h = cc
  unique_from_set (suc fuel) base n taken {id} h =
      elim (Bool-cases (member (candidate_id base n) taken)) [
        | inl t ↦ unique_from_set fuel base (n + 1) taken (rw t at h)
        | inr f ↦
            let found : some (candidate_id base n) ≡ some id = rw f at h in
            let same : candidate_id base n ≡ id = cc in rw (← same) (candidate_id_set base n)
      ]

  base_id_set : (e : Endpoint) → text_eq (base_id digest cluster_name e) [] ≡ false
  unfolding generate_endpoint_id text_eq
  base_id_set e = elim (Bool-cases (text_eq e.id [])) [ inl t ↦ rw t refl | inr f ↦ rw (f, f) refl ]

  stable_unique_set :
      (e : Endpoint) (taken : List Text) (id : Text)
      → stable_unique_endpoint_id digest cluster_name e taken ≡ some id
      → text_eq id [] ≡ false
  unfolding stable_unique_endpoint_id
  stable_unique_set e taken id h =
      elim (Bool-cases (member (base_id digest cluster_name e) taken)) [
        | inl t ↦
            unique_from_set (length taken + 1) (base_id digest cluster_name e) 2 taken
              (rw (t, stable_unique_endpoint_id) at h)
        | inr f ↦
            let found : some (base_id digest cluster_name e) ≡ some id =
              rw (f, stable_unique_endpoint_id) at h in
            let same : base_id digest cluster_name e ≡ id = cc in rw (← same) (base_id_set e)
      ]

  -- The ID is set, and none of those that are taken.
  unique_id_fresh :
      (e : Endpoint) (taken : List Text)
      → (text_eq (unique_id e taken) [] ≡ false) × (member (unique_id e taken) taken ≡ false)
  unfolding unique_id
  unique_id_fresh e taken =
      let (id, found, fresh) = stable_unique_endpoint_id_fresh digest cluster_name e taken in
      rw
        (from_some-eq (stable_unique_endpoint_id digest cluster_name e taken)
          (stable_unique_endpoint_id-is_some digest cluster_name e taken) found)
        (stable_unique_set e taken id found, fresh)

  pub unique_id_kept :
      (e : Endpoint) (taken : List Text)
      → text_eq e.id [] ≡ false
      → member e.id taken ≡ false
      → stable_unique_endpoint_id digest cluster_name e taken ≡ some e.id
  unfolding stable_unique_endpoint_id
  unique_id_kept e taken set fresh = rw (set, fresh) refl

  pub assigned_id_fresh :
      (e : Endpoint) (taken : List Text)
      → (text_eq (assigned_id e taken) [] ≡ false) × (member (assigned_id e taken) taken ≡ false)
  assigned_id_fresh e taken = elim (Bool-cases (text_eq e.id [])) [
    | inl t ↦ rw t (unique_id_fresh e taken)
    | inr set ↦ elim (Bool-cases (member e.id taken)) [
      | inl t ↦ rw (set, t) (unique_id_fresh e taken)
      | inr f ↦ rw (set, f) (set, f)
    ]
  ]

  pub assemble-Settled :
      (i : ℕ) (taken : List Text) (es : List (Option Endpoint))
      → Settled taken (present (assemble i taken es))
  unfolding assemble
  assemble-Settled i taken [] = tt
  assemble-Settled i taken (none ∷ es) = assemble-Settled (i + 1) taken es
  assemble-Settled i taken (some e ∷ es) =
      let (set, fresh) = assigned_id_fresh e taken in
      (set, fresh, assemble-Settled (i + 1) (assigned_id e taken ∷ taken) es)

  default_name_set : (i : ℕ) (m : Option LlmMeta) → text_eq (default_name i m) [] ≡ false
  unfolding text_eq
  default_name_set i none = refl
  default_name_set i (some m) = refl

  -- A set ID that is free stays.
  assigned_id_kept :
      (e : Endpoint) (taken : List Text)
      → text_eq e.id [] ≡ false
      → member e.id taken ≡ false
      → assigned_id e taken ≡ e.id
  assigned_id_kept e taken set fresh = ground (arith, set, fresh)

  assigned_id_again :
      (i : ℕ) (e : Endpoint) (taken : List Text)
      → assigned_id (assembled i e taken) taken ≡ assigned_id e taken
  assigned_id_again i e taken =
      let (set, fresh) = assigned_id_fresh e taken in
      assigned_id_kept (assembled i e taken) taken set fresh

  assembled_again :
      (i : ℕ) (e : Endpoint) (taken : List Text)
      → assembled i (assembled i e taken) taken ≡ assembled i e taken
  assembled_again i e taken =
      ap₂ (λ id name. record e { id = id; name = name }) (assigned_id_again i e taken)
        (elim (Bool-cases (text_eq e.name [])) [
          | inl t ↦ rw (t, default_name_set i e.llm_meta) refl
          | inr f ↦ rw (f, f) refl
        ])

  -- A second run over assembled endpoints changes nothing: the IDs and the names that the endpoints of a
  -- configuration have been given stay theirs.
  pub assemble-assemble :
      (i : ℕ) (taken : List Text) (es : List (Option Endpoint))
      → assemble i taken (assemble i taken es) ≡ assemble i taken es
  unfolding assemble
  assemble-assemble i taken [] = refl
  assemble-assemble i taken (none ∷ es) = ap (λ l. none ∷ l) (assemble-assemble (i + 1) taken es)
  assemble-assemble i taken (some e ∷ es) =
      ap₂ (λ a l. some a ∷ l) (assembled_again i e taken)
        (ap
            (λ id.
              assemble (i + 1) (id ∷ taken) (assemble (i + 1) (assigned_id e taken ∷ taken) es))
            (assigned_id_again i e taken)
          ∙ assemble-assemble (i + 1) (assigned_id e taken ∷ taken) es)
