-- ===== src/Manager/SlotLaws.antt =====
-- What `SetEndpoint` makes of the endpoints of a configuration.
use dubbo_go_pixiu.Prelude.{
  ℕ, zero, suc, ◌+◌, Bool, true, false, ◌≡◌, refl, Option, none, some, List, [], ◌∷◌, ◌++◌, arith,
  if◌then◌else◌, Bool-cases, Option-cases, inl, inr, ap, subst,
}
use dubbo_go_pixiu.Prelude.Text.{Text, text_eq, text_eq_iff, text_eq_refl}
use dubbo_go_pixiu.Cluster.Endpoint.{LlmMeta, Endpoint}
use dubbo_go_pixiu.Manager.Content.{endpoint_content_equal_for_set}
use dubbo_go_pixiu.Manager.Slot.{
  idempotent, find_slot, resolve_set_endpoint_slot_by_id, resolve_set_endpoint_slot_by_hash, set_at,
  placed,
}

-- The slot `n`, counted from `i`, holds the first endpoint that passes a test, and `k` is its index.
record Slot (p : Endpoint → Bool) (i : ℕ) (es : List (Option Endpoint)) (n : ℕ) (x : Endpoint)
    : Type 0 where
  k : ℕ
  index_eq : n ≡ i + k
  passes : p x ≡ true
  found_after : (e : Endpoint) → p e ≡ true → find_slot p i (set_at k e es) ≡ some (n, e)
  others_after :
      (q : Endpoint → Bool) (e : Endpoint)
      → q x ≡ false
      → q e ≡ false
      → find_slot q i (set_at k e es) ≡ find_slot q i es

slot_index :
    {p : Endpoint → Bool} {es : List (Option Endpoint)} {n : ℕ} {x : Endpoint}
    (slot : Slot p 0 es n x)
    → slot.k ≡ n
slot_index slot = omega (arith, slot.index_eq)

find_slot-Slot :
    (p : Endpoint → Bool) (i : ℕ) (es : List (Option Endpoint)) (n : ℕ) (x : Endpoint)
    → find_slot p i es ≡ some (n, x)
    → Slot p i es n x
unfolding find_slot set_at
find_slot-Slot p i [] n x h = cc
find_slot-Slot p i (none ∷ es) n x h =
    let rest = find_slot-Slot p (i + 1) es n x h in
    record {
      k = suc rest.k;
      index_eq = omega (arith, rest.index_eq);
      passes = rest.passes;
      found_after = rest.found_after;
      others_after = rest.others_after;
    }
find_slot-Slot p i (some y ∷ es) n x h = elim (Bool-cases (p y)) [
  | inl t ↦
      let same : some (i, y) ≡ some (n, x) = rw t at h in
      let same_index : i ≡ n = cc in
      let same_value : y ≡ x = cc in
      record {
        k = 0;
        index_eq = omega (arith, same_index);
        passes = rw (← same_value) t;
        found_after = λ e u. rw (u, same_index) refl;
        others_after = λ q e miss miss_e. rw (miss_e, same_value, miss) refl;
      }
  | inr f ↦
      let rest = find_slot-Slot p (i + 1) es n x (rw f at h) in
      record {
        k = suc rest.k;
        index_eq = omega (arith, rest.index_eq);
        passes = rest.passes;
        found_after = λ e u. rw f (rest.found_after e u);
        others_after = λ q e miss miss_e.
            ap (λ o. if q y then some (i, y) else o) (rest.others_after q e miss miss_e);
      }
]

find_slot-append :
    (p : Endpoint → Bool) (i : ℕ) (es : List (Option Endpoint)) (e : Endpoint)
    → find_slot p i es ≡ none
    → p e ≡ true
    → (n : ℕ) × (find_slot p i (es ++ some e ∷ []) ≡ some (n, e))
unfolding find_slot
find_slot-append p i [] e h t = (i, rw t refl)
find_slot-append p i (none ∷ es) e h t = find_slot-append p (i + 1) es e h t
find_slot-append p i (some y ∷ es) e h t = elim (Bool-cases (p y)) [
  | inl u ↦ cc (rw u at h)
  | inr f ↦ rw f (find_slot-append p (i + 1) es e (rw f at h) t)
]

find_slot-append_other :
    (q : Endpoint → Bool) (i : ℕ) (es : List (Option Endpoint)) (e : Endpoint)
    → q e ≡ false
    → find_slot q i (es ++ some e ∷ []) ≡ find_slot q i es
unfolding find_slot
find_slot-append_other q i [] e f = rw f refl
find_slot-append_other q i (none ∷ es) e f = find_slot-append_other q (i + 1) es e f
find_slot-append_other q i (some y ∷ es) e f =
    ap (λ o. if q y then some (i, y) else o) (find_slot-append_other q (i + 1) es e f)

abbrev pub has_id : Text → Endpoint → Bool
has_id id e = text_eq e.id id

module _ (deep_equal : LlmMeta → LlmMeta → Bool) where
  -- The endpoints that `SetEndpoint` has put down for an endpoint with an ID, before they are assembled.
  abbrev pub set_by_id : Endpoint → List (Option Endpoint) → List (Option Endpoint)
  set_by_id e es = placed (resolve_set_endpoint_slot_by_id deep_equal e es).action e es

  -- Before they are assembled, the endpoints that `SetEndpoint` leaves for an endpoint with an ID have it: the
  -- first endpoint of that ID has its content, whether its slot was there with other content, with the same,
  -- or not at all. Setting it once more has nothing to do. The content of the endpoint equals itself.
  pub set_by_id_found :
      (e : Endpoint) (es : List (Option Endpoint))
      → endpoint_content_equal_for_set deep_equal e e ≡ true
      → (n : ℕ) × (x : Endpoint) × (find_slot (has_id e.id) 0 (set_by_id e es) ≡ some (n, x))
        × (endpoint_content_equal_for_set deep_equal x e ≡ true)
        × ((resolve_set_endpoint_slot_by_id deep_equal e (set_by_id e es)).action ≡ idempotent)
  unfolding resolve_set_endpoint_slot_by_id placed
  set_by_id_found e es same = elim (Option-cases (find_slot (has_id e.id) 0 es)) [
    | inl missing ↦
        let (n, found) = find_slot-append (has_id e.id) 0 es e missing (text_eq_refl e.id) in
        rw (missing, resolve_set_endpoint_slot_by_id) (n, e, found, same, rw (found, same) refl)
    | inr ((n, x), found) ↦ elim (Bool-cases (endpoint_content_equal_for_set deep_equal x e)) [
      | inl t ↦ rw (found, t, resolve_set_endpoint_slot_by_id) (n, x, found, t, rw (found, t) refl)
      | inr f ↦
          let slot = find_slot-Slot (has_id e.id) 0 es n x found in
          let after : find_slot (has_id e.id) 0 (set_at n e es) ≡ some (n, e) =
            subst (λ k. find_slot (has_id e.id) 0 (set_at k e es) ≡ some (n, e)) (slot_index slot)
              (slot.found_after e (text_eq_refl e.id)) in
          rw (found, f, resolve_set_endpoint_slot_by_id) (n, e, after, same, rw (after, same) refl)
    ]
  ]

  -- Setting an endpoint with an ID leaves the endpoint of every other ID as it is, in its place, before they
  -- are assembled.
  pub set_by_id_others :
      (e : Endpoint) (es : List (Option Endpoint)) (id : Text)
      → text_eq e.id id ≡ false
      → find_slot (has_id id) 0 (set_by_id e es) ≡ find_slot (has_id id) 0 es
  unfolding resolve_set_endpoint_slot_by_id placed
  set_by_id_others e es id other = elim (Option-cases (find_slot (has_id e.id) 0 es)) [
    | inl missing ↦
        rw (missing, resolve_set_endpoint_slot_by_id)
          (find_slot-append_other (has_id id) 0 es e other)
    | inr ((n, x), found) ↦ elim (Bool-cases (endpoint_content_equal_for_set deep_equal x e)) [
      | inl t ↦ rw (found, t, resolve_set_endpoint_slot_by_id) refl
      | inr f ↦
          let slot = find_slot-Slot (has_id e.id) 0 es n x found in
          let same_id : x.id ≡ e.id = (text_eq_iff x.id e.id).0 slot.passes in
          let miss : text_eq x.id id ≡ false = rw same_id other in
          let after : find_slot (has_id id) 0 (set_at n e es) ≡ find_slot (has_id id) 0 es =
            subst (λ k. find_slot (has_id id) 0 (set_at k e es) ≡ find_slot (has_id id) 0 es)
              (slot_index slot) (slot.others_after (has_id id) e miss other) in
          rw (found, f, resolve_set_endpoint_slot_by_id) after
    ]
  ]

  module _ (digest : Text → Text) (cluster_name : Text) where
    -- The same for an endpoint without an ID.
    abbrev pub set_by_hash : Endpoint → List (Option Endpoint) → List (Option Endpoint)
    set_by_hash e es =
        let outcome = resolve_set_endpoint_slot_by_hash deep_equal digest cluster_name e es in
        placed outcome.action (record e { id = outcome.target_id }) es

    abbrev pub set_times : ℕ → Endpoint → List (Option Endpoint) → List (Option Endpoint)
    set_times zero e es = es
    set_times (suc n) e es = set_times n e (set_by_hash e es)
