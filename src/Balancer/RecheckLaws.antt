-- ===== src/Balancer/RecheckLaws.antt =====
-- What the check of a pick guarantees, whatever the balancer returned.
use mathlib.Core.List.{Memᴰ}
use dubbo_go_pixiu.Prelude.{
  Bool, ◌≡◌, refl, inl, inr, Option, none, some, List, [], arith, if◌then◌else◌, find?, find?-some,
  Bool-cases, Option-cases, sym, ◌∙◌,
}
use dubbo_go_pixiu.Prelude.Text.{Text, text_eq}
use dubbo_go_pixiu.Cluster.Endpoint.{Endpoint, Ref}
use dubbo_go_pixiu.Balancer.Recheck.{
  PickContext, same_ref, same_identity_as, scan_healthy, check_candidate,
  healthy_endpoint_from_snapshot, pick_endpoint, defensive_context,
}

abbrev pub has_id : Text → Ref → Bool
has_id id r = text_eq r.value.id id

-- The index of a context, if it has one, holds the healthy endpoint of each ID.
abbrev pub IsIndexed : PickContext → Type 0
IsIndexed context =
    (index : Text → Option Ref)
    → context.healthy_by_id ≡ some index
    → (id : Text) → index id ≡ find? (has_id id) context.healthy_endpoints

scan_healthy-mem :
    (endpoint : Ref) (healthy : List Ref) {e : Endpoint}
    → scan_healthy endpoint healthy ≡ some e
    → (r : Ref) × Memᴰ r healthy × (r.value ≡ e)
unfolding scan_healthy
scan_healthy-mem endpoint healthy {e} h = elim (Option-cases (find? (same_ref endpoint) healthy)) [
  | inl missed ↦ elim (Option-cases (find? (same_identity_as endpoint) healthy)) [
    | inl none_same ↦ cc (rw (missed, none_same, scan_healthy) at h)
    | inr (r, found) ↦ (
      r,
      (find?-some _ healthy found).0,
      let g : some r.value ≡ some e = rw (missed, found, scan_healthy) at h in cc,
    )
  ]
  | inr (r, found) ↦ (
    r,
    (find?-some _ healthy found).0,
    let g : some r.value ≡ some e = rw (found, scan_healthy) at h in cc,
  )
]

check_candidate-some :
    (endpoint : Ref) (o : Option Ref) {e : Endpoint}
    → check_candidate endpoint o ≡ some e
    → (r : Ref) × (o ≡ some r) × (r.value ≡ e)
unfolding check_candidate
check_candidate-some endpoint none h = cc
check_candidate-some endpoint (some r) h = (r, refl, ground arith)

pub healthy_endpoint_from_snapshot-mem :
    (pick : Option Ref) (context : PickContext) {e : Endpoint}
    → IsIndexed context
    → healthy_endpoint_from_snapshot pick context ≡ some e
    → (r : Ref) × Memᴰ r context.healthy_endpoints × (r.value ≡ e)
unfolding healthy_endpoint_from_snapshot
healthy_endpoint_from_snapshot-mem none context indexed h = cc
healthy_endpoint_from_snapshot-mem (some endpoint) context indexed h =
    elim (Option-cases context.healthy_by_id) [
      | inl e ↦
          scan_healthy-mem endpoint context.healthy_endpoints
            (rw (e, healthy_endpoint_from_snapshot) at h)
      | inr (index, e) ↦ elim (Bool-cases (text_eq endpoint.value.id [])) [
        | inl blank ↦
            scan_healthy-mem endpoint context.healthy_endpoints
              (rw (e, blank, healthy_endpoint_from_snapshot) at h)
        | inr set ↦
            let (r, found, same) =
              check_candidate-some endpoint (index endpoint.value.id)
                (rw (e, set, healthy_endpoint_from_snapshot) at h) in
            (
              r,
              (find?-some _ context.healthy_endpoints
                  (sym (indexed index e endpoint.value.id) ∙ found)).0,
              same,
            )
      ]
    ]

-- Whatever a balancer returns, an endpoint that reaches the request path is a healthy endpoint of the
-- snapshot, as the snapshot has it.
pub pick_endpoint_healthy :
    (copy : Ref → Ref) (zero_copy : Bool) (handler : Option (PickContext → Option Ref))
    (context : PickContext) (e : Endpoint)
    → IsIndexed context
    → pick_endpoint copy zero_copy handler context ≡ some e
    → (r : Ref) × Memᴰ r context.healthy_endpoints × (r.value ≡ e)
unfolding pick_endpoint
pick_endpoint_healthy copy zero_copy none context e indexed h = cc
pick_endpoint_healthy copy zero_copy (some handler) context e indexed h =
    elim (Option-cases context.config) [
      | inl nothing ↦ cc (rw (nothing, pick_endpoint) at h)
      | inr (c, some_config) ↦
          healthy_endpoint_from_snapshot-mem
            (handler (if zero_copy then context else defensive_context copy context)) context
            indexed (rw (some_config, pick_endpoint) at h)
    ]
