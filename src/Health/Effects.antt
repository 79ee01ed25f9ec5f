-- ===== src/Health/Effects.antt =====
-- What a checker's report does: `handleHealth`, `handleUnHealth`, `emitHealth` and
-- `setEndpointAddressHealth`. The endpoints of the cluster are shared; they are returned as they are after.
use dubbo_go_pixiu.Prelude.{
  Bool, true, false, not, ◌≡◌, refl, Option, none, some, List, [], ◌∷◌, map, if◌then◌else◌,
  Bool-cases, inl, inr,
}
use dubbo_go_pixiu.Prelude.Text.{Text, text_eq}
use dubbo_go_pixiu.Cluster.Endpoint.{Ref}
use dubbo_go_pixiu.Health.Sessions.{address_of, in_use}

pub record EndpointHealthEvent : Type 0 where
  pub endpoint_id : Text
  pub endpoint_address : Text
  pub healthy : Bool

-- `endpoint.UnHealthy = !healthy`.
abbrev pub set_health : Bool → Ref → Ref
set_health healthy r = record r { value = record r.value { un_healthy = not healthy } }

-- `setEndpointAddressHealth`.
unfoldable pub set_endpoint_address_health :
    Text → Bool → List (Option Ref) → List (Option Ref) × Bool
set_endpoint_address_health addr healthy [] = ([], false)
set_endpoint_address_health addr healthy (none ∷ es) =
    let (rest, updated) = set_endpoint_address_health addr healthy es in (none ∷ rest, updated)
set_endpoint_address_health addr healthy (some e ∷ es) =
    let (rest, updated) = set_endpoint_address_health addr healthy es in
    if not (text_eq (address_of e) addr)
    then (some e ∷ rest, updated)
    else (some (set_health healthy e) ∷ rest, true)

-- What a report leads to: an event for the listener, or the endpoints of the cluster and the checker's own
-- endpoint as they are after.
pub data Effect : Type 0 where
  notified : EndpointHealthEvent → Effect
  marked : List (Option Ref) → Ref → Effect

-- `emitHealth`: the flag says that there is a listener.
unfoldable pub emit_health : Bool → Ref → Text → Text → Bool → List (Option Ref) → Effect
unfolding set_endpoint_address_health
emit_health true endpoint id addr healthy cluster =
    notified (record { endpoint_id = id; endpoint_address = addr; healthy = healthy })
emit_health false endpoint id addr healthy cluster =
    let (cluster', updated) = set_endpoint_address_health addr healthy cluster in
    marked cluster' (if not updated then set_health healthy endpoint else endpoint)

-- The mark that an endpoint has for a report on an address.
abbrev pub after_report : Text → Bool → Option Ref → Option Ref
after_report addr healthy none = none
after_report addr healthy (some e) =
    if text_eq (address_of e) addr then some (set_health healthy e) else some e

-- A report marks exactly the endpoints of its address, and says whether there was one.
pub set_endpoint_address_health_marks :
    (addr : Text) (healthy : Bool) (es : List (Option Ref))
    → set_endpoint_address_health addr healthy es
      ≡ (map (after_report addr healthy) es, in_use es addr)
unfolding set_endpoint_address_health in_use
set_endpoint_address_health_marks addr healthy [] = refl
set_endpoint_address_health_marks addr healthy (none ∷ es) =
    rw (set_endpoint_address_health_marks addr healthy es) refl
set_endpoint_address_health_marks addr healthy (some e ∷ es) =
    elim (Bool-cases (text_eq (address_of e) addr)) [
      | inl t ↦ rw (set_endpoint_address_health_marks addr healthy es, t) refl
      | inr f ↦ rw (set_endpoint_address_health_marks addr healthy es, f) refl
    ]
