-- ===== src/Health/Sessions.antt =====
-- The sessions of a `HealthChecker`, one per address: `Start`, `Stop`, `startCheck`, `stopCheck` and
-- `hasOtherEndpointWithAddress`. A `*model.Endpoint` is a `Ref`, and nil is `none`. The map of
-- checkers is the list of its addresses; a checker that leaves the map is stopped.
use mathlib.Core.List.{Memᴰ}
use dubbo_go_pixiu.Prelude.{
  Bool, true, false, not, ◌&&◌, ◌||◌, ◌≡◌, refl, Option, none, some, List, [], ◌∷◌, ◌==◌, keep,
  if◌then◌else◌, arith, Bool-cases, inl, inr,
}
use dubbo_go_pixiu.Prelude.Text.{Text, text_eq, text_eq_iff, text_eq_refl}
use dubbo_go_pixiu.Cluster.Address.{get_address}
use dubbo_go_pixiu.Cluster.Endpoint.{member, Ref}

abbrev pub address_of : Ref → Text
address_of r = get_address r.value.address

-- The endpoint that `candidate` stands beside, by reference or by a set ID.
abbrev pub is_same : Ref → Ref → Bool
is_same endpoint candidate =
    candidate.at == endpoint.at
    || (not (text_eq endpoint.value.id []) && text_eq candidate.value.id endpoint.value.id)

-- `hasOtherEndpointWithAddress`; the first argument is `hc.cluster.Endpoints`.
unfoldable pub has_other_endpoint_with_address : List (Option Ref) → Ref → Text → Bool
has_other_endpoint_with_address [] endpoint addr = false
has_other_endpoint_with_address (none ∷ cs) endpoint addr =
    has_other_endpoint_with_address cs endpoint addr
has_other_endpoint_with_address (some candidate ∷ cs) endpoint addr =
    let rest = has_other_endpoint_with_address cs endpoint addr in
    if is_same endpoint candidate
    then rest
    else if text_eq (address_of candidate) addr
    then true
    else rest

abbrev pub drop_address : Text → List Text → List Text
drop_address addr = keep (λ a. not (text_eq addr a))

-- `startCheck`.
unfoldable pub start_check : Option Ref → List Text → List Text
start_check none checkers = checkers
start_check (some endpoint) checkers =
    if member (address_of endpoint) checkers then checkers else address_of endpoint ∷ checkers

-- `stopCheck`.
unfoldable pub stop_check : List (Option Ref) → Option Ref → List Text → List Text
unfolding has_other_endpoint_with_address
stop_check cluster none checkers = checkers
stop_check cluster (some endpoint) checkers =
    if has_other_endpoint_with_address cluster endpoint (address_of endpoint)
    then checkers
    else if member (address_of endpoint) checkers
    then drop_address (address_of endpoint) checkers
    else checkers

-- `Start`.
unfoldable pub start : List (Option Ref) → List Text → List Text
unfolding start_check
start [] checkers = checkers
start (e ∷ es) checkers = start es (start_check e checkers)

-- `Stop` deletes every session.
unfoldable pub stop : List Text → List Text
stop [] = []
stop (_ ∷ checkers) = stop checkers

-- Some endpoint of a list has the address.
unfoldable pub in_use : List (Option Ref) → Text → Bool
in_use [] addr = false
in_use (none ∷ es) addr = in_use es addr
in_use (some e ∷ es) addr = text_eq (address_of e) addr || in_use es addr

-- The endpoints that stay when one is removed.
unfoldable pub without_endpoint : Ref → List (Option Ref) → List (Option Ref)
without_endpoint endpoint [] = []
without_endpoint endpoint (none ∷ es) = none ∷ without_endpoint endpoint es
without_endpoint endpoint (some e ∷ es) =
    if is_same endpoint e
    then without_endpoint endpoint es
    else some e ∷ without_endpoint endpoint es

-- The sessions are those of the addresses in use.
abbrev pub IsCovered : List (Option Ref) → List Text → Type 0
IsCovered es checkers = (addr : Text) → member addr checkers ≡ in_use es addr

member-start_check :
    (e : Ref) (checkers : List Text) (addr : Text)
    → member addr (start_check (some e) checkers)
      ≡ text_eq (address_of e) addr || member addr checkers
unfolding start_check
member-start_check e checkers addr =
    grind (arith, text_eq_iff (address_of e) addr, text_eq_iff addr (address_of e))

member-drop_address :
    (a : Text) (checkers : List Text) (addr : Text)
    → member addr (drop_address a checkers) ≡ not (text_eq a addr) && member addr checkers
member-drop_address a [] addr = ground arith
member-drop_address a (c ∷ checkers) addr = grind (
  arith,
  member-drop_address a checkers addr,
  text_eq_iff a c,
  text_eq_iff a addr,
  text_eq_iff addr c,
)

has_other_eq :
    (es : List (Option Ref)) (e : Ref) (addr : Text)
    → has_other_endpoint_with_address es e addr ≡ in_use (without_endpoint e es) addr
unfolding has_other_endpoint_with_address in_use without_endpoint
has_other_eq [] e addr = refl
has_other_eq (none ∷ es) e addr = has_other_eq es e addr
has_other_eq (some c ∷ es) e addr = ground (arith, has_other_eq es e addr)

start-member :
    (es : List (Option Ref)) (checkers : List Text) (addr : Text)
    → member addr (start es checkers) ≡ in_use es addr || member addr checkers
unfolding start in_use
start-member [] checkers addr = refl
start-member (none ∷ es) checkers addr = start-member es checkers addr
start-member (some e ∷ es) checkers addr = ground (
  arith,
  start-member es (start_check (some e) checkers) addr,
  member-start_check e checkers addr,
)

-- From no session on, starting the checks of a cluster gives each address that some endpoint has a
-- session, and no other.
pub start-IsCovered : (es : List (Option Ref)) → IsCovered es (start es [])
start-IsCovered es addr = ground (arith, start-member es [] addr)

-- Starting the check of one more endpoint keeps the sessions those of the addresses in use.
pub start_check-IsCovered :
    (es : List (Option Ref)) (e : Ref) (checkers : List Text)
    → IsCovered es checkers
    → IsCovered (some e ∷ es) (start_check (some e) checkers)
unfolding in_use
start_check-IsCovered es e checkers covered addr =
    ground (arith, covered addr, member-start_check e checkers addr)

in_use-without :
    (es : List (Option Ref)) (e : Ref) (addr : Text)
    → ((c : Ref) → Memᴰ (some c) es → is_same e c ≡ true → address_of c ≡ address_of e)
    → text_eq (address_of e) addr ≡ false
    → in_use (without_endpoint e es) addr ≡ in_use es addr
unfolding in_use without_endpoint
in_use-without [] e addr one other = refl
in_use-without (none ∷ es) e addr one other =
    in_use-without es e addr (λ c m. one c (Memᴰ.tail m)) other
in_use-without (some c ∷ es) e addr one other =
    let rest = in_use-without es e addr (λ d m. one d (Memᴰ.tail m)) other in
    elim (Bool-cases (is_same e c)) [
      | inl t ↦
          let same : address_of c ≡ address_of e = one c (Memᴰ.head refl) t in
          let apart : text_eq (address_of c) addr ≡ false = rw same other in rw (t, apart) rest
      | inr f ↦ rw (f, rest) refl
    ]

in_use_without-le :
    (es : List (Option Ref)) (e : Ref) (addr : Text)
    → in_use (without_endpoint e es) addr ≡ true
    → in_use es addr ≡ true
unfolding in_use without_endpoint
in_use_without-le [] e addr h = h
in_use_without-le (none ∷ es) e addr h = in_use_without-le es e addr h
in_use_without-le (some c ∷ es) e addr h = ground (arith, in_use_without-le es e addr)

-- Stopping the check of an endpoint that is removed keeps the sessions those of the addresses in use:
-- an address that another endpoint has keeps its session. The endpoint's own entries in the list are at
-- its address.
pub stop_check-IsCovered :
    (es : List (Option Ref)) (e : Ref) (checkers : List Text)
    → ((c : Ref) → Memᴰ (some c) es → is_same e c ≡ true → address_of c ≡ address_of e)
    → IsCovered es checkers
    → IsCovered (without_endpoint e es) (stop_check es (some e) checkers)
unfolding stop_check
stop_check-IsCovered es e checkers one covered addr =
    elim (Bool-cases (text_eq (address_of e) addr)) [
      | inl t ↦
          let same : address_of e ≡ addr = (text_eq_iff (address_of e) addr).0 t in
          rw (same) (
            ground (
              arith,
              covered addr,
              has_other_eq es e addr,
              in_use_without-le es e addr,
              member-drop_address addr checkers addr,
              text_eq_refl addr,
            ))
      | inr other ↦ ground (
        arith,
        covered addr,
        in_use-without es e addr one other,
        member-drop_address (address_of e) checkers addr,
      )
    ]
