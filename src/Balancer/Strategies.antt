-- ===== src/Balancer/Strategies.antt =====
-- `HandlerWithSnapshot` of the balancers of pkg/cluster/loadbalancer: rand, roundrobin, weightrandom,
-- ringhash and maglev. The random source and `strconv.Atoi` are parameters, and so is the answer of
-- the consistent hash. A pick is `none` for nil; `get_elem?` has no answer where Go panics.
use dubbo_go_pixiu.Prelude.{
  ℕ, ◌+◌, ◌%◌, Bool, not, ◌&&◌, ◌||◌, Option, none, some, List, [], ◌∷◌, ◌==◌, ltb, if◌then◌else◌,
  find?, length, get_elem?,
}
use dubbo_go_pixiu.Prelude.Int.{ℤ, pos, negsuc}
use dubbo_go_pixiu.Prelude.Text.{Text, text_eq, codes}
use dubbo_go_pixiu.Cluster.Endpoint.{get_host, Ref}

abbrev pub int_max : ℕ
int_max = 9223372036854775808

-- Go's int64, as its pattern of 64 bits: the sum wraps, and the upper half is negative.
abbrev pub add64 : ℕ → ℕ → ℕ
add64 a b = (a + b) % 18446744073709551616

abbrev pub is_negative64 : ℕ → Bool
is_negative64 n = not (ltb n int_max)

-- `rand.Rand`. The argument stands for `rand.Intn`.
unfoldable pub rand_handler : (ℕ → ℕ) → List Ref → Option Ref
rand_handler intn [] = none
rand_handler intn (e ∷ es) = get_elem? (e ∷ es) (intn (length (e ∷ es)))

-- The cursors of the round robin: the runtime's, if it has one, and `PrePickEndpointIndex`.
pub record Cursors : Type 0 where
  pub round_robin_cursor : Option ℕ
  pub pre_pick_endpoint_index : ℕ

abbrev pub add32 : ℕ → ℕ
add32 n = (n + 1) % 4294967296

-- The value that was read, and the cursors after the addition.
unfoldable pub advance : Cursors → ℕ × Cursors
advance c = elim c.round_robin_cursor [
  | some n ↦ (
    n,
    record {
      round_robin_cursor = some (add32 n);
      pre_pick_endpoint_index = c.pre_pick_endpoint_index;
    },
  )
  | none ↦ (
    c.pre_pick_endpoint_index,
    record { round_robin_cursor = none; pre_pick_endpoint_index = add32 c.pre_pick_endpoint_index },
  )
]

-- `RoundRobin`, of fewer than 2^32 endpoints, whose number the source turns into a uint32.
unfoldable pub round_robin_handler : List Ref → Cursors → Option Ref × Cursors
unfolding advance
round_robin_handler [] c = (none, c)
round_robin_handler (e ∷ es) c =
    (get_elem? (e ∷ es) ((advance c).0 % length (e ∷ es)), (advance c).1)

abbrev pub metadata_of : Text → List (Text × Text) → Option Text
metadata_of key [] = none
metadata_of key ((k, v) ∷ rest) = if text_eq key k then some v else metadata_of key rest

module _ (atoi : Text → Option ℤ) where
  abbrev pub parsed_weight : Option ℤ → ℕ
  parsed_weight none = 0
  parsed_weight (some (pos w)) = w
  parsed_weight (some (negsuc w)) = 0

  abbrev pub weight_in : Option Text → ℕ
  weight_in none = 0
  weight_in (some s) = parsed_weight (atoi s)

  -- The weight of an endpoint: 0 where it has none, or none that is a number of 0 or more.
  unfoldable pub weight_of : Ref → ℕ
  weight_of r = weight_in (metadata_of (codes "weight") r.value.metadata)

  -- The loop that adds up the weights.
  unfoldable pub total_weight : ℕ → List Ref → ℕ
  total_weight total [] = total
  total_weight total (r ∷ rs) = total_weight (add64 total (weight_of r)) rs

  -- The loop that finds the endpoint of a random number; the last line is `endpoints[0]`.
  unfoldable pub find_weighted : Option Ref → ℕ → ℕ → List Ref → Option Ref
  find_weighted first number current [] = first
  find_weighted first number current (r ∷ rs) =
      let rest = find_weighted first number (add64 current (weight_of r)) rs in
      if not (is_negative64 (add64 current (weight_of r)))
        && ltb number (add64 current (weight_of r))
      then some r
      else rest

  -- What is picked once the total is known.
  unfoldable pub pick_weighted : (ℕ → ℕ) → ℕ → Ref → List Ref → Option Ref
  pick_weighted intn total e es =
      if total == 0 || is_negative64 total
      then get_elem? (e ∷ es) (intn (length (e ∷ es)))
      else find_weighted (some e) (intn total) 0 (e ∷ es)

  -- `WeightRandom`.
  unfoldable pub weight_random_handler : (ℕ → ℕ) → List Ref → Option Ref
  weight_random_handler intn [] = none
  weight_random_handler intn (e ∷ es) = pick_weighted intn (total_weight 0 (e ∷ es)) e es

abbrev pub has_host : Text → Ref → Bool
has_host host r = text_eq (get_host r.value) host

abbrev pub or_first : Option Ref → Ref → Option Ref
or_first (some r) first = some r
or_first none first = some first

-- `RingHashing` and `MaglevHash`, with a view of the hash and a policy: the argument is what the hash
-- answers, `none` for an error.
unfoldable pub consistent_hash_handler : Option Text → List Ref → Option Ref
consistent_hash_handler answer [] = none
consistent_hash_handler none (e ∷ es) = none
consistent_hash_handler (some host) (e ∷ es) = or_first (find? (has_host host) (e ∷ es)) e
