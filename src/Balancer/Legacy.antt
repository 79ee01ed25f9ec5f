-- ===== src/Balancer/Legacy.antt =====
-- pkg/cluster/loadbalancer/load_balancer.go: `pickEndpoint` for a balancer that only has `Handler`. It
-- works, once the hash of the configuration is there, on a copy of the configuration, and what it adds to the copy's cursor is added to the shared one.
use mathlib.Core.List.{Memᴰ}
use dubbo_go_pixiu.Prelude.{
  ℕ, ◌+◌, ◌-◌, ◌%◌, ◌<◌, ◌≡◌, Option, none, some, List, ◌==◌, arith, if◌then◌else◌, Bool-cases, inl,
  inr,
}
use dubbo_go_pixiu.Cluster.Endpoint.{Endpoint, Ref}
use dubbo_go_pixiu.Balancer.Recheck.{PickContext, copies, healthy_endpoint_from_snapshot}
use dubbo_go_pixiu.Balancer.RecheckLaws.{IsIndexed, healthy_endpoint_from_snapshot-mem}
use dubbo_go_pixiu.Balancer.Strategies.{Cursors, advance}
use dubbo_go_pixiu.Balancer.RoundRobin.{cursor}

abbrev pub all_or_healthy : Option (List Ref) → List Ref → List Ref
all_or_healthy none healthy = healthy
all_or_healthy (some rs) healthy = rs

-- The addition of a difference of two uint32.
unfoldable pub add_delta : ℕ → ℕ → ℕ → ℕ
add_delta before after n = (n + (after + 4294967296 - before) % 4294967296) % 4294967296

abbrev pub moved : ℕ → ℕ → Cursors → Cursors
moved before after c = elim c.round_robin_cursor [
  | some n ↦ record c { round_robin_cursor = some (add_delta before after n) }
  | none ↦ record c { pre_pick_endpoint_index = add_delta before after c.pre_pick_endpoint_index }
]

-- `handler` is `Handler` on the copied endpoints and the copied cursor: its pick and the cursor after it.
unfoldable pub legacy_pick :
    (Ref → Ref)
    → (List Ref → ℕ → Option Ref × ℕ)
    → Cursors
    → PickContext
    → Option Endpoint × Cursors
legacy_pick copy handler cursors context =
    let (endpoint, after) =
      handler (copies copy (all_or_healthy context.all_endpoints context.healthy_endpoints))
        (cursor cursors) in
    (
      healthy_endpoint_from_snapshot endpoint context,
      (if after == cursor cursors then cursors else moved (cursor cursors) after cursors),
    )

-- Whatever a legacy balancer returns, an endpoint that reaches the request path is a healthy endpoint of
-- the snapshot, if the index by ID holds the healthy endpoint of each ID.
pub legacy_pick_healthy :
    (copy : Ref → Ref) (handler : List Ref → ℕ → Option Ref × ℕ) (cursors : Cursors)
    (context : PickContext) (e : Endpoint)
    → IsIndexed context
    → (legacy_pick copy handler cursors context).0 ≡ some e
    → (r : Ref) × Memᴰ r context.healthy_endpoints × (r.value ≡ e)
unfolding legacy_pick
legacy_pick_healthy copy handler cursors context e indexed h =
    healthy_endpoint_from_snapshot-mem _ context indexed h

cursor-moved :
    (after : ℕ) (c : Cursors)
    → cursor c < 4294967296
    → after < 4294967296
    → cursor (moved (cursor c) after c) ≡ after
unfolding cursor add_delta advance
cursor-moved after c h lt = ground arith

-- After a legacy pick the shared cursor stands where the balancer left its copy, also when the cursor
-- wraps at 2^32 or the balancer moves it back.
pub cursor-legacy_pick :
    (copy : Ref → Ref) (handler : List Ref → ℕ → Option Ref × ℕ) (cursors : Cursors)
    (context : PickContext)
    → cursor cursors < 4294967296
    → (handler
        (copies copy (all_or_healthy context.all_endpoints context.healthy_endpoints))
        (cursor cursors)).1
      < 4294967296
    → cursor (legacy_pick copy handler cursors context).1
      ≡ (handler
          (copies copy (all_or_healthy context.all_endpoints context.healthy_endpoints))
          (cursor cursors)).1
unfolding legacy_pick
cursor-legacy_pick copy handler cursors context h lt =
    let after =
      (handler (copies copy (all_or_healthy context.all_endpoints context.healthy_endpoints))
        (cursor cursors)).1 in
    elim (Bool-cases (after == cursor cursors)) [
      | inl t ↦ rw t (ground arith)
      | inr f ↦ rw f (cursor-moved after cursors h lt)
    ]
