-- ===== src/Cluster/Runtime/Invariant.antt =====
-- The events of a runtime, and what holds of its snapshot after any of them.
use dubbo_go_pixiu.Prelude.{
  ℕ, Bool, true, false, ◌≡◌, refl, Option, none, some, List, [], ◌∷◌, sym, ◌∙◌, subst,
}
use dubbo_go_pixiu.Prelude.Text.{Text}
use dubbo_go_pixiu.Prelude.Dict.{from_some-eq}
use dubbo_go_pixiu.Cluster.Endpoint.{Endpoint, ClusterConfig}
use dubbo_go_pixiu.Cluster.Snapshot.{
  EndpointSnapshot, new_endpoint_snapshot, with_endpoint_health, with_endpoint_address_health,
}
use dubbo_go_pixiu.Cluster.Snapshot.Total.{new_endpoint_snapshot-is_some}
use dubbo_go_pixiu.Cluster.Snapshot.Index.{IsIndexed, new_endpoint_snapshot-IsIndexed}
use dubbo_go_pixiu.Cluster.Snapshot.Marks.{
  with_endpoint_health-view, with_endpoint_address_health-view,
}
use dubbo_go_pixiu.Cluster.Runtime.{
  RuntimeCluster, snapshot_of, or_else, refresh_endpoints_from, refresh_endpoints,
  new_cluster_with_endpoint_snapshot, stop_cluster, remove_endpoint, add_endpoint_check, publish,
  update_health, update_endpoint_health, update_health, update_endpoint_address_health,
  snapshot_for_runtime_replacement, sync_config_endpoints,
}

-- What the manager and the health checks do with a runtime. A number is the free place for clones.
pub data Event : Type 0 where
  refreshed : ℕ → Event
  synced : List (Option Endpoint) → Event
  health_at : ℕ → Text → Bool → Event
  health_of : ℕ → Text → Text → Bool → Event
  frozen : Event
  stopped : Event
  endpoint_removed : Endpoint → Event
  endpoint_added : Endpoint → Event

unfoldable pub apply : (Text → Text) → Event → RuntimeCluster → RuntimeCluster
apply digest (refreshed heap) c = refresh_endpoints digest heap c
apply digest (synced es) c = sync_config_endpoints es c
apply digest (health_at heap address healthy) c =
    (update_endpoint_address_health heap address healthy c).0
apply digest (health_of heap id address healthy) c =
    (update_endpoint_health heap id address healthy c).0
apply digest frozen c = (snapshot_for_runtime_replacement c).0
apply digest stopped c = stop_cluster c
apply digest (endpoint_removed e) c = remove_endpoint e c
apply digest (endpoint_added e) c = add_endpoint_check e c

unfoldable pub run : (Text → Text) → List Event → RuntimeCluster → RuntimeCluster
run digest [] c = c
run digest (e ∷ es) c = run digest es (apply digest e c)

-- A runtime has published a snapshot, and it is the index of its endpoints.
abbrev pub IsRunning : RuntimeCluster → Type 0
IsRunning c = (s : EndpointSnapshot) × (c.endpoints ≡ some s) × IsIndexed s

pub snapshot_of-IsIndexed :
    (digest : Text → Text) (heap : ℕ) (config : ClusterConfig) (previous : Option EndpointSnapshot)
    (inherit : Bool)
    → IsIndexed (snapshot_of digest heap config previous inherit)
unfolding snapshot_of
snapshot_of-IsIndexed digest heap config previous inherit =
    let (s, made, x) = new_endpoint_snapshot-IsIndexed digest heap config previous inherit in
    rw
      (from_some-eq (new_endpoint_snapshot digest heap config previous inherit)
        (new_endpoint_snapshot-is_some digest heap config previous inherit) made)
      x

refresh-IsRunning :
    (digest : Text → Text) (heap : ℕ) (previous : Option EndpointSnapshot) (c : RuntimeCluster)
    → IsRunning (refresh_endpoints_from digest heap previous c)
unfolding refresh_endpoints_from
refresh-IsRunning digest heap previous c = (
  snapshot_of digest heap c.config (or_else c.endpoints previous) c.config.has_health_checks,
  refl,
  snapshot_of-IsIndexed digest heap c.config (or_else c.endpoints previous)
      c.config.has_health_checks,
)

pub new_cluster-IsRunning :
    (digest : Text → Text) (heap at : ℕ) (config : ClusterConfig)
    (previous : Option EndpointSnapshot)
    → IsRunning (new_cluster_with_endpoint_snapshot digest heap at config previous)
unfolding new_cluster_with_endpoint_snapshot
new_cluster-IsRunning digest heap at config previous = refresh-IsRunning digest heap previous _

publish-IsRunning :
    (c : RuntimeCluster) (o : Option EndpointSnapshot)
    → IsRunning c
    → ((next : EndpointSnapshot) → o ≡ some next → IsIndexed next)
    → IsRunning (publish o c).0
publish-IsRunning c none r made = r
publish-IsRunning c (some next) r made = (next, refl, made next refl)

update_health-IsRunning :
    (accepting : Bool) (current : Option EndpointSnapshot)
    (attempt : EndpointSnapshot → Option EndpointSnapshot) (c : RuntimeCluster)
    → IsRunning c
    → ((s next : EndpointSnapshot) → current ≡ some s → attempt s ≡ some next → IsIndexed next)
    → IsRunning (update_health accepting current attempt c).0
update_health-IsRunning false current attempt c r made = r
update_health-IsRunning true none attempt c r made = r
update_health-IsRunning true (some s) attempt c r made =
    publish-IsRunning c (attempt s) r (λ next h. made s next refl h)

pub current-IsIndexed :
    (c : RuntimeCluster) (s : EndpointSnapshot) → IsRunning c → c.endpoints ≡ some s → IsIndexed s
current-IsIndexed c s (t, current, x) h =
    let same : some t ≡ some s = sym current ∙ h in let e : t ≡ s = cc in subst IsIndexed e x

-- Whatever happens to a runtime, one event keeps its snapshot the index of its endpoints.
pub apply-IsRunning :
    (digest : Text → Text) (e : Event) (c : RuntimeCluster)
    → IsRunning c
    → IsRunning (apply digest e c)
unfolding apply refresh_endpoints sync_config_endpoints snapshot_for_runtime_replacement
    stop_cluster remove_endpoint add_endpoint_check update_endpoint_health
    update_endpoint_address_health
apply-IsRunning digest (refreshed heap) c r = refresh-IsRunning digest heap c.endpoints c
apply-IsRunning digest (synced es) c r = r
apply-IsRunning digest (health_at heap address healthy) c r =
    update_health-IsRunning c.accept_health_events c.endpoints
      (with_endpoint_address_health address healthy heap) c r
      (λ s next current made.
        (with_endpoint_address_health-view address healthy heap s next
          (current-IsIndexed c s r current) made).0)
apply-IsRunning digest (health_of heap id address healthy) c r =
    update_health-IsRunning c.accept_health_events c.endpoints
      (with_endpoint_health id address healthy heap) c r
      (λ s next current made.
        (with_endpoint_health-view id address healthy heap s next (current-IsIndexed c s r current)
          made).0)
apply-IsRunning digest frozen c r = r
apply-IsRunning digest stopped c r = r
apply-IsRunning digest (endpoint_removed e) c r = r
apply-IsRunning digest (endpoint_added e) c r = r

-- The runtimes that a configuration can lead to.
pub data Reach (digest : Text → Text) : RuntimeCluster → Type 0 where
  created :
      (heap at : ℕ) (config : ClusterConfig) (previous : Option EndpointSnapshot)
      → Reach digest (new_cluster_with_endpoint_snapshot digest heap at config previous)
  step : (e : Event) (c : RuntimeCluster) → Reach digest c → Reach digest (apply digest e c)

-- In every runtime that can be reached, from any configuration and any snapshot to inherit from, by updates
-- of health, refreshes, changes of the endpoints, freezes and stops in any order, there is a snapshot, and
-- it is the index of its endpoints, whose IDs are distinct.
pub Reach-IsRunning : (digest : Text → Text) (c : RuntimeCluster) → Reach digest c → IsRunning c
Reach-IsRunning digest _ (created heap at config previous) =
    new_cluster-IsRunning digest heap at config previous
Reach-IsRunning digest _ (step e c r) = apply-IsRunning digest e c (Reach-IsRunning digest c r)

pub run-IsRunning :
    (digest : Text → Text) (es : List Event) (c : RuntimeCluster)
    → IsRunning c
    → IsRunning (run digest es c)
unfolding run
run-IsRunning digest [] c r = r
run-IsRunning digest (e ∷ es) c r =
    run-IsRunning digest es (apply digest e c) (apply-IsRunning digest e c r)
