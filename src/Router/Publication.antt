-- ===== src/Router/Publication.antt =====
-- What the coordinator routes by, after any changes of the routes.
use dubbo_go_pixiu.Prelude.{
  true, false, not, ◌≡◌, refl, Option, List, [], ◌∷◌, ◌++◌, ◌==◌, keep, Bool-cases, inl, inr,
}
use dubbo_go_pixiu.Prelude.Text.{Text, text_eq}
use dubbo_go_pixiu.Router.Config.{Route}
use dubbo_go_pixiu.Router.Snapshot.{to_snapshot, is_empty_list}
use dubbo_go_pixiu.Router.Coordinator.{
  RouterCoordinator, create_router_coordinator, publish_locked, schedule_publish_locked,
  await_and_publish, on_add_router, on_delete_router,
}

module _ {Re : Type 0} (compile : Text → Option Re) where
  -- The calls that change a coordinator; each holds its lock, so they interleave as whole steps.
  pub data Change : RouterCoordinator Re → RouterCoordinator Re → Type 0 where
    add : (r : Route Re) (rm : RouterCoordinator Re) → Change rm (on_add_router compile r rm)
    delete : (r : Route Re) (rm : RouterCoordinator Re) → Change rm (on_delete_router compile r rm)
    fire :
        (rm : RouterCoordinator Re) → rm.pending ≡ true → Change rm (await_and_publish compile rm)

  pub data Changes (rm : RouterCoordinator Re) : RouterCoordinator Re → Type 0 where
    start : Changes rm rm
    step : {t u : RouterCoordinator Re} → Changes rm t → Change t u → Changes rm u

  -- Unless a publication is pending, requests are routed by the snapshot of the current routes.
  abbrev pub IsPublished : RouterCoordinator Re → Type 0
  IsPublished rm = rm.pending ≡ false → rm.main_snapshot ≡ to_snapshot compile rm.next_snapshot

  schedule-IsPublished :
      (rm : RouterCoordinator Re) → IsPublished (schedule_publish_locked compile rm)
  unfolding schedule_publish_locked publish_locked
  schedule-IsPublished rm h = elim (Bool-cases (rm.debounce == 0)) [
    | inl t ↦ rw t refl
    | inr f ↦ cc (rw (f, schedule_publish_locked) at h)
  ]

  Change-IsPublished : {t u : RouterCoordinator Re} → Change t u → IsPublished t → IsPublished u
  unfolding on_add_router on_delete_router await_and_publish publish_locked
  Change-IsPublished (add r rm) p h =
      schedule-IsPublished (record rm { next_snapshot = rm.next_snapshot ++ r ∷ [] }) h
  Change-IsPublished (delete r rm) p h = elim (Bool-cases (is_empty_list rm.next_snapshot)) [
    | inl e ↦ rw e (p (rw (e, on_delete_router) at h))
    | inr f ↦ rw f (
        schedule-IsPublished
          (record rm { next_snapshot = keep (λ rr. not (text_eq rr.id r.id)) rm.next_snapshot })
          (rw (f, on_delete_router) at h))
  ]
  Change-IsPublished (fire rm pending) p h = refl

  -- After any changes of the routes, in any order, a coordinator with no publication pending routes by
  -- the snapshot of its current routes.
  pub Changes-IsPublished :
      (routes : List (Route Re)) {rm : RouterCoordinator Re}
      → Changes (create_router_coordinator compile routes) rm
      → rm.pending ≡ false
      → rm.main_snapshot ≡ to_snapshot compile rm.next_snapshot
  unfolding create_router_coordinator
  Changes-IsPublished routes start h = refl
  Changes-IsPublished routes (step cs c) h = Change-IsPublished c (Changes-IsPublished routes cs) h
