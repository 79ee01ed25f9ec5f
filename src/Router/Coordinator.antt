-- ===== src/Router/Coordinator.antt =====
-- pkg/common/router/router.go: `RouterCoordinator`, which routes a request by the current snapshot and
-- publishes a new one when routes change.
use dubbo_go_pixiu.Prelude.{
  ℕ, Bool, true, false, not, ◌&&◌, Option, none, some, List, [], ◌∷◌, ◌++◌, ◌==◌, find?, keep,
  if◌then◌else◌,
}
use dubbo_go_pixiu.Prelude.Dict.{lookup}
use dubbo_go_pixiu.Prelude.Text.{Text, text_eq, codes}
use dubbo_go_pixiu.Util.StringUtil.{get_trie_key}
use dubbo_go_pixiu.Router.Trie.Node.{Node, biz_info}
use dubbo_go_pixiu.Router.Trie.Match.{Found}
use dubbo_go_pixiu.Router.Trie.Api.{match_with_predicate, trie_match}
use dubbo_go_pixiu.Router.Config.{RouteAction, Request, Route, init_regex, match_headers}
use dubbo_go_pixiu.Router.Snapshot.{
  HeaderRoute, RouteCandidate, RouteCandidates, BizInfo, candidates, action, other, RouteSnapshot,
  visited, candidates_at, method_allowed, to_snapshot, is_empty_list,
}

pub data RouteError : Type 0 where
  empty_configuration nil_action invalid_action no_rules_matched : RouteError

-- `(*RouteAction, error)`.
pub data RouteResult : Type 0 where
  routed : RouteAction → RouteResult
  failed : RouteError → RouteResult

module _ {Re : Type 0} (match_string : Re → Text → Bool) where
  -- The test in `firstMatchingCandidate`; without a request every candidate passes.
  abbrev pub fits : Option Request → RouteCandidate Re → Bool
  fits none c = true
  fits (some req) c = match_headers match_string c.headers req

  -- `firstMatchingCandidate`.
  unfoldable pub first_matching_candidate :
      RouteCandidates Re → Option Request → Option (RouteCandidate Re)
  first_matching_candidate r req = find? (fits req) (visited r)

  abbrev pub is_some : Option (RouteCandidate Re) → Bool
  is_some none = false
  is_some (some _) = true

  abbrev pub action_of : Option (RouteCandidate Re) → Option RouteResult
  action_of none = none
  action_of (some c) = some (routed c.action)

  module _ (s : RouteSnapshot Re) (req : Option Request) where
    abbrev pub passes : Option BizInfo → Bool
    passes (some (candidates identity)) =
        is_some (first_matching_candidate (candidates_at identity s) req)
    passes (some (action _)) = true
    passes (some other) = true
    passes none = true

    -- The predicate of `matchInTrie`.
    abbrev pub serves : Node BizInfo → Bool
    serves n = passes (biz_info n)

    -- The type switch; `none` is (nil, nil).
    abbrev pub switch : Option BizInfo → Option RouteResult
    switch none = none
    switch (some (candidates identity)) =
        action_of (first_matching_candidate (candidates_at identity s) req)
    switch (some (action act)) = some (routed act)
    switch (some other) = some (failed invalid_action)

    abbrev pub switch_found : Found BizInfo → Option RouteResult
    switch_found none = none
    switch_found (some (n, params)) = switch (biz_info n)

    abbrev pub found_in : Option Request → Text → Node BizInfo → Found BizInfo
    found_in none key t = trie_match key t
    found_in (some _) key t = match_with_predicate key (some serves) t

    -- `matchInTrie`.
    unfoldable pub match_in_trie : Option (Node BizInfo) → Text → Option RouteResult
    match_in_trie none key = none
    match_in_trie (some t) key = switch_found (found_in req key t)

    abbrev pub or_result : Option RouteResult → RouteResult → RouteResult
    or_result none result = result
    or_result (some result) _ = result

    -- The trie of the method, and the one of `*` behind it.
    unfoldable pub match_in_tries : Text → Text → RouteResult
    match_in_tries method key = or_result (match_in_trie (lookup method s.method_tries) key) (
        if not (text_eq method (codes "*"))
        then or_result (match_in_trie (lookup (codes "*") s.method_tries) key)
            (failed no_rules_matched)
        else failed no_rules_matched)

  -- `RouteByPathAndName`.
  unfoldable pub route_by_path_and_name : Option (RouteSnapshot Re) → Text → Text → RouteResult
  route_by_path_and_name none path method = failed empty_configuration
  route_by_path_and_name (some s) path method =
      match_in_tries s none method (get_trie_key method path)

  abbrev pub takes : Request → HeaderRoute Re → Bool
  takes req hr = method_allowed hr.methods req.method && match_headers match_string hr.headers req

  abbrev pub header_action : RouteAction → RouteResult
  header_action act = if text_eq act.cluster [] then failed nil_action else routed act

  -- `route`.
  unfoldable pub route : Option (RouteSnapshot Re) → Request → RouteResult
  route none req = failed empty_configuration
  route (some s) req = elim (find? (takes req) s.header_only) [
    | some hr ↦ header_action hr.action
    | none ↦ match_in_tries s (some req) req.method (get_trie_key req.method req.path)
  ]

-- The state that changes: `pending` says that the timer is set.
pub record RouterCoordinator (Re : Type 0) : Type 0 where
  pub main_snapshot : RouteSnapshot Re
  pub next_snapshot : List (Route Re)
  pub pending : Bool
  pub debounce : ℕ

module _ {Re : Type 0} (compile : Text → Option Re) where
  -- `CreateRouterCoordinator`. The routes are shared, so `initRegex` writes them in place.
  unfoldable pub create_router_coordinator : List (Route Re) → RouterCoordinator Re
  create_router_coordinator routes = record {
    main_snapshot = to_snapshot compile (init_regex compile routes);
    next_snapshot = init_regex compile routes;
    pending = false;
    debounce = 50;
  }

  -- `publishLocked`.
  unfoldable pub publish_locked : RouterCoordinator Re → RouterCoordinator Re
  publish_locked rm = record rm {
    main_snapshot = to_snapshot compile (init_regex compile rm.next_snapshot);
    next_snapshot = init_regex compile rm.next_snapshot;
  }

  -- `schedulePublishLocked`.
  unfoldable pub schedule_publish_locked : RouterCoordinator Re → RouterCoordinator Re
  schedule_publish_locked rm =
      if rm.debounce == 0 then publish_locked rm else record rm { pending = true }

  -- `awaitAndPublish`, behind the timer.
  unfoldable pub await_and_publish : RouterCoordinator Re → RouterCoordinator Re
  await_and_publish rm = record (publish_locked rm) { pending = false }

  -- `OnAddRouter`.
  unfoldable pub on_add_router : Route Re → RouterCoordinator Re → RouterCoordinator Re
  on_add_router r rm =
      schedule_publish_locked (record rm { next_snapshot = rm.next_snapshot ++ r ∷ [] })

  -- `OnDeleteRouter`.
  unfoldable pub on_delete_router : Route Re → RouterCoordinator Re → RouterCoordinator Re
  on_delete_router r rm =
      if is_empty_list rm.next_snapshot
      then rm
      else schedule_publish_locked
          (record rm { next_snapshot = keep (λ rr. not (text_eq rr.id r.id)) rm.next_snapshot })
