-- ===== src/Router/Configuration.antt =====
-- `RouteConfiguration` of pkg/model/router.go, which routes by one trie that holds the actions themselves,
-- and `fillTrieFromRoutes` of pkg/common/router/router.go, which fills it.
use mathlib.Core.List.{Memᴰ}
use dubbo_go_pixiu.Prelude.{
  Bool, true, false, not, ◌&&◌, ◌≡◌, refl, Option, none, some, List, [], ◌∷◌, any, if◌then◌else◌,
  Bool-cases, Option-cases, inl, inr, ◌∙◌, ap,
}
use dubbo_go_pixiu.Prelude.Text.{Text, text_eq}
use dubbo_go_pixiu.Util.StringUtil.{get_trie_key}
use dubbo_go_pixiu.Router.Trie.Node.{Node, biz_info, empty, is_empty}
use dubbo_go_pixiu.Router.Trie.Api.{trie_put, trie_match, match_with_predicate}
use dubbo_go_pixiu.Router.Trie.Paths.{Token, Matches, route}
use dubbo_go_pixiu.Router.Trie.Laws.{parts_of, match_with_predicate_sound}
use dubbo_go_pixiu.Router.Config.{RouteAction, Request, HeaderMatcher, RouterMatch, Route}
use dubbo_go_pixiu.Router.Snapshot.{route_key, methods_of, is_empty_list}
use dubbo_go_pixiu.Router.SnapshotTries.{RoutesArePaths, KeysArePaths, trie_put-all, route-empty}
use dubbo_go_pixiu.Router.Coordinator.{
  RouteResult, routed, failed, empty_configuration, no_rules_matched, nil_action,
}

abbrev pub action_or_error : Option RouteAction → RouteResult
action_or_error none = failed nil_action
action_or_error (some act) = routed act

-- `RouteByPathAndMethod`.
unfoldable pub route_by_path_and_method : Node RouteAction → Text → Text → RouteResult
route_by_path_and_method trie path method =
    if is_empty trie
    then failed empty_configuration
    else elim (trie_match (get_trie_key method path) trie) [
      | none ↦ failed no_rules_matched
      | some (c, params) ↦ action_or_error (biz_info c)
    ]

-- `RouteConfiguration.Route`.
unfoldable pub route_request : Node RouteAction → Request → RouteResult
route_request trie req = route_by_path_and_method trie req.path req.method

module _ {Re : Type 0} (match_string : Re → Text → Bool) where
  abbrev pub values_match : Bool → Option Re → List Text → Text → Bool
  values_match true (some re) values dst = match_string re dst
  values_match true none values dst = any (λ src. text_eq src dst) values
  values_match false _ values dst = any (λ src. text_eq src dst) values

  -- `MatchValues`.
  unfoldable pub match_values : HeaderMatcher Re → Text → Bool
  match_values hm dst = values_match hm.regex hm.value_re hm.values dst

  abbrev pub has_match : Request → HeaderMatcher Re → Bool
  has_match req h = not (text_eq (req.header h.name) []) && match_values h (req.header h.name)

  -- `MatchHeader`.
  unfoldable pub match_header : RouterMatch Re → Request → Bool
  match_header rm req =
      if not (is_empty_list rm.methods) && not (any (λ m. text_eq m req.method) rm.methods)
      then false
      else any (has_match req) rm.headers

module _ {Re : Type 0} where
  -- The loops of `fillTrieFromRoutes`.
  unfoldable pub fill_methods : List Text → Route Re → Node RouteAction → Node RouteAction
  fill_methods [] r trie = trie
  fill_methods (m ∷ ms) r trie = fill_methods ms r (trie_put (route_key m r) (some r.route) trie).0

  unfoldable pub fill_trie_from_routes : List (Route Re) → Node RouteAction → Node RouteAction
  fill_trie_from_routes [] trie = trie
  fill_trie_from_routes (r ∷ rs) trie =
      fill_trie_from_routes rs (fill_methods (methods_of r.rule.methods) r trie)

  abbrev pub IsActionOf : List (Route Re) → RouteAction → Type 0
  IsActionOf rs act = (r : Route Re) × Memᴰ r rs × (r.route ≡ act)

  -- Every action of a trie is that of a route.
  abbrev pub HasActionsOf : List (Route Re) → Node RouteAction → Type 0
  HasActionsOf rs t =
      (q : List Token) (act : RouteAction) → route q t ≡ some act → IsActionOf rs act

  fill_methods-HasActionsOf :
      (rs : List (Route Re)) (ms : List Text) (r : Route Re) (t : Node RouteAction)
      → KeysArePaths ms r
      → Memᴰ r rs
      → HasActionsOf rs t
      → HasActionsOf rs (fill_methods ms r t)
  unfolding fill_methods
  fill_methods-HasActionsOf rs [] r t h m only = only
  fill_methods-HasActionsOf rs (k ∷ ks) r t (h, hs) m only =
      fill_methods-HasActionsOf rs ks r (trie_put (route_key k r) (some r.route) t).0 hs m
        (trie_put-all (IsActionOf rs) (route_key k r) r.route t h (r, m, refl) only)

  fill_trie_from_routes-HasActionsOf :
      (rs todo : List (Route Re)) (t : Node RouteAction)
      → RoutesArePaths todo
      → ((r : Route Re) → Memᴰ r todo → Memᴰ r rs)
      → HasActionsOf rs t
      → HasActionsOf rs (fill_trie_from_routes todo t)
  unfolding fill_trie_from_routes
  fill_trie_from_routes-HasActionsOf rs [] t h sub only = only
  fill_trie_from_routes-HasActionsOf rs (r ∷ todo) t (h, hs) sub only =
      fill_trie_from_routes-HasActionsOf rs todo (fill_methods (methods_of r.rule.methods) r t) hs
        (λ x m. sub x (Memᴰ.tail m))
        (fill_methods-HasActionsOf rs (methods_of r.rule.methods) r t h (sub r (Memᴰ.head refl))
          only)

  -- An action that a filled configuration returns is that of one of its routes, and stands under a pattern
  -- that takes the key of the path and the method, if `**` stands last in the routes' keys.
  pub route_by_path_and_method_sound :
      (rs : List (Route Re)) (path method : Text) (act : RouteAction)
      → RoutesArePaths rs
      → route_by_path_and_method (fill_trie_from_routes rs empty) path method ≡ routed act
      → (pat : List Token) × Matches pat (parts_of (get_trie_key method path))
        × (route pat (fill_trie_from_routes rs empty) ≡ some act)
        × IsActionOf rs act
  unfolding route_by_path_and_method trie_match route
  route_by_path_and_method_sound rs path method act h result =
      let trie = fill_trie_from_routes rs empty in
      elim (Bool-cases (is_empty trie)) [
        | inl t ↦ cc (rw (t, route_by_path_and_method) at result)
        | inr f ↦ elim (Option-cases (match_with_predicate (get_trie_key method path) none trie)) [
          | inl e ↦ cc (rw (f, e, route_by_path_and_method) at result)
          | inr ((c, params), e) ↦
              let (pat, matches, stored, _, _) =
                match_with_predicate_sound none (get_trie_key method path) trie c params e in
              elim (Option-cases (biz_info c)) [
                | inl nothing ↦ cc (rw (f, e, nothing, route_by_path_and_method) at result)
                | inr (act', known) ↦
                    let same_result : routed act' ≡ routed act =
                      rw (f, e, known, route_by_path_and_method) at result in
                    let same : act' ≡ act = cc in
                    let at : route pat trie ≡ some act = rw stored (known ∙ ap some same) in
                    (
                      pat,
                      matches,
                      at,
                      fill_trie_from_routes-HasActionsOf rs rs empty h (λ r m. m)
                          (λ q b r. cc (route-empty {B = RouteAction} q)) pat act at,
                    )
              ]
        ]
      ]
