-- ===== src/Router/Tests.antt =====
-- A small configuration, routed, and the theorems on routing at it.
use mathlib.Core.List.{Memᴰ}
use dubbo_go_pixiu.Prelude.{
  Bool, true, false, ◌≡◌, refl, Option, none, some, List, [], ◌∷◌, if◌then◌else◌,
}
use dubbo_go_pixiu.Prelude.Int.{pos}
use dubbo_go_pixiu.Prelude.Text.{Text, text_eq, codes}
use dubbo_go_pixiu.Util.StringUtil.{
  split, before, is_path_variable_or_wildcard, is_match_all, variable_name, get_trie_key,
  get_trie_key_with_prefix,
}
use dubbo_go_pixiu.Router.Trie.Put.{put, internal_put}
use dubbo_go_pixiu.Router.Trie.Match.{match_parts}
use dubbo_go_pixiu.Router.Trie.Api.{trie_match, trie_put, match_with_predicate}
use dubbo_go_pixiu.Router.Trie.Node.{empty, is_empty}
use dubbo_go_pixiu.Router.Trie.Laws.{parts_of}
use dubbo_go_pixiu.Router.Trie.Paths.{token, Token, Matches, route as trie_route}
use dubbo_go_pixiu.Router.Configuration.{
  route_by_path_and_method, fill_trie_from_routes, fill_methods, IsActionOf,
  route_by_path_and_method_sound,
}
use dubbo_go_pixiu.Router.Config.{
  RouteAction, Request, HeaderMatcher, Route, compile_headers, match_headers,
}
use dubbo_go_pixiu.Router.Snapshot.{
  to_snapshot, add_routes, add_route, add_methods, add_method, add_candidate, visited,
  method_allowed, trie_route_identity,
}
use dubbo_go_pixiu.Router.Coordinator.{
  RouterCoordinator, routed, failed, no_rules_matched, route, first_matching_candidate,
  match_in_trie, match_in_tries, create_router_coordinator, on_add_router, await_and_publish,
  schedule_publish_locked,
}
use dubbo_go_pixiu.Router.SnapshotTries.{RoutesArePaths, to_snapshot-OnlyCandidates}
use dubbo_go_pixiu.Router.Routing.{ServedBy, route_sound}
use dubbo_go_pixiu.Router.Provenance.{route_configured}
use dubbo_go_pixiu.Router.Publication.{start, step, add, fire, Changes-IsPublished}

-- A regular expression of the tests is the text that it matches; `(` does not compile.
abbrev compile : Text → Option Text
compile p = if text_eq p (codes "(") then none else some p

abbrev on_cluster : Text → RouteAction
on_cluster name = record { cluster = name; cluster_not_found_response_code = pos 404 }

abbrev header : Bool → Text → HeaderMatcher Text
header regex value = record {
  name = codes "X";
  values = value ∷ [];
  regex = regex;
  value_re = none;
}

abbrev route_at_path : Text → List (HeaderMatcher Text) → Text → Route Text
route_at_path path headers cluster = record {
  id = cluster;
  rule = record { prefix = []; path = path; methods = codes "GET" ∷ []; headers = headers };
  route = on_cluster cluster;
}

-- Two routes share a node; the first wants a header. The last goes by its header alone.
abbrev routes : List (Route Text)
routes =
    route_at_path (codes "/a/:id") (header false (codes "1") ∷ []) (codes "one")
    ∷ route_at_path (codes "/a/*") [] (codes "two")
    ∷ route_at_path [] (header true (codes "9") ∷ []) (codes "nine")
    ∷ []

abbrev request : Text → Text → Request
request path value = record { method = codes "GET"; path = path; header = λ name. value }

program : Unit {0}
unfolding to_snapshot add_routes add_route add_methods add_method add_candidate visited
    method_allowed trie_route_identity route first_matching_candidate match_in_trie match_in_tries
    match_headers compile_headers trie_put put is_path_variable_or_wildcard is_match_all
    internal_put match_with_predicate match_parts split before token variable_name get_trie_key
    get_trie_key_with_prefix text_eq
program = tt

routed_tests :
    (route text_eq (some (to_snapshot compile routes)) (request (codes "/a/7") (codes "1"))
      ≡ routed (on_cluster (codes "one")))
    × (route text_eq (some (to_snapshot compile routes)) (request (codes "/a/7") (codes "2"))
        ≡ routed (on_cluster (codes "two")))
    × (route text_eq (some (to_snapshot compile routes)) (request (codes "/b") (codes "9"))
        ≡ routed (on_cluster (codes "nine")))
    × (route text_eq (some (to_snapshot compile routes)) (request (codes "/b") (codes "1"))
        ≡ failed no_rules_matched)
unfolding program
routed_tests = (refl, refl, refl, refl)

routes-RoutesArePaths : RoutesArePaths routes
unfolding program
routes-RoutesArePaths = ((tt, tt), ((tt, tt), ((tt, tt), tt)))

route_sound_example :
    ServedBy text_eq
      (to_snapshot compile routes)
      (request (codes "/a/7") (codes "2"))
      (on_cluster (codes "two"))
unfolding program
route_sound_example =
    route_sound text_eq (to_snapshot compile routes) (request (codes "/a/7") (codes "2"))
      (on_cluster (codes "two")) (to_snapshot-OnlyCandidates compile routes routes-RoutesArePaths)
      refl

route_configured_example :
    (r : Route Text) × Memᴰ r routes
    × (r.route ≡ on_cluster (codes "two"))
    × (match_headers text_eq
          (compile_headers compile r.rule.headers)
          (request (codes "/a/7") (codes "2"))
        ≡ true)
unfolding program
route_configured_example =
    route_configured compile text_eq routes (request (codes "/a/7") (codes "2"))
      (on_cluster (codes "two")) routes-RoutesArePaths refl

abbrev created : RouterCoordinator Text
created = create_router_coordinator compile []

abbrev added : RouterCoordinator Text
added = on_add_router compile (route_at_path (codes "/a/*") [] (codes "two")) created

Changes-IsPublished_example :
    (await_and_publish compile added).main_snapshot
    ≡ to_snapshot compile (await_and_publish compile added).next_snapshot
unfolding await_and_publish on_add_router create_router_coordinator schedule_publish_locked
Changes-IsPublished_example =
    Changes-IsPublished compile []
      (step (step start (add (route_at_path (codes "/a/*") [] (codes "two")) created))
        (fire added refl))
      refl

plain_routes : RoutesArePaths (route_at_path (codes "/a/*") [] (codes "two") ∷ [])
unfolding program
plain_routes = ((tt, tt), tt)

route_by_path_and_method_sound_example :
    (pat : List Token) × Matches pat (parts_of (get_trie_key (codes "GET") (codes "/a/7")))
    × (trie_route pat
          (fill_trie_from_routes (route_at_path (codes "/a/*") [] (codes "two") ∷ []) empty)
        ≡ some (on_cluster (codes "two")))
    × IsActionOf (route_at_path (codes "/a/*") [] (codes "two") ∷ []) (on_cluster (codes "two"))
unfolding program route_by_path_and_method fill_trie_from_routes fill_methods trie_match is_empty
route_by_path_and_method_sound_example =
    route_by_path_and_method_sound (route_at_path (codes "/a/*") [] (codes "two") ∷ [])
      (codes "/a/7") (codes "GET") (on_cluster (codes "two")) plain_routes refl
