-- ===== src/Router/Snapshot.antt =====
-- pkg/model/router_snapshot.go: the snapshot of the routes that requests are routed by.
-- A `*RouteCandidates` is shared by the trie nodes that hold it and grows after it was put there, so a
-- node holds the identity of the route, and the snapshot the candidates of each identity.
use dubbo_go_pixiu.Prelude.{
  ℕ, ◌+◌, Bool, true, false, not, ◌&&◌, ◌||◌, Option, some, List, [], ◌∷◌, ◌++◌, ◌==◌, any, map,
  if◌then◌else◌,
}
use dubbo_go_pixiu.Prelude.Int.{pos}
use dubbo_go_pixiu.Prelude.Text.{Text, text_eq, codes, split_on}
use dubbo_go_pixiu.Prelude.Dict.{lookup, store, or_default}
use dubbo_go_pixiu.Util.StringUtil.{slash, is_path_variable_or_wildcard, get_trie_key_with_prefix}
use dubbo_go_pixiu.Router.Trie.Node.{Node, empty}
use dubbo_go_pixiu.Router.Trie.Api.{trie_put}
use dubbo_go_pixiu.Router.Config.{RouteAction, Route, CompiledHeader, compile_headers}

pub record HeaderRoute (Re : Type 0) : Type 0 where
  pub methods : List Text
  pub headers : List (CompiledHeader Re)
  pub action : RouteAction

pub record RouteCandidate (Re : Type 0) : Type 0 where
  pub headers : List (CompiledHeader Re)
  pub action : RouteAction

pub record RouteCandidates (Re : Type 0) : Type 0 where
  pub first : RouteCandidate Re
  pub additional : List (RouteCandidate Re)
  pub count : ℕ

-- The `bizInfo` of a node: the cases of the type switch in `matchInTrie`.
pub data BizInfo : Type 0 where
  candidates : Text → BizInfo
  action : RouteAction → BizInfo
  other : BizInfo

abbrev pub const_methods : List Text
const_methods =
    codes "GET"
    ∷ codes "POST"
    ∷ codes "PUT"
    ∷ codes "DELETE"
    ∷ codes "PATCH"
    ∷ codes "OPTIONS"
    ∷ codes "HEAD"
    ∷ []

-- `MethodAllowed`.
abbrev pub allows_any : List Text → Text → Bool
allows_any [] m = false
allows_any (x ∷ xs) m = text_eq x (codes "*") || text_eq x m || allows_any xs m

unfoldable pub method_allowed : List Text → Text → Bool
method_allowed [] m = true
method_allowed (x ∷ xs) m = allows_any (x ∷ xs) m

abbrev pub join_slash : List Text → Text
join_slash [] = []
join_slash (p ∷ []) = p
join_slash (p ∷ q ∷ parts) = p ++ slash ∷ join_slash (q ∷ parts)

abbrev pub star_variables : List Text → List Text
star_variables = map (λ p. if is_path_variable_or_wildcard p then codes "*" else p)

abbrev pub identity_of : Text → List Text → Text
identity_of key [] = key
identity_of key (p ∷ parts) =
    if any is_path_variable_or_wildcard parts then join_slash (p ∷ star_variables parts) else key

-- `trieRouteIdentity`: the first part is the method.
unfoldable pub trie_route_identity : Text → Text
trie_route_identity key = identity_of key (split_on slash key)

module _ {Re : Type 0} where
  abbrev pub no_candidates : RouteCandidates Re
  no_candidates = record {
    first = record {
      headers = [];
      action = record { cluster = []; cluster_not_found_response_code = pos 0 };
    };
    additional = [];
    count = 0;
  }

  -- `RouteCandidates.Add`.
  unfoldable pub add_candidate : RouteCandidate Re → RouteCandidates Re → RouteCandidates Re
  add_candidate c r =
      if r.count == 0
      then record r { first = c; count = 1 }
      else record r { additional = r.additional ++ c ∷ []; count = r.count + 1 }

  -- What `ForEach` visits, in order.
  unfoldable pub visited : RouteCandidates Re → List (RouteCandidate Re)
  visited r = if r.count == 0 then [] else r.first ∷ r.additional

pub record RouteSnapshot (Re : Type 0) : Type 0 where
  pub method_tries : List (Text × Node BizInfo)
  pub header_only : List (HeaderRoute Re)
  pub route_candidates : List (Text × RouteCandidates Re)

abbrev pub is_empty_list {ℓ} : {A : Type ℓ} → List A → Bool
is_empty_list [] = true
is_empty_list (_ ∷ _) = false

abbrev pub methods_of : List Text → List Text
methods_of [] = const_methods
methods_of (m ∷ ms) = m ∷ ms

module _ {Re : Type 0} where
  abbrev pub is_header_only : Route Re → Bool
  is_header_only r =
      text_eq r.rule.path [] && text_eq r.rule.prefix [] && not (is_empty_list r.rule.headers)

  -- The candidates of an identity, those of a new list if it has none.
  abbrev pub candidates_at : Text → RouteSnapshot Re → RouteCandidates Re
  candidates_at identity s = or_default no_candidates (lookup identity s.route_candidates)

  -- The key of a route under a method.
  abbrev pub route_key : Text → Route Re → Text
  route_key m r =
      get_trie_key_with_prefix m r.rule.path r.rule.prefix (not (text_eq r.rule.prefix []))

  -- The body of the loop over the methods of a route.
  unfoldable pub add_method :
      Text → Route Re → List (CompiledHeader Re) → RouteSnapshot Re → RouteSnapshot Re
  add_method m r headers s =
      let key = route_key m r in
      let identity = trie_route_identity key in
      record s {
        method_tries =
            store m
              (trie_put key (some (candidates identity))
                (or_default empty (lookup m s.method_tries))).0
              s.method_tries;
        route_candidates =
            store identity
              (add_candidate (record { headers = headers; action = r.route })
                (candidates_at identity s))
              s.route_candidates;
      }

  unfoldable pub add_methods :
      List Text → Route Re → List (CompiledHeader Re) → RouteSnapshot Re → RouteSnapshot Re
  add_methods [] r headers s = s
  add_methods (m ∷ ms) r headers s = add_methods ms r headers (add_method m r headers s)

module _ {Re : Type 0} (compile : Text → Option Re) where
  -- The body of the loop over the routes.
  unfoldable pub add_route : Route Re → RouteSnapshot Re → RouteSnapshot Re
  add_route r s =
      let headers = compile_headers compile r.rule.headers in
      if is_header_only r
      then record s {
        header_only =
            s.header_only
            ++ record { methods = r.rule.methods; headers = headers; action = r.route } ∷ [];
      }
      else add_methods (methods_of r.rule.methods) r headers s

  unfoldable pub add_routes : List (Route Re) → RouteSnapshot Re → RouteSnapshot Re
  add_routes [] s = s
  add_routes (r ∷ rs) s = add_routes rs (add_route r s)

  -- `ToSnapshot`.
  unfoldable pub to_snapshot : List (Route Re) → RouteSnapshot Re
  to_snapshot routes =
      add_routes routes (record { method_tries = []; header_only = []; route_candidates = [] })
