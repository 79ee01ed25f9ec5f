-- ===== src/Router/Provenance.antt =====
-- Every action and every header test of a snapshot comes from a configured route.
use mathlib.Core.List.{Memᴰ}
use dubbo_go_pixiu.Prelude.{
  Memᴰ-append, Bool, true, false, ◌≡◌, refl, inl, inr, Option, none, some, List, [], ◌∷◌, ◌==◌,
  arith, sym, ◌∙◌, Bool-cases, subst,
}
use dubbo_go_pixiu.Prelude.Dict.{lookup, or_default, lookup-store}
use dubbo_go_pixiu.Prelude.Text.{Text}
use dubbo_go_pixiu.Router.Config.{
  RouteAction, Request, Route, CompiledHeader, compile_headers, match_headers,
}
use dubbo_go_pixiu.Router.Snapshot.{
  HeaderRoute, RouteCandidate, RouteCandidates, RouteSnapshot, no_candidates, add_candidate,
  visited, candidates_at, add_method, add_methods, add_route, add_routes, to_snapshot, methods_of,
  is_header_only, route_key, trie_route_identity,
}
use dubbo_go_pixiu.Router.SnapshotTries.{RoutesArePaths, to_snapshot-OnlyCandidates}
use dubbo_go_pixiu.Router.Coordinator.{routed, route}
use dubbo_go_pixiu.Router.Routing.{by_headers, by_trie, route_sound}

-- `P` holds of the headers and the action that some configured route gives.
module _ {Re : Type 0} (P : List (CompiledHeader Re) → RouteAction → Type 0) where
  record AllFrom (r : RouteCandidates Re) : Type 0 where
    pub first_from : (r.count == 0) ≡ false → P r.first.headers r.first.action
    pub rest_from : (c : RouteCandidate Re) → Memᴰ c r.additional → P c.headers c.action

  no_candidates-AllFrom : AllFrom no_candidates
  no_candidates-AllFrom = record { first_from = λ h. cc; rest_from = λ c m. elim m [ ] }

  add_candidate-AllFrom :
      (c : RouteCandidate Re) (r : RouteCandidates Re)
      → P c.headers c.action
      → AllFrom r
      → AllFrom (add_candidate c r)
  unfolding add_candidate
  add_candidate-AllFrom c r p a = elim (Bool-cases (r.count == 0)) [
    | inl t ↦ rw t (record { first_from = λ h. p; rest_from = a.rest_from })
    | inr f ↦ rw f (record {
      first_from = λ h. a.first_from f;
      rest_from = λ d m. elim (Memᴰ-append r.additional c m) [
        | inl m' ↦ a.rest_from d m'
        | inr e ↦ subst (λ x. P x.headers x.action) (sym e) p
      ];
    })
  ]

  visited-AllFrom :
      (r : RouteCandidates Re) (c : RouteCandidate Re)
      → AllFrom r
      → Memᴰ c (visited r)
      → P c.headers c.action
  unfolding visited
  visited-AllFrom r c a m = elim (Bool-cases (r.count == 0)) [
    | inl t ↦ elim (rw (t, visited) at m) [ ]
    | inr f ↦ in_list (a.first_from f) (rw (f, visited) at m)
  ]
    where
      in_list :
          P r.first.headers r.first.action → Memᴰ c (r.first ∷ r.additional) → P c.headers c.action
      in_list p (Memᴰ.head e) = subst (λ x. P x.headers x.action) (sym e) p
      in_list p (Memᴰ.tail m') = a.rest_from c m'

  record IsFrom (s : RouteSnapshot Re) : Type 0 where
    pub candidates_from :
        (identity : Text) (r : RouteCandidates Re)
        → lookup identity s.route_candidates ≡ some r
        → AllFrom r
    pub headers_from : (hr : HeaderRoute Re) → Memᴰ hr s.header_only → P hr.headers hr.action

  found-AllFrom :
      (o : Option (RouteCandidates Re))
      → ((r : RouteCandidates Re) → o ≡ some r → AllFrom r)
      → AllFrom (or_default no_candidates o)
  found-AllFrom none h = no_candidates-AllFrom
  found-AllFrom (some r) h = h r refl

  add_method-IsFrom :
      (m : Text) (r : Route Re) (headers : List (CompiledHeader Re)) (s : RouteSnapshot Re)
      → P headers r.route
      → IsFrom s
      → IsFrom (add_method m r headers s)
  unfolding add_method
  add_method-IsFrom m r headers s p f = record {
    candidates_from = λ identity found h.
        elim (lookup-store identity (trie_route_identity (route_key m r)) _ s.route_candidates h) [
          | inl same ↦ subst AllFrom (sym same) (
              add_candidate-AllFrom (record { headers = headers; action = r.route })
                (candidates_at (trie_route_identity (route_key m r)) s) p
                (found-AllFrom (lookup (trie_route_identity (route_key m r)) s.route_candidates)
                  (f.candidates_from (trie_route_identity (route_key m r)))))
          | inr before ↦ f.candidates_from identity found before
        ];
    headers_from = f.headers_from;
  }

  add_methods-IsFrom :
      (ms : List Text) (r : Route Re) (headers : List (CompiledHeader Re)) (s : RouteSnapshot Re)
      → P headers r.route
      → IsFrom s
      → IsFrom (add_methods ms r headers s)
  unfolding add_methods
  add_methods-IsFrom [] r headers s p f = f
  add_methods-IsFrom (m ∷ ms) r headers s p f =
      add_methods-IsFrom ms r headers (add_method m r headers s) p
        (add_method-IsFrom m r headers s p f)

module _ {Re : Type 0} (compile : Text → Option Re) (match_string : Re → Text → Bool) where
  -- A route of the configuration whose headers the request has.
  pub record IsConfigured (rs : List (Route Re)) (headers : List (CompiledHeader Re))
      (act : RouteAction) : Type 0 where
    pub origin : Route Re
    pub listed : Memᴰ origin rs
    pub compiled : compile_headers compile origin.rule.headers ≡ headers
    pub same_action : origin.route ≡ act

  add_route-IsFrom :
      (rs : List (Route Re)) (r : Route Re) (s : RouteSnapshot Re)
      → Memᴰ r rs
      → IsFrom (IsConfigured rs) s
      → IsFrom (IsConfigured rs) (add_route compile r s)
  unfolding add_route
  add_route-IsFrom rs r s m f =
      let p : IsConfigured rs (compile_headers compile r.rule.headers) r.route = record {
        origin = r;
        listed = m;
        compiled = refl;
        same_action = refl;
      } in
      elim (Bool-cases (is_header_only r)) [
        | inl t ↦ rw t (record {
          candidates_from = f.candidates_from;
          headers_from = λ hr m'. elim (Memᴰ-append s.header_only _ m') [
            | inl old ↦ f.headers_from hr old
            | inr e ↦ subst (λ x. IsConfigured rs x.headers x.action) (sym e) p
          ];
        })
        | inr g ↦ rw g (
            add_methods-IsFrom (IsConfigured rs) (methods_of r.rule.methods) r
              (compile_headers compile r.rule.headers) s p f)
      ]

  add_routes-IsFrom :
      (rs todo : List (Route Re)) (s : RouteSnapshot Re)
      → ((r : Route Re) → Memᴰ r todo → Memᴰ r rs)
      → IsFrom (IsConfigured rs) s
      → IsFrom (IsConfigured rs) (add_routes compile todo s)
  unfolding add_routes
  add_routes-IsFrom rs [] s sub f = f
  add_routes-IsFrom rs (r ∷ todo) s sub f =
      add_routes-IsFrom rs todo (add_route compile r s) (λ x m. sub x (Memᴰ.tail m))
        (add_route-IsFrom rs r s (sub r (Memᴰ.head refl)) f)

  to_snapshot-IsFrom : (rs : List (Route Re)) → IsFrom (IsConfigured rs) (to_snapshot compile rs)
  unfolding to_snapshot
  to_snapshot-IsFrom rs =
      add_routes-IsFrom rs rs
        (record { method_tries = []; header_only = []; route_candidates = [] }) (λ r m. m)
        (record { candidates_from = λ identity r h. cc; headers_from = λ hr m. elim m [ ] })

  -- An action that a snapshot of configured routes returns for a request is the action of one of these
  -- routes whose compiled headers the request has, if `**` stands last in the routes' keys.
  pub route_configured :
      (rs : List (Route Re)) (req : Request) (act : RouteAction)
      → RoutesArePaths rs
      → route match_string (some (to_snapshot compile rs)) req ≡ routed act
      → (r : Route Re) × Memᴰ r rs
        × (r.route ≡ act)
        × (match_headers match_string (compile_headers compile r.rule.headers) req ≡ true)
  route_configured rs req act h result =
      elim (route_sound match_string (to_snapshot compile rs) req act
        (to_snapshot-OnlyCandidates compile rs h) result) [
          | by_headers hr m ok same ↦
              let p = (to_snapshot-IsFrom rs).headers_from hr m in
              let fit : match_headers match_string hr.headers req ≡ true = ground arith in
              (p.origin, p.listed, p.same_action ∙ same, rw p.compiled fit)
          | by_trie m t tried found served ↦
              let p =
                visited-AllFrom (IsConfigured rs)
                  (candidates_at served.identity (to_snapshot compile rs)) served.candidate
                  (found-AllFrom (IsConfigured rs)
                    (lookup served.identity (to_snapshot compile rs).route_candidates)
                    ((to_snapshot-IsFrom rs).candidates_from served.identity))
                  served.listed in
              (
                p.origin,
                p.listed,
                p.same_action ∙ served.same_action,
                rw p.compiled served.headers_fit,
              )
        ]
