-- ===== src/Router/Routing.antt =====
-- What `route` returns, against the routes of its snapshot.
use mathlib.Core.List.{Memᴰ}
use dubbo_go_pixiu.Prelude.{
  Bool, true, ◌≡◌, refl, ◌⊎◌, inl, inr, Option, none, some, List, arith, find?, find?-some, ◌∙◌, ap,
  Bool-cases, Option-cases,
}
use dubbo_go_pixiu.Prelude.Dict.{lookup}
use dubbo_go_pixiu.Prelude.Text.{Text, text_eq, codes}
use dubbo_go_pixiu.Util.StringUtil.{get_trie_key}
use dubbo_go_pixiu.Router.Trie.Node.{Node, ptr, biz_info}
use dubbo_go_pixiu.Router.Trie.Paths.{Token, Matches, route_at}
use dubbo_go_pixiu.Router.SnapshotTries.{OnlyCandidates, AllOnlyCandidates, route-eq-some}
use dubbo_go_pixiu.Router.Trie.Laws.{parts_of, match_with_predicate_sound}
use dubbo_go_pixiu.Router.Trie.Api.{match_with_predicate}
use dubbo_go_pixiu.Router.Config.{RouteAction, Request}
use dubbo_go_pixiu.Router.Snapshot.{
  HeaderRoute, RouteCandidate, BizInfo, candidates, RouteSnapshot, visited, candidates_at,
}
use dubbo_go_pixiu.Router.Coordinator.{
  RouteResult, routed, fits, first_matching_candidate, action_of, serves, switch, match_in_trie,
  match_in_tries, or_result, takes, header_action, route,
}

module _ {Re : Type 0} (match_string : Re → Text → Bool) (s : RouteSnapshot Re)
    (req : Request) where
  -- A trie serves an action: a candidate of a pattern that takes the key, whose headers the request has.
  pub record IsServed (key : Text) (t : Node BizInfo) (act : RouteAction) : Type 0 where
    pub pat : List Token
    pub place : Node BizInfo
    pub identity : Text
    pub candidate : RouteCandidate Re
    pub matches : Matches pat (parts_of key)
    pub stored : route_at pat t ≡ ptr place
    pub info : biz_info place ≡ some (candidates identity)
    pub listed : Memᴰ candidate (visited (candidates_at identity s))
    pub headers_fit : fits match_string (some req) candidate ≡ true
    pub same_action : candidate.action ≡ act

  first_matching_candidate-some :
      (identity : Text) {act : RouteAction}
      → action_of match_string
          (first_matching_candidate match_string (candidates_at identity s) (some req))
        ≡ some (routed act)
      → (c : RouteCandidate Re) × Memᴰ c (visited (candidates_at identity s))
        × (fits match_string (some req) c ≡ true)
        × (c.action ≡ act)
  unfolding first_matching_candidate
  first_matching_candidate-some identity {act} h =
      elim (Option-cases
        (first_matching_candidate match_string (candidates_at identity s) (some req))) [
          | inl e ↦ cc (rw e at h)
          | inr (c, e) ↦
              let (m, ok) =
                find?-some (fits match_string (some req)) (visited (candidates_at identity s)) e in
              let same : some (routed c.action) ≡ some (routed act) = rw e at h in (c, m, ok, cc)
        ]

  match_in_trie-IsServed :
      (key : Text) (t : Node BizInfo) {act : RouteAction}
      → OnlyCandidates t
      → match_in_trie match_string s (some req) (some t) key ≡ some (routed act)
      → IsServed key t act
  unfolding match_in_trie
  match_in_trie-IsServed key t {act} only h =
      elim (Option-cases (match_with_predicate key (some (serves match_string s (some req))) t)) [
        | inl e ↦ cc (rw (e, match_in_trie) at h)
        | inr ((c, params), e) ↦
            let (pat, matches, stored, _, _) =
              match_with_predicate_sound (some (serves match_string s (some req))) key t c params
                e in
            let found : switch match_string s (some req) (biz_info c) ≡ some (routed act) =
              rw (e, match_in_trie) at h in
            elim (Option-cases (biz_info c)) [
              | inl nothing ↦ cc (rw nothing at found)
              | inr (info, some_info) ↦
                  let (identity, same_info) =
                    only pat info (route-eq-some pat t c stored some_info) in
                  let known : biz_info c ≡ some (candidates identity) =
                    some_info ∙ ap some same_info in
                  let (cand, listed, ok, same) =
                    first_matching_candidate-some identity (rw known at found) in
                  record {
                    pat = pat;
                    place = c;
                    identity = identity;
                    candidate = cand;
                    matches = matches;
                    stored = stored;
                    info = known;
                    listed = listed;
                    headers_fit = ok;
                    same_action = same;
                  }
            ]
      ]

  abbrev pub IsTried : Text → Type 0
  IsTried m = (m ≡ req.method) ⊎ (m ≡ codes "*")

  -- Where an action comes from.
  pub data ServedBy (act : RouteAction) : Type 0 where
    by_headers :
        (hr : HeaderRoute Re)
        → Memᴰ hr s.header_only
        → takes match_string req hr ≡ true
        → hr.action ≡ act
        → ServedBy act
    by_trie :
        (m : Text) (t : Node BizInfo)
        → IsTried m
        → lookup m s.method_tries ≡ some t
        → IsServed (get_trie_key req.method req.path) t act
        → ServedBy act

  through_trie :
      (m key : Text) {act : RouteAction}
      → AllOnlyCandidates s
      → match_in_trie match_string s (some req) (lookup m s.method_tries) key ≡ some (routed act)
      → (t : Node BizInfo) × (lookup m s.method_tries ≡ some t) × IsServed key t act
  unfolding match_in_trie
  through_trie m key all h = elim (Option-cases (lookup m s.method_tries)) [
    | inl e ↦ cc (rw e at h)
    | inr (t, e) ↦ (t, e, match_in_trie-IsServed key t (all m t e) (rw e at h))
  ]

  or_result-routed :
      (o : Option RouteResult) (r : RouteResult) {act : RouteAction}
      → or_result match_string s (some req) o r ≡ routed act
      → (o ≡ some (routed act)) ⊎ (r ≡ routed act)
  or_result-routed none r h = inr h
  or_result-routed (some x) r h = inl (ap some h)

  match_in_tries-ServedBy :
      {act : RouteAction}
      → AllOnlyCandidates s
      → match_in_tries match_string s (some req) req.method (get_trie_key req.method req.path)
        ≡ routed act
      → ServedBy act
  unfolding match_in_tries
  match_in_tries-ServedBy {act} all h =
      let key = get_trie_key req.method req.path in
      elim (or_result-routed _ _ h) [
        | inl own ↦
            let (t, e, served) = through_trie req.method key all own in
            by_trie req.method t (inl refl) e served
        | inr rest ↦ elim (Bool-cases (text_eq req.method (codes "*"))) [
          | inl same ↦ cc (rw same at rest)
          | inr differs ↦ elim (or_result-routed _ _ (rw differs at rest)) [
            | inl any_method ↦
                let (t, e, served) = through_trie (codes "*") key all any_method in
                by_trie (codes "*") t (inr refl) e served
            | inr nothing ↦ cc
          ]
        ]
      ]

  -- An action that `route` returns is that of a header route whose methods and headers the request has,
  -- or of a candidate with fitting headers under a pattern that takes the request's key, in the trie of
  -- its method or of `*`, if the routes of the tries all have candidates.
  pub route_sound :
      (act : RouteAction)
      → AllOnlyCandidates s
      → route match_string (some s) req ≡ routed act
      → ServedBy act
  unfolding route
  route_sound act all h = elim (Option-cases (find? (takes match_string req) s.header_only)) [
    | inl e ↦ match_in_tries-ServedBy all (rw (e, route) at h)
    | inr (hr, e) ↦
        let (m, ok) = find?-some (takes match_string req) s.header_only e in
        let r : header_action match_string hr.action ≡ routed act = rw (e, route) at h in
        by_headers hr m ok (ground arith)
  ]
