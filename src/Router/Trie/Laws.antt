-- ===== src/Router/Trie/Laws.antt =====
-- The methods of `Trie` against the map of routes that the trie stands for.
use dubbo_go_pixiu.Prelude.{
  true, false, ◌≡◌, refl, ◌≢◌, ◌⊎◌, inl, inr, none, some, List, [], ◌∷◌, ap, sym, ◌∙◌, arith,
  reverse, map, Option-cases, reverse-reverse,
}
use dubbo_go_pixiu.Prelude.Text.{Text, split_on-ne-nil, trim_left}
use dubbo_go_pixiu.Router.Trie.Node.{Node, nil, ptr, end_of_path, Slot-cases}
use dubbo_go_pixiu.Router.Trie.Put.{internal_put}
use dubbo_go_pixiu.Router.Trie.Match.{
  Predicate, Found, accepts, match_parts, match_end, match_remaining, match_literal_end,
  match_literal_child, or_else, accept_end,
}
use dubbo_go_pixiu.Router.Trie.Get.{Got, error, got, get}
use dubbo_go_pixiu.Router.Trie.Api.{
  done, trie_put, match_with_predicate, trie_match, trie_remove, trie_get,
}
use dubbo_go_pixiu.Router.Trie.Paths.{
  Token, lit, tokens, IsPath, EndsInAll, Matches, captured, route_at, route, through_literal,
  end_of_route, route_at-some,
}
use dubbo_go_pixiu.Router.Trie.PutRoutes.{internal_put-keep}
use dubbo_go_pixiu.Router.Trie.PutStores.{internal_put-store}
use dubbo_go_pixiu.Router.Trie.MatchSound.{match_parts-IsServed}
use dubbo_go_pixiu.Router.Trie.MatchComplete.{match_parts-Refused}
use dubbo_go_pixiu.Router.Trie.GetRoutes.{got_node, get-route_at}
use dubbo_go_pixiu.Router.Trie.RemoveRoutes.{unmark, unmark-keep, unmark-gone, unmark-all_kept}
use dubbo_go_pixiu.Util.StringUtil.{split, before, slash}

-- The tokens of a path, and the segments of a request.
abbrev pub path_of : Text → List Token
path_of path = tokens (split path)

abbrev pub parts_of : Text → List Text
parts_of request = split (before b'?' request)

split-ne-nil : (path : Text) → (head : Text) × (rest : List Text) × (split path ≡ head ∷ rest)
unfolding split
split-ne-nil path = split_on-ne-nil slash (trim_left slash path)

pub split-some : (path : Text) → split path ≢ []
split-some path h = let (head, rest, e) = split-ne-nil path in cc

module _ {B : Type 0} where
  trie_put-route :
      (path : Text) (b : B) (root : Node B)
      → IsPath (path_of path)
      → ((trie_put path (some b) root).1 ≡ done true
          → route (path_of path) (trie_put path (some b) root).0 ≡ some b)
        × ((trie_put path (some b) root).1 ≡ done false
            → (q : List Token) → route q (trie_put path (some b) root).0 ≡ route q root)
        × ((q : List Token)
            → q ≢ path_of path
            → route q (trie_put path (some b) root).0 ≡ route q root)
  unfolding trie_put
  trie_put-route path b root h = (
    stored,
    (λ failed q. internal_put-keep (split path) b root q h (λ _. cc failed)),
    (λ q other. internal_put-keep (split path) b root q h (λ same. absurd (other same))),
  )
    where
      stored :
          done (internal_put (split path) b root).1 ≡ done true
          → route (path_of path) (internal_put (split path) b root).0 ≡ some b
      stored ok =
          let (head, rest, e) = split-ne-nil path in
          let ok' : (internal_put (split path) b root).1 ≡ true = cc ok in
          rw e (internal_put-store head rest b root (rw e at h) (rw e at ok'))

  -- If Put of a path whose `**`, if any, stands last succeeds, its value is the route of its path.
  pub trie_put-stored :
      (path : Text) (b : B) (root : Node B)
      → IsPath (path_of path)
      → (trie_put path (some b) root).1 ≡ done true
      → route (path_of path) (trie_put path (some b) root).0 ≡ some b
  trie_put-stored path b root h ok = (trie_put-route path b root h).0 ok

  -- If Put of a path whose `**`, if any, stands last reports a conflict, no route has changed.
  pub trie_put-refused :
      (path : Text) (b : B) (root : Node B) (q : List Token)
      → IsPath (path_of path)
      → (trie_put path (some b) root).1 ≡ done false
      → route q (trie_put path (some b) root).0 ≡ route q root
  trie_put-refused path b root q h failed = (trie_put-route path b root h).1 failed q

  -- Put of a path whose `**`, if any, stands last changes the route of no other path, whether it
  -- succeeds or not.
  pub trie_put-other :
      (path : Text) (b : B) (root : Node B) (q : List Token)
      → IsPath (path_of path)
      → q ≢ path_of path
      → route q (trie_put path (some b) root).0 ≡ route q root
  trie_put-other path b root q h other = (trie_put-route path b root h).2 q other

  found-injective :
      (d c : Node B) (x y : List Text)
      → ◌≡◌ {A = Found B} (some (d, x)) (some (c, y))
      → (d ≡ c) × (x ≡ y)
  found-injective d c x y h = (ground arith, ground arith)

  module _ (predicate : Predicate B) where
    -- A match returns a node stored under a pattern that takes the segments of the request, one that
    -- the predicate accepts, and the segments that the variables of the pattern take, in order.
    pub match_with_predicate_sound :
        (request : Text) (root c : Node B) (params : List Text)
        → match_with_predicate request predicate root ≡ some (c, params)
        → (pat : List Token) × Matches pat (parts_of request)
          × (route_at pat root ≡ ptr c)
          × (accepts predicate c ≡ true)
          × (params ≡ captured pat (parts_of request))
    unfolding match_with_predicate
    match_with_predicate_sound request root c params h =
        elim (Option-cases (match_parts (parts_of request) predicate root)) [
          | inl e ↦ cc (rw (e, match_with_predicate) at h)
          | inr ((d, ps), e) ↦
              let s = match_parts-IsServed predicate (parts_of request) root d ps e in
              let h' : some (d, reverse ps) ≡ some (c, params) =
                rw (e, match_with_predicate) at h in
              let (same, bound) = found-injective d c (reverse ps) params h' in
              (
                s.pat,
                s.matches,
                s.stored ∙ ap ptr same,
                rw (← same) s.accepted,
                sym bound ∙ ap reverse s.bound ∙ reverse-reverse _,
              )
        ]

    -- A match fails only if the predicate refuses every node stored under a pattern that takes the
    -- segments.
    pub match_with_predicate_complete :
        (request : Text) (root : Node B) (pat : List Token) (c : Node B)
        → match_with_predicate request predicate root ≡ none
        → Matches pat (parts_of request)
        → route_at pat root ≡ ptr c
        → accepts predicate c ≡ false
    unfolding match_with_predicate
    match_with_predicate_complete request root pat c h m at =
        elim (Option-cases (match_parts (parts_of request) predicate root)) [
          | inl e ↦
              match_parts-Refused predicate (parts_of request) root pat c e
                (split-some (before b'?' request)) m at
          | inr ((d, ps), e) ↦ cc (rw (e, match_with_predicate) at h)
        ]

    accept_end_taken :
        (d : Node B) (ps : List Text)
        → end_of_path d ≡ true
        → accepts predicate d ≡ true
        → accept_end predicate (ptr d) ps ≡ some (d, ps)
    accept_end_taken d ps ends ok = rw (ends, ok)

    or_else_first : (x y : Found B) {r : Node B × List Text} → x ≡ some r → or_else x y ≡ some r
    or_else_first none y h = cc
    or_else_first (some _) y h = h

    match_literals :
        (parts : List Text) (root c : Node B)
        → parts ≢ []
        → route_at (map lit parts) root ≡ ptr c
        → accepts predicate c ≡ true
        → match_parts parts predicate root ≡ some (c, [])
    unfolding match_parts match_end match_remaining match_literal_end match_literal_child
    match_literals [] root c some_part at ok = absurd (some_part refl)
    match_literals (key ∷ []) root c some_part at ok =
        let (d, e, at') = through_literal key [] root c at in
        let (ends, same) = end_of_route d c at' in
        or_else_first (match_literal_end key predicate root) _
          (rw (e, same) (accept_end_taken c [] (rw (← same) ends) ok))
    match_literals (key ∷ next ∷ parts) root c some_part at ok =
        let (d, e, at') = through_literal key (map lit (next ∷ parts)) root c at in
        or_else_first (match_literal_child key (match_parts (next ∷ parts) predicate) root) _
          (rw (e, match_literal_child) (match_literals (next ∷ parts) d c (λ nothing. cc) at' ok))

    -- A route stored under exactly the segments of the request is preferred to every pattern.
    pub match_with_predicate-literal :
        (request : Text) (root c : Node B)
        → route_at (map lit (parts_of request)) root ≡ ptr c
        → accepts predicate c ≡ true
        → match_with_predicate request predicate root ≡ some (c, [])
    unfolding match_with_predicate
    match_with_predicate-literal request root c at ok = rw (
      match_literals (parts_of request) root c (split-some (before b'?' request)) at ok,
      match_with_predicate,
    )

  -- What was put is served: after a successful put some route serves every request that the path takes.
  pub trie_put-trie_match :
      (path request : Text) (b : B) (root : Node B)
      → IsPath (path_of path)
      → (trie_put path (some b) root).1 ≡ done true
      → Matches (path_of path) (parts_of request)
      → trie_match request (trie_put path (some b) root).0 ≢ none
  unfolding trie_match
  trie_put-trie_match path request b root h ok m missed =
      let stored = (trie_put-route path b root h).0 ok in
      let (c, at) = route_at-some (path_of path) _ stored in
      cc (match_with_predicate_complete none request _ (path_of path) c missed m at)

  -- Get finds the node of every stored route.
  pub trie_get-route_at :
      (path : Text) (root c : Node B)
      → IsPath (path_of path)
      → route_at (path_of path) root ≡ ptr c
      → got_node (trie_get path root) ≡ ptr c
  unfolding trie_get
  trie_get-route_at path root c h at =
      got_reversed (get (split path) root) ∙ get-route_at (split path) root c (split-some path) h at
    where
      got_reversed :
          (r : Got B)
          → got_node (elim r [ error ↦ error | got d names ok ↦ got d (reverse names) ok ])
            ≡ got_node r
      got_reversed error = refl
      got_reversed (got d names ok) = refl

  -- The trie after Remove is the one written through the pointer, or unchanged if there was none.
  trie_remove-cases :
      (path : Text) (root : Node B)
      → ((trie_remove path root).0 ≡ unmark (split path) root)
        ⊎ ((trie_remove path root).0 ≡ root) × (got_node (get (split path) root) ≡ nil)
  unfolding trie_remove
  trie_remove-cases path root = go (get (split path) root) refl
    where
      go :
          (r : Got B)
          → get (split path) root ≡ r
          → ((trie_remove path root).0 ≡ unmark (split path) root)
            ⊎ ((trie_remove path root).0 ≡ root) × (got_node (get (split path) root) ≡ nil)
      go error e = inr (rw (e, trie_remove), rw e)
      go (got nil names ok) e = inr (rw (e, trie_remove), rw e)
      go (got (ptr c) names ok) e = inl (rw (e, trie_remove))

  trie_remove-route :
      (path : Text) (root : Node B)
      → IsPath (path_of path)
      → ¬ EndsInAll (path_of path)
      → (route (path_of path) (trie_remove path root).0 ≡ none)
        × ((q : List Token) → q ≢ path_of path → route q (trie_remove path root).0 ≡ route q root)
  trie_remove-route path root h plain = elim (trie_remove-cases path root) [
    | inl e ↦ (
      rw e (unmark-gone (split path) root (split-some path) h plain),
      λ q other. rw e (unmark-keep (split path) root q other),
    )
    | inr (e, missing) ↦ (rw e (nothing_stored missing), λ q other. rw e)
  ]
    where
      nothing_stored : got_node (get (split path) root) ≡ nil → route (path_of path) root ≡ none
      nothing_stored missing = elim (Slot-cases (route_at (path_of path) root)) [
        | inl e ↦ unfold route in rw e
        | inr (c, e) ↦ cc (get-route_at (split path) root c (split-some path) h e)
      ]

  -- Remove takes the route of its path away, if the path has no `**`.
  pub trie_remove-gone :
      (path : Text) (root : Node B)
      → IsPath (path_of path)
      → ¬ EndsInAll (path_of path)
      → route (path_of path) (trie_remove path root).0 ≡ none
  trie_remove-gone path root h plain = (trie_remove-route path root h plain).0

  -- Remove of a path without `**` changes the route of no other path.
  pub trie_remove-other :
      (path : Text) (root : Node B) (q : List Token)
      → IsPath (path_of path)
      → ¬ EndsInAll (path_of path)
      → q ≢ path_of path
      → route q (trie_remove path root).0 ≡ route q root
  trie_remove-other path root q h plain other = (trie_remove-route path root h plain).1 q other

  -- Remove of a path that ends in `**` changes no route: what it removes is still served.
  pub trie_remove-all_kept :
      (path : Text) (root : Node B) (q : List Token)
      → EndsInAll (path_of path)
      → route q (trie_remove path root).0 ≡ route q root
  trie_remove-all_kept path root q h = elim (trie_remove-cases path root) [
    | inl e ↦ rw e (unmark-all_kept (split path) root q h)
    | inr (e, missing) ↦ rw e
  ]
