-- ===== src/Router/Trie/MatchSound.antt =====
-- What a successful match says: the node is a stored route whose pattern takes the parts.
use dubbo_go_pixiu.Prelude.{
  true, ◌≡◌, refl, ◌⊎◌, inl, inr, none, some, List, [], ◌∷◌, ◌++◌, reverse, ◌∙◌, arith,
  reverse-cons,
}
use dubbo_go_pixiu.Prelude.Text.{Text}
use dubbo_go_pixiu.Router.Trie.Node.{
  Node, Slot, nil, ptr, child_at, path_variable_node, match_all_node, end_of_path, Slot-cases,
}
use dubbo_go_pixiu.Router.Trie.Match.{
  Predicate, Found, accepts, or_else, accept, accept_end, match_all, match_end, match_remaining,
  match_parts, append_param, match_literal_child, match_path_variable_child, match_all_child,
  match_literal_end, match_path_variable_end,
}
use dubbo_go_pixiu.Router.Trie.Paths.{
  Token, lit, var, all, Matches, MatchesFrom, captured, route_at,
}

module _ {B : Type 0} (predicate : Predicate B) where
  -- The node is stored under a pattern that takes the parts, the predicate accepts it, and the
  -- parameters are the parts that the variables of the pattern take, the last first.
  pub record IsServed (parts : List Text) (n : Node B) (c : Node B) (params : List Text)
      : Type 0 where
    pub pat : List Token
    pub matches : Matches pat parts
    pub stored : route_at pat n ≡ ptr c
    pub accepted : accepts predicate c ≡ true
    pub bound : params ≡ reverse (captured pat parts)

  accept-eq-some :
      (w : Slot B) (ps : List Text) {c : Node B} {params : List Text}
      → accept predicate w ps ≡ some (c, params)
      → (w ≡ ptr c) × (accepts predicate c ≡ true) × (params ≡ ps)
  accept-eq-some nil ps h = cc
  accept-eq-some (ptr w) ps h = ground arith

  accept_end-eq-some :
      (w : Slot B) (ps : List Text) {c : Node B} {params : List Text}
      → accept_end predicate w ps ≡ some (c, params)
      → (w ≡ ptr c) × (accepts predicate c ≡ true) × (params ≡ ps) × (end_of_path c ≡ true)
  accept_end-eq-some nil ps h = cc
  accept_end-eq-some (ptr w) ps h = ground arith

  or_else-eq-some :
      (x y : Found B) {r : Node B × List Text} → or_else x y ≡ some r → (x ≡ some r) ⊎ (y ≡ some r)
  or_else-eq-some none y h = inr h
  or_else-eq-some (some _) y h = inl h

  -- A route below the literal `key`, where the pattern goes on behind a literal.
  serve_literal :
      (key : Text) (parts : List Text) (pat : List Token) (n d c : Node B) (params : List Text)
      → child_at key n ≡ ptr d
      → MatchesFrom true pat parts
      → route_at pat d ≡ ptr c
      → accepts predicate c ≡ true
      → params ≡ reverse (captured (lit key ∷ pat) (key ∷ parts))
      → IsServed (key ∷ parts) n c params
  unfolding route_at
  serve_literal key parts pat n d c params e m at acc b = record {
    pat = lit key ∷ pat;
    matches = (refl, m);
    stored = rw (e, route_at) at;
    accepted = acc;
    bound = b;
  }

  -- Behind a literal `**` takes any number of parts, and binds none.
  all_behind : (parts : List Text) → MatchesFrom true (all ∷ []) parts
  all_behind [] = refl
  all_behind (_ ∷ _) = tt

  captured-all : (parts : List Text) → captured (all ∷ []) parts ≡ []
  captured-all [] = refl
  captured-all (_ ∷ _) = refl

  serve_all_child :
      (key : Text) (parts : List Text) (n c : Node B) (params : List Text)
      → accept predicate (match_all_child key n) [] ≡ some (c, params)
      → IsServed (key ∷ parts) n c params
  unfolding match_all_child
  serve_all_child key parts n c params h = elim (Slot-cases (child_at key n)) [
    | inl e ↦ cc (rw (e, match_all_child) at h)
    | inr (d, e) ↦
        let (at, acc, b) = accept-eq-some (match_all_node d) [] (rw (e, match_all_child) at h) in
        serve_literal key parts (all ∷ []) n d c params e (all_behind parts) (unfold route_at in at)
          acc (b ∙ rw (captured-all parts))
  ]

  serve_all :
      (key : Text) (parts : List Text) (n c : Node B) (params : List Text)
      → match_all key predicate n ≡ some (c, params)
      → IsServed (key ∷ parts) n c params
  unfolding match_all
  serve_all key parts n c params h = elim (or_else-eq-some _ _ h) [
    | inl x ↦ serve_all_child key parts n c params x
    | inr y ↦
        let (at, acc, b) = accept-eq-some (match_all_node n) [] y in
        record {
          pat = all ∷ [];
          matches = tt;
          stored = unfold route_at in at;
          accepted = acc;
          bound = b;
        }
  ]

  serve_end :
      (key : Text) (n c : Node B) (params : List Text)
      → match_end key predicate n ≡ some (c, params)
      → IsServed (key ∷ []) n c params
  unfolding match_end match_literal_end match_path_variable_end route_at
  serve_end key n c params h = elim (or_else-eq-some _ _ h) [
    | inl x ↦
        let (at, acc, b, ends) = accept_end-eq-some (child_at key n) [] x in
        serve_literal key [] [] n c c params at tt (rw ends) acc b
    | inr y ↦ elim (or_else-eq-some _ _ y) [
      | inl z ↦
          let (at, acc, b, ends) = accept_end-eq-some (path_variable_node n) (key ∷ []) z in
          record {
            pat = var ∷ [];
            matches = tt;
            stored = rw (at, route_at) (rw ends);
            accepted = acc;
            bound = b;
          }
      | inr w ↦ serve_all key [] n c params w
    ]
  ]

  serve_variable :
      (key : Text) (parts : List Text) (n d c : Node B) (params : List Text)
      → path_variable_node n ≡ ptr d
      → IsServed parts d c params
      → IsServed (key ∷ parts) n c (params ++ key ∷ [])
  unfolding route_at
  serve_variable key parts n d c params e s = record {
    pat = var ∷ s.pat;
    matches = s.matches;
    stored = rw (e, route_at) s.stored;
    accepted = s.accepted;
    bound = rw (reverse-cons, s.bound);
  }

  -- A match below a literal: the pattern below goes on behind the literal.
  behind : (pat : List Token) (parts : List Text) → Matches pat parts → MatchesFrom true pat parts
  behind [] [] h = h
  behind [] (_ ∷ _) h = h
  behind (all ∷ []) [] h = refl
  behind (all ∷ []) (_ ∷ _) h = tt
  behind (all ∷ _ ∷ _) parts h = h
  behind (var ∷ pat) [] h = h
  behind (var ∷ pat) (_ ∷ parts) h = h
  behind (lit _ ∷ pat) [] h = h
  behind (lit _ ∷ pat) (_ ∷ parts) h = h

  append_param-eq-some :
      (key : Text) (x : Found B) {c : Node B} {params : List Text}
      → append_param key x ≡ some (c, params)
      → (inner : List Text) × (x ≡ some (c, inner)) × (params ≡ inner ++ key ∷ [])
  append_param-eq-some key none h = cc
  append_param-eq-some key (some (d, ps)) h = (ps, ground arith, ground arith)

  -- A match returns a route that is stored under a pattern which takes the parts.
  pub match_parts-IsServed :
      (parts : List Text) (n c : Node B) (params : List Text)
      → match_parts parts predicate n ≡ some (c, params)
      → IsServed parts n c params
  unfolding match_parts match_remaining match_literal_child match_path_variable_child
  match_parts-IsServed [] n c params h = cc
  match_parts-IsServed (key ∷ []) n c params h = serve_end key n c params h
  match_parts-IsServed (key ∷ next ∷ parts) n c params h =
      elim (or_else-eq-some (match_literal_child key (match_parts (next ∷ parts) predicate) n) _
        h) [
          | inl x ↦ elim (Slot-cases (child_at key n)) [
            | inl e ↦ cc (rw (e, match_literal_child) at x)
            | inr (d, e) ↦
                let s =
                  match_parts-IsServed (next ∷ parts) d c params
                    (rw (e, match_literal_child) at x) in
                serve_literal key (next ∷ parts) s.pat n d c params e
                  (behind s.pat (next ∷ parts) s.matches) s.stored s.accepted s.bound
          ]
          | inr y ↦
              elim (or_else-eq-some
                (match_path_variable_child key (match_parts (next ∷ parts) predicate) n)
                (match_all key predicate n) y) [
                  | inl z ↦ elim (Slot-cases (path_variable_node n)) [
                    | inl e ↦ cc (rw (e, match_path_variable_child) at z)
                    | inr (d, e) ↦
                        let (inner, found, same) =
                          append_param-eq-some key (match_parts (next ∷ parts) predicate d)
                            (rw (e, match_path_variable_child) at z) in
                        rw same (
                          serve_variable key (next ∷ parts) n d c inner e
                            (match_parts-IsServed (next ∷ parts) d c inner found))
                  ]
                  | inr w ↦ serve_all key (next ∷ parts) n c params w
                ]
        ]
