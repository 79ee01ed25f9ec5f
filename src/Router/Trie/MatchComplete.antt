-- ===== src/Router/Trie/MatchComplete.antt =====
-- What a failed match says, and which route is preferred.
use dubbo_go_pixiu.Prelude.{true, false, ◌≡◌, refl, ◌≢◌, none, some, List, [], ◌∷◌, arith}
use dubbo_go_pixiu.Prelude.Text.{Text}
use dubbo_go_pixiu.Router.Trie.Node.{
  Node, Slot, nil, ptr, child_at, path_variable_node, match_all_node,
}
use dubbo_go_pixiu.Router.Trie.Match.{
  Predicate, Found, accepts, or_else, accept, accept_end, match_all, match_end, match_remaining,
  match_parts, append_param, match_literal_child, match_path_variable_child, match_all_child,
  match_literal_end, match_path_variable_end,
}
use dubbo_go_pixiu.Router.Trie.Paths.{
  Token, lit, var, all, Matches, MatchesFrom, route_at, through_literal, through_variable,
}

module _ {B : Type 0} (predicate : Predicate B) where
  or_else-eq-none : (x y : Found B) → or_else x y ≡ none → (x ≡ none) × (y ≡ none)
  or_else-eq-none none y h = (refl, h)
  or_else-eq-none (some _) y h = cc

  accept-eq-none :
      (w : Slot B) (ps : List Text) (c : Node B)
      → accept predicate w ps ≡ none
      → w ≡ ptr c
      → accepts predicate c ≡ false
  accept-eq-none nil ps c h e = cc
  accept-eq-none (ptr w) ps c h e = ground arith

  accept_end-eq-none :
      (w : Slot B) (ps : List Text) (d c : Node B)
      → accept_end predicate w ps ≡ none
      → w ≡ ptr d
      → route_at [] d ≡ ptr c
      → accepts predicate c ≡ false
  unfolding route_at
  accept_end-eq-none nil ps d c h e r = cc
  accept_end-eq-none (ptr w) ps d c h e r = ground arith

  append_param-eq-none : (key : Text) (x : Found B) → append_param key x ≡ none → x ≡ none
  append_param-eq-none key none h = refl
  append_param-eq-none key (some _) h = cc

  -- What a failed `matchAll` has tried.
  refuse_all :
      (key : Text) (n c : Node B)
      → match_all key predicate n ≡ none
      → match_all_node n ≡ ptr c
      → accepts predicate c ≡ false
  unfolding match_all
  refuse_all key n c h at = accept-eq-none (match_all_node n) [] c (or_else-eq-none _ _ h).1 at

  refuse_all_child :
      (key : Text) (n d c : Node B)
      → match_all key predicate n ≡ none
      → child_at key n ≡ ptr d
      → match_all_node d ≡ ptr c
      → accepts predicate c ≡ false
  unfolding match_all match_all_child
  refuse_all_child key n d c h e at =
      accept-eq-none (match_all_child key n) [] c (or_else-eq-none _ _ h).0
        (rw (e, match_all_child) at)

  -- Every route that could serve the parts has been offered to the predicate and refused.
  abbrev Refused : List Text → Node B → Type 0
  Refused parts n =
      (pat : List Token) (c : Node B)
      → Matches pat parts
      → route_at pat n ≡ ptr c
      → accepts predicate c ≡ false

  refuse_end : (key : Text) (n : Node B) → match_end key predicate n ≡ none → Refused (key ∷ []) n
  unfolding match_end match_literal_end match_path_variable_end
  refuse_end key n h [] c m at = absurd m
  refuse_end key n h (all ∷ []) c m at =
      refuse_all key n c (or_else-eq-none _ _ (or_else-eq-none _ _ h).1).1 (unfold route_at in at)
  refuse_end key n h (all ∷ _ ∷ _) c m at = absurd m
  refuse_end key n h (var ∷ []) c m at =
      let (d, e, at') = through_variable [] n c at in
      accept_end-eq-none (path_variable_node n) (key ∷ []) d c
        (or_else-eq-none _ _ (or_else-eq-none _ _ h).1).0 e at'
  refuse_end key n h (var ∷ all ∷ []) c m at = cc
  refuse_end key n h (var ∷ all ∷ _ ∷ _) c m at = absurd m
  refuse_end key n h (var ∷ var ∷ _) c m at = absurd m
  refuse_end key n h (var ∷ lit _ ∷ _) c m at = absurd m
  refuse_end key n h (lit k ∷ []) c (same, m) at =
      let (d, e, at') = through_literal k [] n c at in
      accept_end-eq-none (child_at key n) [] d c (or_else-eq-none _ _ h).0 (rw same at e) at'
  refuse_end key n h (lit k ∷ all ∷ []) c (same, m) at =
      let (d, e, at') = through_literal k (all ∷ []) n c at in
      refuse_all_child key n d c (or_else-eq-none _ _ (or_else-eq-none _ _ h).1).1 (rw same at e)
        (unfold route_at in at')
  refuse_end key n h (lit k ∷ all ∷ _ ∷ _) c m at = absurd m.1
  refuse_end key n h (lit k ∷ var ∷ _) c m at = absurd m.1
  refuse_end key n h (lit k ∷ lit _ ∷ _) c m at = absurd m.1

  -- A pattern that is behind a literal takes parts, one at least, as any pattern does.
  not_behind :
      (pat : List Token) (part : Text) (parts : List Text)
      → MatchesFrom true pat (part ∷ parts)
      → Matches pat (part ∷ parts)
  not_behind [] part parts h = h
  not_behind (all ∷ []) part parts h = h
  not_behind (all ∷ _ ∷ _) part parts h = h
  not_behind (var ∷ pat) part parts h = h
  not_behind (lit _ ∷ pat) part parts h = h

  -- A match fails only if the predicate refuses every stored route whose pattern takes the parts.
  pub match_parts-Refused :
      (parts : List Text) (n : Node B) (pat : List Token) (c : Node B)
      → match_parts parts predicate n ≡ none
      → parts ≢ []
      → Matches pat parts
      → route_at pat n ≡ ptr c
      → accepts predicate c ≡ false
  unfolding match_parts match_remaining
  match_parts-Refused [] n pat c h some_part m at = absurd (some_part refl)
  match_parts-Refused (key ∷ []) n pat c h some_part m at = refuse_end key n h pat c m at
  match_parts-Refused (key ∷ next ∷ parts) n [] c h some_part m at = absurd m
  match_parts-Refused (key ∷ next ∷ parts) n (all ∷ []) c h some_part m at =
      refuse_all key n c (or_else-eq-none _ _ (or_else-eq-none _ _ h).1).1 (unfold route_at in at)
  match_parts-Refused (key ∷ next ∷ parts) n (all ∷ _ ∷ _) c h some_part m at = absurd m
  match_parts-Refused (key ∷ next ∷ parts) n (var ∷ pat) c h some_part m at =
      let (d, e, at') = through_variable pat n c at in
      let tried : match_path_variable_child key (match_parts (next ∷ parts) predicate) n ≡ none =
        (or_else-eq-none _ _ (or_else-eq-none _ _ h).1).0 in
      match_parts-Refused (next ∷ parts) d pat c
        (append_param-eq-none key (match_parts (next ∷ parts) predicate d)
          (unfold match_path_variable_child in (rw (e, match_path_variable_child) at tried)))
        (λ nothing. cc) m at'
  match_parts-Refused (key ∷ next ∷ parts) n (lit k ∷ pat) c h some_part (same, m) at =
      let (d, e, at') = through_literal k pat n c at in
      let e' : child_at key n ≡ ptr d = rw same at e in
      let tried : match_literal_child key (match_parts (next ∷ parts) predicate) n ≡ none =
        (or_else-eq-none _ _ h).0 in
      match_parts-Refused (next ∷ parts) d pat c
        (unfold match_literal_child in (rw (e', match_literal_child) at tried)) (λ nothing. cc)
        (not_behind pat next parts m) at'
