-- ===== src/Router/Trie/Paths.antt =====
-- What a trie stands for: the routes that it holds, one at most for each path of tokens.
use dubbo_go_pixiu.Prelude.{
  Bool, true, false, ◌≡◌, refl, ◌⊎◌, inl, inr, Option, none, some, List, [], ◌∷◌, map,
  if◌then◌else◌, arith,
}
use dubbo_go_pixiu.Prelude.Text.{Text}
use dubbo_go_pixiu.Router.Trie.Node.{
  Node, Slot, nil, ptr, child_at, path_variable_node, match_all_node, end_of_path, biz_info,
  Slot-cases,
}
use dubbo_go_pixiu.Util.StringUtil.{is_path_variable_or_wildcard, is_match_all}

-- The three kinds of path segment: a literal, `:name` or `*`, and `**`.
pub data Token : Type 0 where
  lit : Text → Token
  var all : Token

unfoldable pub token : Text → Token
token key =
    if is_path_variable_or_wildcard key then var else if is_match_all key then all else lit key

abbrev pub tokens : List Text → List Token
tokens = map token

-- `**` stands last or not at all.
abbrev pub IsPath : List Token → Type 0
IsPath [] = Unit {0}
IsPath (all ∷ []) = Unit {0}
IsPath (all ∷ _ ∷ _) = ⊥
IsPath (lit _ ∷ ts) = IsPath ts
IsPath (var ∷ ts) = IsPath ts

abbrev pub IsAll : Token → Type 0
IsAll all = Unit {0}
IsAll (lit _) = ⊥
IsAll var = ⊥

-- The path's last token is `**`.
abbrev pub EndsInAll : List Token → Type 0
EndsInAll [] = ⊥
EndsInAll (t ∷ []) = IsAll t
EndsInAll (_ ∷ t ∷ ts) = EndsInAll (t ∷ ts)

pub IsPath-tail : (t : Token) (ts : List Token) → IsPath (t ∷ ts) → IsPath ts
IsPath-tail all [] h = tt
IsPath-tail all (_ ∷ _) h = absurd h
IsPath-tail (lit _) ts h = h
IsPath-tail var ts h = h

pub all_last : (ts : List Token) → IsPath (all ∷ ts) → ts ≡ []
all_last [] h = refl
all_last (_ ∷ _) h = absurd h

module _ {B : Type 0} where
  -- The node at which a path ends, if the matching can return it: under `**` that is any node, and
  -- elsewhere a node that is the end of a path.
  unfoldable pub route_at : List Token → Node B → Slot B
  route_at [] n = if end_of_path n then ptr n else nil
  route_at (all ∷ []) n = match_all_node n
  route_at (all ∷ _ ∷ _) n = nil
  route_at (var ∷ path) n = elim (path_variable_node n) [ nil ↦ nil | ptr c ↦ route_at path c ]
  route_at (lit key ∷ path) n = elim (child_at key n) [ nil ↦ nil | ptr c ↦ route_at path c ]

  -- The node below a slot, for a route that goes through it.
  pub through_literal :
      (key : Text) (pat : List Token) (n c : Node B)
      → route_at (lit key ∷ pat) n ≡ ptr c
      → (d : Node B) × (child_at key n ≡ ptr d) × (route_at pat d ≡ ptr c)
  unfolding route_at
  through_literal key pat n c h = elim (Slot-cases (child_at key n)) [
    | inl e ↦ cc (rw (e, route_at) at h)
    | inr (d, e) ↦ (d, e, rw (e, route_at) at h)
  ]

  pub through_variable :
      (pat : List Token) (n c : Node B)
      → route_at (var ∷ pat) n ≡ ptr c
      → (d : Node B) × (path_variable_node n ≡ ptr d) × (route_at pat d ≡ ptr c)
  unfolding route_at
  through_variable pat n c h = elim (Slot-cases (path_variable_node n)) [
    | inl e ↦ cc (rw (e, route_at) at h)
    | inr (d, e) ↦ (d, e, rw (e, route_at) at h)
  ]

  pub end_of_route : (d c : Node B) → route_at [] d ≡ ptr c → (end_of_path d ≡ true) × (d ≡ c)
  unfolding route_at
  end_of_route d c h = ground arith

  abbrev pub biz_of : Slot B → Option B
  biz_of nil = none
  biz_of (ptr c) = biz_info c

  -- The trie as a finite map from paths to what was stored there.
  unfoldable pub route : List Token → Node B → Option B
  unfolding route_at
  route path n = biz_of (route_at path n)

  pub route_at-some :
      (path : List Token) (n : Node B) {b : B}
      → route path n ≡ some b
      → (c : Node B) × (route_at path n ≡ ptr c)
  unfolding route
  route_at-some path n h = elim (Slot-cases (route_at path n)) [
    | inl e ↦ cc (rw e at h)
    | inr (c, e) ↦ (c, e)
  ]

-- The three kinds of segment, by the tests that the code makes.
pub token-cases :
    (key : Text)
    → (is_path_variable_or_wildcard key ≡ true) × (token key ≡ var)
      ⊎ (is_path_variable_or_wildcard key ≡ false) × (is_match_all key ≡ true) × (token key ≡ all)
      ⊎ (is_path_variable_or_wildcard key ≡ false)
        × (is_match_all key ≡ false)
        × (token key ≡ lit key)
unfolding token
token-cases key = ground arith

-- Does the pattern take the segments? `**` takes one segment at least, or none right behind a
-- literal: `/a/**` also serves `/a`. The flag says that a literal stands just before.
abbrev pub MatchesFrom : Bool → List Token → List Text → Type 0
MatchesFrom behind [] [] = Unit {0}
MatchesFrom behind [] (_ ∷ _) = ⊥
MatchesFrom behind (all ∷ []) [] = behind ≡ true
MatchesFrom behind (all ∷ []) (_ ∷ _) = Unit {0}
MatchesFrom behind (all ∷ _ ∷ _) parts = ⊥
MatchesFrom behind (var ∷ pat) [] = ⊥
MatchesFrom behind (var ∷ pat) (_ ∷ parts) = MatchesFrom false pat parts
MatchesFrom behind (lit key ∷ pat) [] = ⊥
MatchesFrom behind (lit key ∷ pat) (part ∷ parts) = (key ≡ part) × MatchesFrom true pat parts

abbrev pub Matches : List Token → List Text → Type 0
Matches = MatchesFrom false

-- The segments that the variables of the pattern take, the first first.
abbrev pub captured : List Token → List Text → List Text
captured [] parts = []
captured (_ ∷ _) [] = []
captured (var ∷ pat) (part ∷ parts) = part ∷ captured pat parts
captured (_ ∷ pat) (part ∷ parts) = captured pat parts
