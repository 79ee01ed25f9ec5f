-- ===== src/Router/Trie/Match.antt =====
-- Matching: `match` and what it calls in pkg/common/router/trie/trie.go.
use dubbo_go_pixiu.Prelude.{Bool, true, not, Option, none, some, List, [], ◌∷◌, ◌++◌, if◌then◌else◌}
use dubbo_go_pixiu.Prelude.Text.{Text}
use dubbo_go_pixiu.Router.Trie.Node.{
  Node, Slot, nil, ptr, child_at, path_variable_node, match_all_node, end_of_path,
}

-- `func(*Node) bool`, or nil.
abbrev pub Predicate : Type 0 → Type 0
Predicate B = Option (Node B → Bool)

-- The results of a match: the node and the path variables, the last first.
abbrev pub Found : Type 0 → Type 0
Found B = Option (Node B × List Text)

module _ {B : Type 0} where
  abbrev pub accepts : Predicate B → Node B → Bool
  accepts none candidate = true
  accepts (some predicate) candidate = predicate candidate

  -- `if x, ok := a; ok { return x }; return b`.
  abbrev pub or_else : Found B → Found B → Found B
  or_else none other = other
  or_else (some r) other = some r

  -- The node behind a slot, if `matchesPredicate` holds of it.
  abbrev pub accept : Predicate B → Slot B → List Text → Found B
  accept predicate nil params = none
  accept predicate (ptr c) params = if accepts predicate c then some (c, params) else none

  -- `matchLiteralEnd` and `matchPathVariableEnd` also want `endOfPath`.
  abbrev pub accept_end : Predicate B → Slot B → List Text → Found B
  accept_end predicate nil params = none
  accept_end predicate (ptr c) params =
      if not (end_of_path c) then none else if accepts predicate c then some (c, params) else none

  unfoldable pub match_literal_end : Text → Predicate B → Node B → Found B
  match_literal_end key predicate n = accept_end predicate (child_at key n) []

  unfoldable pub match_path_variable_end : Text → Predicate B → Node B → Found B
  match_path_variable_end key predicate n = accept_end predicate (path_variable_node n) (key ∷ [])

  unfoldable pub match_all_child : Text → Node B → Slot B
  match_all_child key n = elim (child_at key n) [ nil ↦ nil | ptr c ↦ match_all_node c ]

  unfoldable pub match_all : Text → Predicate B → Node B → Found B
  unfolding match_all_child
  match_all key predicate n =
      or_else (accept predicate (match_all_child key n) []) (accept predicate (match_all_node n) [])

  unfoldable pub match_end : Text → Predicate B → Node B → Found B
  unfolding match_literal_end match_path_variable_end match_all
  match_end key predicate n =
      or_else (match_literal_end key predicate n)
        (or_else (match_path_variable_end key predicate n) (match_all key predicate n))

  -- `descend` is the match of the remaining parts.
  unfoldable pub match_literal_child : Text → (Node B → Found B) → Node B → Found B
  match_literal_child key descend n = elim (child_at key n) [ nil ↦ none | ptr c ↦ descend c ]

  -- `params = append(params, key)`.
  abbrev pub append_param : Text → Found B → Found B
  append_param key none = none
  append_param key (some (c, params)) = some (c, params ++ key ∷ [])

  unfoldable pub match_path_variable_child : Text → (Node B → Found B) → Node B → Found B
  match_path_variable_child key descend n = elim (path_variable_node n) [
    | nil ↦ none
    | ptr c ↦ append_param key (descend c)
  ]

  unfoldable pub match_remaining : Text → (Node B → Found B) → Predicate B → Node B → Found B
  unfolding match_literal_child match_path_variable_child match_all
  match_remaining key descend predicate n =
      or_else (match_literal_child key descend n)
        (or_else (match_path_variable_child key descend n) (match_all key predicate n))

  -- `match`. No part at all would panic; `Split` never returns that.
  unfoldable pub match_parts : List Text → Predicate B → Node B → Found B
  unfolding match_end match_remaining
  match_parts [] predicate n = none
  match_parts (key ∷ []) predicate n = match_end key predicate n
  match_parts (key ∷ next ∷ parts) predicate n =
      match_remaining key (match_parts (next ∷ parts) predicate) predicate n
