-- ===== src/Router/Trie/Node.antt =====
-- The nodes of pkg/common/router/trie/trie.go.
-- A `*Node` is a `Slot`. `children` is a Go map, whose read of a missing key gives nil, so it is a
-- function, with a flag for the map having been made. `PathVariablesSet` maps every name to the one
-- `PathVariableNode` and is only tested for nil, so the names are kept. Nodes are not shared between
-- parents, so a method that mutates its receiver returns the new node.
use dubbo_go_pixiu.Prelude.{
  ◌≡◌, refl, ◌⊎◌, inl, inr, Bool, true, false, Option, none, some, List, [], ◌∷◌, if◌then◌else◌,
}
use dubbo_go_pixiu.Prelude.Text.{Text, text_eq}

mutual
  pub data Node (B : Type 0) : Type 0 where
    -- matchStr, children (made or nil), PathVariablesSet, PathVariableNode, MatchAllNode,
    -- endOfPath, bizInfo
    node :
        Text
        → Bool
        → (Text → Slot B)
        → Option (List Text)
        → Slot B
        → Slot B
        → Bool
        → Option B
        → Node B

  pub data Slot (B : Type 0) : Type 0 where
    nil : Slot B
    ptr : Node B → Slot B

abbrev pub names_of : Option (List Text) → List Text
names_of none = []
names_of (some names) = names

module _ {B : Type 0} where
  abbrev pub match_str : Node B → Text
  match_str (node s m c vs v a e b) = s

  abbrev pub has_children : Node B → Bool
  has_children (node s m c vs v a e b) = m

  abbrev pub children : Node B → Text → Slot B
  children (node s m c vs v a e b) = c

  abbrev pub path_variables_set : Node B → Option (List Text)
  path_variables_set (node s m c vs v a e b) = vs

  abbrev pub path_variable_node : Node B → Slot B
  path_variable_node (node s m c vs v a e b) = v

  abbrev pub match_all_node : Node B → Slot B
  match_all_node (node s m c vs v a e b) = a

  abbrev pub end_of_path : Node B → Bool
  end_of_path (node s m c vs v a e b) = e

  abbrev pub biz_info : Node B → Option B
  biz_info (node s m c vs v a e b) = b

  -- `&Node{endOfPath: end, matchStr: str}`.
  abbrev pub new_node : Text → Bool → Node B
  new_node str end = node str false (λ _. nil) none nil nil end none

  -- `NewTrie().root`, and what `Clear` leaves.
  abbrev pub empty : Node B
  empty = new_node [] false

  -- `node.children = map[string]*Node{}` where it is nil.
  abbrev pub init_children : Node B → Node B
  init_children (node s true c vs v a e b) = node s true c vs v a e b
  init_children (node s false c vs v a e b) = node s true (λ _. nil) vs v a e b

  abbrev pub set_child : Text → Slot B → Node B → Node B
  set_child key child (node s m c vs v a e b) =
      node s m (λ k. if text_eq key k then child else c k) vs v a e b

  abbrev pub set_path_variable_node : Slot B → Node B → Node B
  set_path_variable_node child (node s m c vs v a e b) = node s m c vs child a e b

  abbrev pub set_match_all_node : Slot B → Node B → Node B
  set_match_all_node child (node s m c vs v a e b) = node s m c vs v child e b

  abbrev pub set_end : Bool → Node B → Node B
  set_end end (node s m c vs v a e b) = node s m c vs v a end b

  abbrev pub set_biz_info : B → Node B → Node B
  set_biz_info info (node s m c vs v a e b) = node s m c vs v a e (some info)

  abbrev pub set_match_str : Text → Node B → Node B
  set_match_str str (node s m c vs v a e b) = node str m c vs v a e b

  -- `node.PathVariablesSet[name] = node.PathVariableNode`, where the map is made if it is nil.
  abbrev pub add_variable : Text → Node B → Node B
  add_variable name (node s m c vs v a e b) = node s m c (some (name ∷ names_of vs)) v a e b

  -- `IsEmpty`.
  unfoldable pub is_empty : Node B → Bool
  unfolding text_eq
  is_empty (node s false c none nil a e b) = text_eq s []
  is_empty (node s _ c _ _ a e b) = false

  -- The node that a slot points to, or a new one.
  abbrev pub or_new : Slot B → Node B → Node B
  or_new nil fresh = fresh
  or_new (ptr old) fresh = old

  abbrev pub is_set : Slot B → Bool
  is_set nil = false
  is_set (ptr _) = true

  -- A read of `node.children[key]` behind the test for nil.
  abbrev pub child_at : Text → Node B → Slot B
  child_at key n = if has_children n then children n key else nil

  -- To split on a slot and keep the equation.
  pub Slot-cases : (w : Slot B) → (w ≡ nil) ⊎ ((d : Node B) × (w ≡ ptr d))
  Slot-cases nil = inl refl
  Slot-cases (ptr d) = inr (d, refl)
