-- ===== src/Router/Trie/Get.antt =====
-- Exact lookup: `Get` of a node in pkg/common/router/trie/trie.go, and the write that `Remove` makes
-- through the pointer that `Get` returns.
use dubbo_go_pixiu.Prelude.{Bool, true, false, List, [], ◌∷◌, if◌then◌else◌}
use dubbo_go_pixiu.Prelude.Text.{Text}
use dubbo_go_pixiu.Router.Trie.Node.{
  Node, Slot, nil, ptr, has_children, children, child_at, path_variable_node, match_all_node,
  end_of_path, set_child, set_path_variable_node, set_match_all_node,
}
use dubbo_go_pixiu.Util.StringUtil.{variable_name, is_path_variable_or_wildcard, is_match_all}

-- What `Get` returns: an error, or a node, the names of path variables and a flag.
pub data Got (B : Type 0) : Type 0 where
  error : Got B
  got : Slot B → List Text → Bool → Got B

module _ {B : Type 0} where
  -- The exit condition, at the last key.
  unfoldable pub get_end : Text → Node B → Got B
  get_end key n =
      if is_path_variable_or_wildcard key
      then elim (path_variable_node n) [
        | nil ↦ got nil [] false
        | ptr c ↦
            if end_of_path c then got (ptr c) (variable_name key ∷ []) true else got nil [] false
      ]
      else if is_match_all key
      then got (match_all_node n) [] true
      else if has_children n
      then got (children n key) [] true
      else got nil [] false

  -- `newList := []string{key}; copy(newList[1:], pathVariableList)`: the target of the copy is empty,
  -- so the names found below are dropped.
  abbrev pub under_variable : Text → Got B → Got B
  under_variable key error = error
  under_variable key (got c names ok) = got c (key ∷ []) ok

  -- No key at all would panic; `Split` never returns that.
  unfoldable pub get : List Text → Node B → Got B
  unfolding get_end
  get [] n = got nil [] false
  get (key ∷ []) n = get_end key n
  get (key ∷ next ∷ keys) n =
      let below = get (next ∷ keys) in
      if is_path_variable_or_wildcard key
      then elim (path_variable_node n) [
        | nil ↦ got nil [] false
        | ptr c ↦ under_variable key (below c)
      ]
      else if is_match_all key
      then error
      else elim (child_at key n) [ nil ↦ got nil [] false | ptr c ↦ below c ]

  -- Applies a write to the node behind a slot.
  abbrev pub on_node : (Node B → Node B) → Slot B → Slot B
  on_node f nil = nil
  on_node f (ptr c) = ptr (f c)

  -- The trie when the node that `get keys` returns is written through its pointer.
  unfoldable pub write_got : List Text → (Node B → Node B) → Node B → Node B
  write_got [] f n = n
  write_got (key ∷ []) f n =
      if is_path_variable_or_wildcard key
      then set_path_variable_node
          (on_node (λ c. if end_of_path c then f c else c) (path_variable_node n)) n
      else if is_match_all key
      then set_match_all_node (on_node f (match_all_node n)) n
      else if has_children n
      then set_child key (on_node f (children n key)) n
      else n
  write_got (key ∷ next ∷ keys) f n =
      let below = write_got (next ∷ keys) f in
      if is_path_variable_or_wildcard key
      then set_path_variable_node (on_node below (path_variable_node n)) n
      else if is_match_all key
      then n
      else if has_children n
      then set_child key (on_node below (children n key)) n
      else n
