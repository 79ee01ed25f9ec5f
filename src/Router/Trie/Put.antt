-- ===== src/Router/Trie/Put.antt =====
-- Insertion: `put`, `internalPut` and what they call in pkg/common/router/trie/trie.go.
use dubbo_go_pixiu.Prelude.{Bool, true, false, ◌&&◌, ◌||◌, not, List, [], ◌∷◌, if◌then◌else◌}
use dubbo_go_pixiu.Prelude.Text.{Text}
use dubbo_go_pixiu.Router.Trie.Node.{
  Node, Slot, nil, ptr, children, path_variable_node, match_all_node, end_of_path, new_node,
  init_children, set_child, set_path_variable_node, set_match_all_node, set_end, set_biz_info,
  set_match_str, add_variable, or_new, is_set,
}
use dubbo_go_pixiu.Util.StringUtil.{variable_name, is_path_variable_or_wildcard, is_match_all}

-- `len(keys) == 1`, asked of the keys behind the first.
abbrev pub is_last : List Text → Bool
is_last [] = true
is_last (_ ∷ _) = false

module _ {B : Type 0} where
  -- `putPathVariable`.
  unfoldable pub put_path_variable : Text → Bool → B → Node B → Node B × Bool
  put_path_variable name is_real info n =
      let old = or_new (path_variable_node n) (new_node [] false) in
      if end_of_path old && is_real
      then (set_path_variable_node (ptr old) n, false)
      else let named = if is_real then set_match_str name (set_biz_info info old) else old in
        let self = set_end (end_of_path old || is_real) named in
        (add_variable name (set_path_variable_node (ptr self) n), true)

  -- `putNode`. The map has been made: `internalPut` does so first.
  unfoldable pub put_node : Text → Bool → B → Node B → Node B × Bool
  put_node str is_real info n =
      let old = or_new (children n str) (new_node str is_real) in
      if is_set (children n str) && end_of_path old && is_real
      then (n, false)
      else let self = if is_real then set_biz_info info old else old in
        (set_child str (ptr (set_end (is_real || end_of_path old) self)) n, true)

  -- `putMatchAllNode`: `selfNode` and `old` are one node, so `endOfPath` stays what it was there.
  unfoldable pub put_match_all_node : Text → Bool → B → Node B → Node B × Bool
  put_match_all_node str is_real info n =
      let old = or_new (match_all_node n) (new_node str is_real) in
      if is_set (match_all_node n) && end_of_path old && is_real
      then (n, false)
      else let self = if is_real then set_biz_info info old else old in
        (set_match_all_node (ptr (set_end (end_of_path self || end_of_path old) self)) n, true)

  -- `put`.
  unfoldable pub put : Text → Bool → B → Node B → Node B × Bool
  unfolding put_path_variable put_node put_match_all_node
  put key is_real info n =
      if not (is_path_variable_or_wildcard key)
      then if is_match_all key
        then put_match_all_node key is_real info n
        else put_node key is_real info n
      else put_path_variable (variable_name key) is_real info n

  -- Runs a mutation on the node behind a slot and writes the node back. The slots are set when this
  -- is called; a nil one would panic.
  abbrev pub on_slot : (Node B → Node B × Bool) → Slot B → (Slot B → Node B) → Node B × Bool
  on_slot f nil write = (write nil, false)
  on_slot f (ptr child) write = (write (ptr (f child).0), (f child).1)

  -- `internalPut`.
  unfoldable pub internal_put : List Text → B → Node B → Node B × Bool
  internal_put [] info n = (init_children n, true)
  internal_put (key ∷ keys) info n =
      let below = internal_put keys info in
      let (n', success) = put key (is_last keys) info (init_children n) in
      if not success
      then (n', false)
      else if is_path_variable_or_wildcard key
      then on_slot below (path_variable_node n') (λ child. set_path_variable_node child n')
      else if is_match_all key
      then (n', true)
      else on_slot below (children n' key) (λ child. set_child key child n')
