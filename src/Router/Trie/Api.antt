-- ===== src/Router/Trie/Api.antt =====
-- The methods of `Trie` in pkg/common/router/trie/trie.go, which take a path as text. The root node
-- is all the state of a trie.
use dubbo_go_pixiu.Prelude.{Bool, true, false, Option, none, some, reverse}
use dubbo_go_pixiu.Prelude.Text.{Text}
use dubbo_go_pixiu.Router.Trie.Node.{Node, Slot, nil, ptr, empty, set_end, is_set}
use dubbo_go_pixiu.Router.Trie.Put.{internal_put}
use dubbo_go_pixiu.Router.Trie.Match.{Predicate, Found, match_parts}
use dubbo_go_pixiu.Router.Trie.Get.{Got, error, got, get, write_got}
use dubbo_go_pixiu.Util.StringUtil.{split, before}

-- `(bool, error)`.
pub data PutResult : Type 0 where
  nil_data : PutResult
  done : Bool → PutResult

module _ {B : Type 0} where
  -- `Trie.Put`; `none` is a nil `bizInfo`.
  unfoldable pub trie_put : Text → Option B → Node B → Node B × PutResult
  trie_put path none root = (root, nil_data)
  trie_put path (some info) root =
      let (root', success) = internal_put (split path) info root in (root', done success)

  -- `Trie.Get`, with the path variables reversed in place.
  unfoldable pub trie_get : Text → Node B → Got B
  trie_get path root = elim (get (split path) root) [
    | error ↦ error
    | got c names ok ↦ got c (reverse names) ok
  ]

  -- `Trie.MatchWithPredicate`, with the parameters reversed in place.
  unfoldable pub match_with_predicate : Text → Predicate B → Node B → Found B
  match_with_predicate path predicate root =
      elim (match_parts (split (before b'?' path)) predicate root) [
        | none ↦ none
        | some (c, params) ↦ some (c, reverse params)
      ]

  -- `Trie.Match`.
  unfoldable pub trie_match : Text → Node B → Found B
  unfolding match_with_predicate
  trie_match path root = match_with_predicate path none root

  -- `Trie.Remove`: `none` is the error of `Get`.
  unfoldable pub trie_remove : Text → Node B → Node B × Option (Slot B)
  trie_remove path root = elim (get (split path) root) [
    | error ↦ (root, none)
    | got nil names ok ↦ (root, some nil)
    | got (ptr c) names ok ↦
        (write_got (split path) (set_end false) root, some (ptr (set_end false c)))
  ]

  -- `Trie.PutOrUpdate`. The error of `Remove` is logged.
  unfoldable pub put_or_update : Text → Option B → Node B → Node B × PutResult
  unfolding trie_remove
  put_or_update path none root = (root, nil_data)
  put_or_update path (some info) root =
      let (root', success) = internal_put (split path) info (trie_remove path root).0 in
      (root', done success)

  -- `Trie.Contains`: `none` is the pair of true and an error.
  unfoldable pub trie_contains : Text → Node B → Option Bool
  trie_contains path root = elim (get (split path) root) [
    | error ↦ none
    | got c names ok ↦ some (is_set c)
  ]

  -- `Trie.Clear`.
  unfoldable pub trie_clear : Node B → Node B × Bool
  trie_clear root = (empty, true)

  -- `NewTrieWithDefault`.
  unfoldable pub new_trie_with_default : Text → Option B → Node B
  unfolding trie_put
  new_trie_with_default path value = (trie_put path value empty).0
