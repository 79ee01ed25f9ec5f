-- ===== src/Router/Trie/Tests.antt =====
-- Runs of the trie, and its theorems at concrete inputs.
use dubbo_go_pixiu.Prelude.{
  ℕ, Bool, true, false, ◌≡◌, refl, ◌≢◌, Option, none, some, List, [], ◌∷◌, ◌==◌, if◌then◌else◌,
}
use dubbo_go_pixiu.Prelude.Text.{Text, codes}
use dubbo_go_pixiu.Router.Trie.Node.{Node, ptr, empty, biz_info}
use dubbo_go_pixiu.Router.Trie.Put.{put, internal_put}
use dubbo_go_pixiu.Router.Trie.Match.{accepts, match_parts}
use dubbo_go_pixiu.Router.Trie.Get.{get, write_got}
use dubbo_go_pixiu.Router.Trie.Api.{
  trie_put, match_with_predicate, trie_match, trie_remove, trie_get,
}
use dubbo_go_pixiu.Router.Trie.Paths.{Token, lit, all, token, Matches, captured, route_at, route}
use dubbo_go_pixiu.Router.Trie.Laws.{
  path_of, parts_of, trie_put-stored, trie_put-refused, trie_put-other, match_with_predicate_sound,
  match_with_predicate_complete, match_with_predicate-literal, trie_put-trie_match,
  trie_remove-gone, trie_remove-other, trie_remove-all_kept,
}
use dubbo_go_pixiu.Util.StringUtil.{
  split, before, is_path_variable_or_wildcard, is_match_all, variable_name,
}

-- Opens the program for a test.
program : Unit {0}
unfolding trie_put put is_path_variable_or_wildcard is_match_all internal_put match_with_predicate
    match_parts trie_match trie_remove get write_got trie_get split before route token variable_name
program = tt

abbrev sample : Node ℕ
unfolding program
sample =
    (trie_put (codes "GET/a/**") (some 3)
      (trie_put (codes "GET/a/:id") (some 2) (trie_put (codes "GET/a/b") (some 1) empty).0).0).0

abbrev served : Option (Node ℕ × List Text) → Option (Option ℕ × List Text)
served none = none
served (some (c, params)) = some (biz_info c, params)

match_tests :
    (served (trie_match (codes "GET/a/b?x=/y") sample) ≡ some (some 1, []))
    × (served (trie_match (codes "GET/a/7") sample) ≡ some (some 2, codes "7" ∷ []))
    × (served (trie_match (codes "GET/a") sample) ≡ some (some 3, []))
    × (served (trie_match (codes "GET/a/b/c") sample) ≡ some (some 3, []))
    × (served (trie_match (codes "PUT/a") sample) ≡ none)
unfolding program
match_tests = (refl, refl, refl, refl, refl)

trie_put-stored_example :
    route (path_of (codes "GET/x/:y")) (trie_put (codes "GET/x/:y") (some 9) sample).0 ≡ some 9
unfolding program
trie_put-stored_example = trie_put-stored (codes "GET/x/:y") 9 sample tt refl

trie_put-refused_example :
    route (path_of (codes "GET/a/b")) (trie_put (codes "GET/a/:x") (some 9) sample).0
    ≡ route (path_of (codes "GET/a/b")) sample
unfolding program
trie_put-refused_example =
    trie_put-refused (codes "GET/a/:x") 9 sample (path_of (codes "GET/a/b")) tt refl

trie_put-other_example :
    route (path_of (codes "GET/a")) (trie_put (codes "GET/a/x") (some 9) sample).0
    ≡ route (path_of (codes "GET/a")) sample
unfolding program
trie_put-other_example =
    trie_put-other (codes "GET/a/x") 9 sample (path_of (codes "GET/a")) tt (λ same. cc)

abbrev node_of : Option (Node ℕ × List Text) → Node ℕ
node_of none = empty
node_of (some (c, params)) = c

-- The node of `GET/a/:id`, of `GET/a/b` and of `GET/a/**`.
abbrev variable_node : Node ℕ
unfolding program
variable_node = node_of (trie_match (codes "GET/a/7") sample)

abbrev literal_node : Node ℕ
unfolding program
literal_node = node_of (trie_match (codes "GET/a/b") sample)

abbrev all_node : Node ℕ
unfolding program
all_node = node_of (trie_match (codes "GET/a") sample)

-- Refuses the node of `GET/a/**` alone.
abbrev not_third : Node ℕ → Bool
not_third c = elim (biz_info c) [ none ↦ true | some b ↦ if b == 3 then false else true ]

match_with_predicate_sound_example :
    (pat : List Token) × Matches pat (parts_of (codes "GET/a/7"))
    × (route_at pat sample ≡ ptr variable_node)
    × (accepts {B = ℕ} none variable_node ≡ true)
    × (codes "7" ∷ [] ≡ captured pat (parts_of (codes "GET/a/7")))
unfolding program
match_with_predicate_sound_example =
    match_with_predicate_sound none (codes "GET/a/7") sample variable_node (codes "7" ∷ []) refl

match_with_predicate_complete_example : accepts (some not_third) all_node ≡ false
unfolding program
match_with_predicate_complete_example =
    match_with_predicate_complete (some not_third) (codes "GET/a/b/c") sample
      (lit (codes "GET") ∷ lit (codes "a") ∷ all ∷ []) all_node refl (refl, (refl, tt)) refl

match_with_predicate-literal_example :
    match_with_predicate (codes "GET/a/b") none sample ≡ some (literal_node, [])
unfolding program
match_with_predicate-literal_example =
    match_with_predicate-literal none (codes "GET/a/b") sample literal_node refl refl

trie_put-trie_match_example :
    trie_match (codes "GET/x/5") (trie_put (codes "GET/x/:y") (some 9) sample).0 ≢ none
unfolding program
trie_put-trie_match_example =
    trie_put-trie_match (codes "GET/x/:y") (codes "GET/x/5") 9 sample tt refl (refl, (refl, tt))

trie_remove-gone_example :
    route (path_of (codes "GET/a/b")) (trie_remove (codes "GET/a/b") sample).0 ≡ none
unfolding program
trie_remove-gone_example = trie_remove-gone (codes "GET/a/b") sample tt (λ h. h)

trie_remove-other_example :
    route (path_of (codes "GET/a")) (trie_remove (codes "GET/a/b") sample).0
    ≡ route (path_of (codes "GET/a")) sample
unfolding program
trie_remove-other_example =
    trie_remove-other (codes "GET/a/b") sample (path_of (codes "GET/a")) tt (λ h. h) (λ same. cc)

trie_remove-all_kept_example :
    route (path_of (codes "GET/a/**")) (trie_remove (codes "GET/a/**") sample).0
    ≡ route (path_of (codes "GET/a/**")) sample
unfolding program
trie_remove-all_kept_example =
    trie_remove-all_kept (codes "GET/a/**") sample (path_of (codes "GET/a/**")) tt
