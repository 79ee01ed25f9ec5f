-- ===== src/Router/Trie/GetRoutes.antt =====
-- `Get` and `Remove` against the map of routes.
use dubbo_go_pixiu.Prelude.{
  true, false, ◌≡◌, refl, ◌≢◌, inl, inr, List, [], ◌∷◌, ap, ◌∙◌, if◌then◌else◌,
}
use dubbo_go_pixiu.Prelude.Text.{Text}
use dubbo_go_pixiu.Router.Trie.Node.{Node, node, Slot, nil, ptr, has_children, children, child_at}
use dubbo_go_pixiu.Router.Trie.Get.{Got, got, get, get_end, under_variable}
use dubbo_go_pixiu.Router.Trie.Paths.{
  token, tokens, token-cases, IsPath, IsPath-tail, all_last, route_at, through_literal,
  through_variable, end_of_route,
}

module _ {B : Type 0} where
  -- The node that a lookup returns.
  abbrev pub got_node : Got B → Slot B
  got_node (got c names ok) = c
  got_node _ = nil

  got_node-under_variable : (key : Text) (r : Got B) → got_node (under_variable key r) ≡ got_node r
  got_node-under_variable key Got.error = refl
  got_node-under_variable key (got c names ok) = refl

  got_child :
      (key : Text) (n : Node B)
      → got_node (if has_children n then got (children n key) [] true else got nil [] false)
        ≡ child_at key n
  got_child key (node s true c vs v a e x) = refl
  got_child key (node s false c vs v a e x) = refl

  -- A lookup finds every stored route.
  pub get-route_at :
      (keys : List Text) (n c : Node B)
      → keys ≢ []
      → IsPath (tokens keys)
      → route_at (tokens keys) n ≡ ptr c
      → got_node (get keys n) ≡ ptr c
  unfolding get
  get-route_at [] n c some_key path h = absurd (some_key refl)
  get-route_at (key ∷ []) n c some_key path h = elim (token-cases key) [
    | inl (hk, et) ↦
        let (d, e, at) = through_variable [] n c (rw et at h) in
        let (ends, same) = end_of_route d c at in
        unfold get_end in rw (hk, e, get_end) (rw ends (ap ptr same))
    | inr (inl (hk, hm, et)) ↦ unfold get_end route_at in rw (hk, hm) (rw et at h)
    | inr (inr (hk, hm, et)) ↦
        let (d, e, at) = through_literal key [] n c (rw et at h) in
        let (ends, same) = end_of_route d c at in
        unfold get_end in rw (hk, hm) (got_child key n ∙ e ∙ ap ptr same)
  ]
  get-route_at (key ∷ next ∷ keys) n c some_key path h = elim (token-cases key) [
    | inl (hk, et) ↦
        let (d, e, at) = through_variable (tokens (next ∷ keys)) n c (rw et at h) in
        rw (hk, e, get)
          (got_node-under_variable key (get (next ∷ keys) d)
            ∙ get-route_at (next ∷ keys) d c (λ nothing. cc) (IsPath-tail (token key) _ path) at)
    | inr (inl (hk, hm, et)) ↦
        let nothing : tokens (next ∷ keys) ≡ [] = all_last _ (rw et at path) in cc
    | inr (inr (hk, hm, et)) ↦
        let (d, e, at) = through_literal key (tokens (next ∷ keys)) n c (rw et at h) in
        rw (hk, hm, e, get)
          (get-route_at (next ∷ keys) d c (λ nothing. cc) (IsPath-tail (token key) _ path) at)
  ]
