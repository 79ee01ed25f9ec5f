-- ===== src/Router/Trie/PutRoutes.antt =====
-- `internalPut` as an insertion into the map of routes.
use dubbo_go_pixiu.Prelude.{
  Bool, true, false, ◌≡◌, refl, ◌≢◌, inl, inr, Option, List, [], ◌∷◌, ap, sym, subst, ◌∙◌,
  Bool-cases, ◌&&◌,
}
use dubbo_go_pixiu.Prelude.Text.{Text, text_eq, text_eq_iff, text_eq_refl}
use dubbo_go_pixiu.Router.Trie.Node.{
  Node, node, Slot, nil, ptr, end_of_path, new_node, or_new, is_set,
}
use dubbo_go_pixiu.Router.Trie.Put.{internal_put, is_last}
use dubbo_go_pixiu.Router.Trie.Paths.{
  Token, lit, var, all, token, tokens, token-cases, IsPath, IsPath-tail, all_last, route,
}
use dubbo_go_pixiu.Router.Trie.PutSteps.{
  slot_route, route-init_children, write_variable, write_all, write_child, literal_self, with_child,
  step_variable, step_literal, step_all, route-variable_self, route-literal_self,
}
use dubbo_go_pixiu.Util.StringUtil.{is_path_variable_or_wildcard, is_match_all}

module _ {B : Type 0} where
  route-conflict :
      (r : List Token) (w : Slot B) (str : Text) (last : Bool)
      → end_of_path (or_new w (new_node str false)) && last ≡ true
      → slot_route r (ptr (or_new w (new_node str false))) ≡ slot_route r w
  route-conflict r nil str last h = cc
  route-conflict r (ptr w) str last h = refl

  last-result :
      (keys : List Text) (b : B) (n : Node B)
      → is_last keys ≡ true
      → (tokens keys ≡ []) × ((internal_put keys b n).1 ≡ true)
  unfolding internal_put
  last-result [] b n h = (refl, refl)
  last-result (_ ∷ _) b n h = cc

  -- A path keeps its route, unless it is the path put and the put succeeds.
  abbrev Kept : List Text → B → Node B → List Token → Type 0
  Kept keys b n q =
      (q ≡ tokens keys → (internal_put keys b n).1 ≡ false)
      → route q (internal_put keys b n).0 ≡ route q n

  module _ (key : Text) (keys : List Text) (b : B) (s : Text) (c : Text → Slot B)
      (vs : Option (List Text)) (v a : Slot B) (e : Bool) (x : Option B)
      (ih : (r : List Token) (n : Node B) → Kept keys b n r) (q : List Token) where
    -- `ih` at the node that was entered, with the hypothesis for a longer path.
    below :
        (r : List Token) (n : Node B) (w : Slot B)
        → ((is_last keys ≡ true → r ≢ []) → route r n ≡ slot_route r w)
        → (r ≡ tokens keys → (internal_put keys b n).1 ≡ false)
        → slot_route r (ptr (internal_put keys b n).0) ≡ slot_route r w
    below r n w same h =
        ih r n h
        ∙ same (λ last nothing.
          let (none_left, ok) = last-result keys b n last in cc (h (nothing ∙ sym none_left), ok))

    keep_variable :
        is_path_variable_or_wildcard key ≡ true
        → (q ≡ var ∷ tokens keys
            → (internal_put (key ∷ keys) b (node s true c vs v a e x)).1 ≡ false)
        → route q (internal_put (key ∷ keys) b (node s true c vs v a e x)).0
          ≡ route q (node s true c vs v a e x)
    keep_variable hk h =
        elim (Bool-cases (end_of_path (or_new v (new_node [] false)) && is_last keys)) [
          | inl t ↦
              rw (step_variable key keys b s c vs v a e x hk, t)
                (write_variable s true e x c vs vs v _ a q
                  (λ r _. route-conflict r v [] (is_last keys) t))
          | inr f ↦
              rw (step_variable key keys b s c vs v a e x hk, f)
                (write_variable s true e x c vs _ v _ a q (λ r er.
                  below r _ v (route-variable_self key keys b s c vs v a e x r) (λ er'.
                    rw (step_variable key keys b s c vs v a e x hk, f) at
                      (h (er ∙ ap (λ (p : List Token). var ∷ p) er')))))
        ]

    keep_literal :
        is_path_variable_or_wildcard key ≡ false
        → is_match_all key ≡ false
        → (q ≡ lit key ∷ tokens keys
            → (internal_put (key ∷ keys) b (node s true c vs v a e x)).1 ≡ false)
        → route q (internal_put (key ∷ keys) b (node s true c vs v a e x)).0
          ≡ route q (node s true c vs v a e x)
    keep_literal hk hm h =
        elim (Bool-cases (
          is_set (c key)
          && end_of_path (or_new (c key) (new_node key (is_last keys)))
          && is_last keys)) [
            | inl t ↦ rw (step_literal key keys b s c vs v a e x hk hm, t)
            | inr f ↦
                rw (step_literal key keys b s c vs v a e x hk hm, f)
                  (write_child s e x c _ vs v a q (λ k r er. elim (Bool-cases (text_eq key k)) [
                    | inl same ↦
                        let key_is : key ≡ k = (text_eq_iff key k).0 same in
                        subst
                          (λ j.
                            slot_route r (
                              with_child key keys b s c vs v a e x
                                (internal_put keys b (literal_self key keys b s c vs v a e x)).0 j)
                            ≡ slot_route r (c j))
                          key_is
                          (rw (text_eq_refl key) (
                            below r _ (c key) (route-literal_self key keys b s c vs v a e x r)
                              (λ er'.
                                rw (step_literal key keys b s c vs v a e x hk hm, f) at
                                  (h (
                                    er
                                    ∙ ap (λ (p : List Token). lit k ∷ p) er'
                                    ∙ ap (λ (j : Text). lit j ∷ tokens keys) (sym key_is))))))
                    | inr other ↦ rw other
                  ]))
          ]

    keep_all :
        is_path_variable_or_wildcard key ≡ false
        → is_match_all key ≡ true
        → (q ≡ all ∷ [] → (internal_put (key ∷ keys) b (node s true c vs v a e x)).1 ≡ false)
        → route q (internal_put (key ∷ keys) b (node s true c vs v a e x)).0
          ≡ route q (node s true c vs v a e x)
    keep_all hk hm h =
        elim (Bool-cases
          (is_set a && end_of_path (or_new a (new_node key (is_last keys))) && is_last keys)) [
            | inl t ↦ rw (step_all key keys b s c vs v a e x hk hm, t)
            | inr f ↦
                rw (step_all key keys b s c vs v a e x hk hm, f)
                  (write_all s true e x c vs v a _ q
                    (λ eq. cc (rw (step_all key keys b s c vs v a e x hk hm, f) at (h eq))))
          ]

  pub internal_put_made :
      (key : Text) (keys : List Text) (b : B) (s : Text) (c : Text → Slot B)
      (vs : Option (List Text)) (v a : Slot B) (e : Bool) (x : Option B)
      → internal_put (key ∷ keys) b (node s false c vs v a e x)
        ≡ internal_put (key ∷ keys) b (node s true (λ _. nil) vs v a e x)
  unfolding internal_put
  internal_put_made key keys b s c vs v a e x = refl

  keep_made :
      (key : Text) (keys : List Text) (b : B) (s : Text) (c : Text → Slot B)
      (vs : Option (List Text)) (v a : Slot B) (e : Bool) (x : Option B)
      → ((r : List Token) (n : Node B) → Kept keys b n r)
      → (q : List Token) → IsPath (tokens (key ∷ keys))
      → Kept (key ∷ keys) b (node s true c vs v a e x) q
  keep_made key keys b s c vs v a e x ih q path h = elim (token-cases key) [
    | inl (hk, et) ↦
        keep_variable key keys b s c vs v a e x ih q hk
          (λ eq. h (eq ∙ ap (λ (t : Token). t ∷ tokens keys) (sym et)))
    | inr (inl (hk, hm, et)) ↦
        let nothing : tokens keys ≡ [] = all_last _ (rw et at path) in
        keep_all key keys b s c vs v a e x ih q hk hm (λ eq. h (eq ∙ rw (et, nothing)))
    | inr (inr (hk, hm, et)) ↦
        keep_literal key keys b s c vs v a e x ih q hk hm
          (λ eq. h (eq ∙ ap (λ (t : Token). t ∷ tokens keys) (sym et)))
  ]

  -- A put that finds its path taken changes no route, and one that succeeds changes its own alone.
  pub internal_put-keep :
      (keys : List Text) (b : B) (n : Node B) (q : List Token)
      → IsPath (tokens keys)
      → (q ≡ tokens keys → (internal_put keys b n).1 ≡ false)
      → route q (internal_put keys b n).0 ≡ route q n
  internal_put-keep [] b n q path h = unfold internal_put in route-init_children q n
  internal_put-keep (key ∷ keys) b (node s true c vs v a e x) q path h =
      keep_made key keys b s c vs v a e x
        (λ r n. internal_put-keep keys b n r (IsPath-tail (token key) (tokens keys) path)) q path h
  internal_put-keep (key ∷ keys) b (node s false c vs v a e x) q path h =
      let made = internal_put_made key keys b s c vs v a e x in
      rw made (
        keep_made key keys b s (λ _. nil) vs v a e x
          (λ r n. internal_put-keep keys b n r (IsPath-tail (token key) (tokens keys) path)) q path
          (λ eq. rw made at (h eq))
        ∙ route-init_children q (node s false c vs v a e x))
