-- ===== src/Router/Trie/PutStores.antt =====
-- What a successful `internalPut` stores.
use dubbo_go_pixiu.Prelude.{
  Bool, true, false, ◌≡◌, refl, inl, inr, Option, some, List, [], ◌∷◌, ◌∙◌, Bool-cases, arith, ◌&&◌,
}
use dubbo_go_pixiu.Prelude.Text.{Text, text_eq_refl}
use dubbo_go_pixiu.Router.Trie.Node.{
  Node, node, Slot, nil, ptr, end_of_path, new_node, or_new, is_set,
}
use dubbo_go_pixiu.Router.Trie.Put.{internal_put, is_last}
use dubbo_go_pixiu.Router.Trie.Paths.{
  Token, lit, var, all, token, tokens, token-cases, IsPath, IsPath-tail, all_last, route,
}
use dubbo_go_pixiu.Router.Trie.PutSteps.{
  slot_route, route-init_children, variable_self, literal_self, with_child, step_variable,
  step_literal, step_all, route-literal_self_end, route-variable_self_end, route-all_self,
}
use dubbo_go_pixiu.Util.StringUtil.{is_path_variable_or_wildcard, is_match_all}
use dubbo_go_pixiu.Router.Trie.PutRoutes.{internal_put_made}

module _ {B : Type 0} where
  -- At the last key the node below is the one that was marked.
  stores_below :
      (keys : List Text) (b : B) (self : Node B)
      → (is_last keys ≡ true → route [] self ≡ some b)
      → (is_last keys ≡ false
          → (internal_put keys b self).1 ≡ true
          → route (tokens keys) (internal_put keys b self).0 ≡ some b)
      → (internal_put keys b self).1 ≡ true
      → route (tokens keys) (internal_put keys b self).0 ≡ some b
  stores_below [] b self last ih h =
      unfold internal_put in (route-init_children [] self ∙ last refl)
  stores_below (_ ∷ _) b self last ih h = ih refl h

  abbrev Stored : List Text → B → Node B → Type 0
  Stored keys b n =
      (internal_put keys b n).1 ≡ true → route (tokens keys) (internal_put keys b n).0 ≡ some b

  route-lit :
      (key : Text) (path : List Token) (s : Text) (c : Text → Slot B) (vs : Option (List Text))
      (v a : Slot B) (e : Bool) (x : Option B) (child : Slot B)
      → c key ≡ child
      → route (lit key ∷ path) (node s true c vs v a e x) ≡ slot_route path child
  unfolding route
  route-lit key path s c vs v a e x nil h = ground arith
  route-lit key path s c vs v a e x (ptr child) h = ground arith

  module _ (key : Text) (keys : List Text) (b : B) (s : Text) (c : Text → Slot B)
      (vs : Option (List Text)) (v a : Slot B) (e : Bool) (x : Option B) where
    store_variable :
        is_path_variable_or_wildcard key ≡ true
        → ((n : Node B) → is_last keys ≡ false → Stored keys b n)
        → (internal_put (key ∷ keys) b (node s true c vs v a e x)).1 ≡ true
        → route (var ∷ tokens keys) (internal_put (key ∷ keys) b (node s true c vs v a e x)).0
          ≡ some b
    store_variable hk ih h =
        elim (Bool-cases (end_of_path (or_new v (new_node [] false)) && is_last keys)) [
          | inl t ↦ cc (rw (step_variable key keys b s c vs v a e x hk, t) at h)
          | inr f ↦
              rw (step_variable key keys b s c vs v a e x hk, f)
                (unfold route in
                  stores_below keys b (variable_self key keys b s c vs v a e x)
                    (route-variable_self_end key keys b s c vs v a e x) (ih _)
                    (rw (step_variable key keys b s c vs v a e x hk, f) at h))
        ]

    store_literal :
        is_path_variable_or_wildcard key ≡ false
        → is_match_all key ≡ false
        → ((n : Node B) → is_last keys ≡ false → Stored keys b n)
        → (internal_put (key ∷ keys) b (node s true c vs v a e x)).1 ≡ true
        → route (lit key ∷ tokens keys) (internal_put (key ∷ keys) b (node s true c vs v a e x)).0
          ≡ some b
    store_literal hk hm ih h =
        elim (Bool-cases (
          is_set (c key)
          && end_of_path (or_new (c key) (new_node key (is_last keys)))
          && is_last keys)) [
            | inl t ↦ cc (rw (step_literal key keys b s c vs v a e x hk hm, t) at h)
            | inr f ↦
                let child = (internal_put keys b (literal_self key keys b s c vs v a e x)).0 in
                let written : with_child key keys b s c vs v a e x child key ≡ ptr child =
                  rw (text_eq_refl key) in
                rw (step_literal key keys b s c vs v a e x hk hm, f)
                  (route-lit key (tokens keys) s (with_child key keys b s c vs v a e x child) vs v a
                      e x (ptr child) written
                    ∙ stores_below keys b (literal_self key keys b s c vs v a e x)
                        (route-literal_self_end key keys b s c vs v a e x) (ih _)
                        (rw (step_literal key keys b s c vs v a e x hk hm, f) at h))
          ]

    store_all :
        is_path_variable_or_wildcard key ≡ false
        → is_match_all key ≡ true
        → is_last keys ≡ true
        → (internal_put (key ∷ keys) b (node s true c vs v a e x)).1 ≡ true
        → route (all ∷ []) (internal_put (key ∷ keys) b (node s true c vs v a e x)).0 ≡ some b
    store_all hk hm last h =
        elim (Bool-cases
          (is_set a && end_of_path (or_new a (new_node key (is_last keys))) && is_last keys)) [
            | inl t ↦ cc (rw (step_all key keys b s c vs v a e x hk hm, t) at h)
            | inr f ↦
                rw (step_all key keys b s c vs v a e x hk hm, f)
                  (unfold route in route-all_self key keys b s c vs v a e x last)
          ]

    store_made :
        ((n : Node B) → is_last keys ≡ false → Stored keys b n)
        → IsPath (tokens (key ∷ keys))
        → Stored (key ∷ keys) b (node s true c vs v a e x)
    store_made ih path h = elim (token-cases key) [
      | inl (hk, et) ↦ rw et (store_variable hk ih h)
      | inr (inl (hk, hm, et)) ↦
          let nothing : tokens keys ≡ [] = all_last _ (rw et at path) in
          rw (et, nothing) (store_all hk hm (is_last_of keys nothing) h)
      | inr (inr (hk, hm, et)) ↦ rw et (store_literal hk hm ih h)
    ]
      where
        is_last_of : (ks : List Text) → tokens ks ≡ [] → is_last ks ≡ true
        is_last_of [] _ = refl
        is_last_of (_ ∷ _) h = cc

  stores :
      (keys : List Text) (b : B) (n : Node B)
      → is_last keys ≡ false
      → IsPath (tokens keys)
      → Stored keys b n
  stores [] b n more path h = cc
  stores (key ∷ keys) b (node s true c vs v a e x) more path h =
      store_made key keys b s c vs v a e x
        (λ n some_left. stores keys b n some_left (IsPath-tail (token key) (tokens keys) path)) path
        h
  stores (key ∷ keys) b (node s false c vs v a e x) more path h =
      let made = internal_put_made key keys b s c vs v a e x in
      rw made (
        store_made key keys b s (λ _. nil) vs v a e x
          (λ n some_left. stores keys b n some_left (IsPath-tail (token key) (tokens keys) path))
          path (rw made at h))

  -- A put that succeeds stores its value at its path.
  pub internal_put-store :
      (key : Text) (keys : List Text) (b : B) (n : Node B)
      → IsPath (tokens (key ∷ keys))
      → (internal_put (key ∷ keys) b n).1 ≡ true
      → route (tokens (key ∷ keys)) (internal_put (key ∷ keys) b n).0 ≡ some b
  internal_put-store key keys b n path h = stores (key ∷ keys) b n refl path h
