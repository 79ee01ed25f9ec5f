-- ===== src/Router/Trie/RemoveRoutes.antt =====
-- What the write of `Remove` does to the map of routes.
use dubbo_go_pixiu.Prelude.{
  Bool, true, false, ◌≡◌, refl, ◌≢◌, inl, inr, Option, none, List, [], ◌∷◌, ap, sym, ◌∙◌,
  Bool-cases, if◌then◌else◌,
}
use dubbo_go_pixiu.Prelude.Text.{Text, text_eq, text_eq_iff, text_eq_refl}
use dubbo_go_pixiu.Router.Trie.Node.{Node, node, Slot, nil, ptr, end_of_path, set_end}
use dubbo_go_pixiu.Router.Trie.Get.{on_node, write_got}
use dubbo_go_pixiu.Router.Trie.Paths.{
  Token, lit, var, token, tokens, EndsInAll, token-cases, IsPath, IsPath-tail, all_last, route_at,
  route, biz_of,
}
use dubbo_go_pixiu.Router.Trie.PutSteps.{
  slot_route, write_variable, write_all, write_child, route-marks,
}

module _ {B : Type 0} where
  -- `Remove` behind the lookup.
  abbrev pub unmark : List Text → Node B → Node B
  unmark keys = write_got keys (set_end false)

  route-unmarked : (r : List Token) (c : Node B) → r ≢ [] → route r (set_end false c) ≡ route r c
  route-unmarked [] c h = absurd (h refl)
  route-unmarked (t ∷ r) (node s m c vs v a e x) h = route-marks t r _ _ _ _ _ _ _ _ _ _ _

  slot_route-unmarked :
      (r : List Token) (w : Slot B)
      → r ≢ []
      → slot_route r (on_node (set_end false) w) ≡ slot_route r w
  slot_route-unmarked r nil h = refl
  slot_route-unmarked r (ptr c) h = route-unmarked r c h

  slot_route-unmarked_end :
      (r : List Token) (w : Slot B)
      → r ≢ []
      → slot_route r (on_node (λ c. if end_of_path c then set_end false c else c) w)
        ≡ slot_route r w
  slot_route-unmarked_end r nil h = refl
  slot_route-unmarked_end r (ptr c) h = elim (Bool-cases (end_of_path c)) [
    | inl t ↦ rw t (route-unmarked r c h)
    | inr f ↦ rw f
  ]

  slot_route-on_node :
      (r : List Token) (f : Node B → Node B) (w : Slot B)
      → ((d : Node B) → route r (f d) ≡ route r d)
      → slot_route r (on_node f w) ≡ slot_route r w
  slot_route-on_node r f nil h = refl
  slot_route-on_node r f (ptr d) h = h d

  biz_of-unmarked : (w : Slot B) → biz_of (on_node (set_end false) w) ≡ biz_of w
  biz_of-unmarked nil = refl
  biz_of-unmarked (ptr (node s m c vs v a e x)) = refl

  child_written :
      (key k : Text) (r : List Token) (c : Text → Slot B) (w : Slot B)
      → (key ≡ k → slot_route r w ≡ slot_route r (c key))
      → slot_route r (if text_eq key k then w else c k) ≡ slot_route r (c k)
  child_written key k r c w h = elim (Bool-cases (text_eq key k)) [
    | inl same ↦
        let eq : key ≡ k = (text_eq_iff key k).0 same in
        rw same (h eq ∙ ap (λ (j : Text). slot_route r (c j)) eq)
    | inr other ↦ rw other
  ]

  -- A write below the literal `key`.
  write_literal :
      (key : Text) (m : Bool) (s : Text) (c : Text → Slot B) (vs : Option (List Text))
      (v a : Slot B) (e : Bool) (x : Option B) (w : Slot B) (q : List Token)
      → ((r : List Token) → q ≡ lit key ∷ r → slot_route r w ≡ slot_route r (c key))
      → route q (
          if m
          then node s m (λ k. if text_eq key k then w else c k) vs v a e x
          else node s m c vs v a e x)
        ≡ route q (node s m c vs v a e x)
  write_literal key false s c vs v a e x w q h = refl
  write_literal key true s c vs v a e x w q h = write_child s e x c _ vs v a q (λ k r er.
      child_written key k r c w (λ same. h r (er ∙ ap (λ (j : Text). lit j ∷ r) (sym same))))

  -- A removal changes no route of another path.
  pub unmark-keep :
      (keys : List Text) (n : Node B) (q : List Token)
      → q ≢ tokens keys
      → route q (unmark keys n) ≡ route q n
  unfolding write_got
  unmark-keep [] n q h = refl
  unmark-keep (key ∷ []) (node s m c vs v a e x) q h = elim (token-cases key) [
    | inl (hk, et) ↦ rw hk (
        write_variable s m e x c vs vs v _ a q
          (λ r er. slot_route-unmarked_end r v (λ nothing. h (er ∙ rw (et, nothing)))))
    | inr (inl (hk, hm, et)) ↦
        rw (hk, hm) (write_all s m e x c vs v a _ q (λ eq. absurd (h (eq ∙ rw et))))
    | inr (inr (hk, hm, et)) ↦
        rw (hk, hm)
          (write_literal key m s c vs v a e x _ q
            (λ r er. slot_route-unmarked r (c key) (λ nothing. h (er ∙ rw (et, nothing)))))
  ]
  unmark-keep (key ∷ next ∷ keys) (node s m c vs v a e x) q h = elim (token-cases key) [
    | inl (hk, et) ↦ rw hk (
        write_variable s m e x c vs vs v _ a q (λ r er.
          slot_route-on_node r _ v
            (λ d. unmark-keep (next ∷ keys) d r (λ same. h (er ∙ rw (et, same))))))
    | inr (inl (hk, hm, et)) ↦ rw (hk, hm)
    | inr (inr (hk, hm, et)) ↦
        rw (hk, hm)
          (write_literal key m s c vs v a e x _ q (λ r er.
            slot_route-on_node r _ (c key)
              (λ d. unmark-keep (next ∷ keys) d r (λ same. h (er ∙ rw (et, same))))))
  ]

  slot_route-on_node-none :
      (r : List Token) (f : Node B → Node B) (w : Slot B)
      → ((d : Node B) → route r (f d) ≡ none)
      → slot_route r (on_node f w) ≡ none
  slot_route-on_node-none r f nil h = refl
  slot_route-on_node-none r f (ptr d) h = h d

  slot_route-gone : (w : Slot B) → slot_route [] (on_node (set_end false) w) ≡ none
  unfolding route
  slot_route-gone nil = refl
  slot_route-gone (ptr (node s m c vs v a e x)) = refl

  slot_route-gone_end :
      (w : Slot B)
      → slot_route [] (on_node (λ c. if end_of_path c then set_end false c else c) w) ≡ none
  unfolding route
  slot_route-gone_end nil = refl
  slot_route-gone_end (ptr (node s m c vs v a true x)) = refl
  slot_route-gone_end (ptr (node s m c vs v a false x)) = refl

  route-var :
      (path : List Token) (s : Text) (m : Bool) (c : Text → Slot B) (vs : Option (List Text))
      (v a : Slot B) (e : Bool) (x : Option B)
      → route (var ∷ path) (node s m c vs v a e x) ≡ slot_route path v
  unfolding route
  route-var path s m c vs nil a e x = refl
  route-var path s m c vs (ptr d) a e x = refl

  -- The slot that a literal's route goes through, when it was written.
  route-lit_written :
      (key : Text) (path : List Token) (m : Bool) (s : Text) (c : Text → Slot B)
      (vs : Option (List Text)) (v a : Slot B) (e : Bool) (x : Option B) (w : Slot B)
      → slot_route path w ≡ none
      → route (lit key ∷ path) (
          if m
          then node s m (λ k. if text_eq key k then w else c k) vs v a e x
          else node s m c vs v a e x)
        ≡ none
  unfolding route
  route-lit_written key path false s c vs v a e x w h = refl
  route-lit_written key path true s c vs v a e x nil h = rw (text_eq_refl key, route_at)
  route-lit_written key path true s c vs v a e x (ptr d) h = rw (text_eq_refl key, route_at) h

  -- A removal takes the route of its path away, unless the path ends in `**`.
  pub unmark-gone :
      (keys : List Text) (n : Node B)
      → keys ≢ []
      → IsPath (tokens keys)
      → ¬ EndsInAll (tokens keys)
      → route (tokens keys) (unmark keys n) ≡ none
  unfolding write_got
  unmark-gone [] n some_key path h = absurd (some_key refl)
  unmark-gone (key ∷ []) (node s m c vs v a e x) some_key path h = elim (token-cases key) [
    | inl (hk, et) ↦ rw (hk, et) (route-var [] s m c vs _ a e x ∙ slot_route-gone_end v)
    | inr (inl (hk, hm, et)) ↦ absurd (h (rw et tt))
    | inr (inr (hk, hm, et)) ↦
        rw (hk, hm, et) (route-lit_written key [] m s c vs v a e x _ (slot_route-gone (c key)))
  ]
  unmark-gone (key ∷ next ∷ keys) (node s m c vs v a e x) some_key path h = elim (token-cases key) [
    | inl (hk, et) ↦
        rw (hk, et)
          (route-var (tokens (next ∷ keys)) s m c vs _ a e x
            ∙ slot_route-on_node-none (tokens (next ∷ keys)) _ v (λ d.
              unmark-gone (next ∷ keys) d (λ nothing. cc) (IsPath-tail (token key) _ path) h))
    | inr (inl (hk, hm, et)) ↦
        let nothing : tokens (next ∷ keys) ≡ [] = all_last _ (rw et at path) in cc
    | inr (inr (hk, hm, et)) ↦
        rw (hk, hm, et)
          (route-lit_written key (tokens (next ∷ keys)) m s c vs v a e x _ (
            slot_route-on_node-none (tokens (next ∷ keys)) _ (c key) (λ d.
              unmark-gone (next ∷ keys) d (λ nothing. cc) (IsPath-tail (token key) _ path) h)))
  ]

  -- A removal of a path that ends in `**` changes no route, its own included.
  pub unmark-all_kept :
      (keys : List Text) (n : Node B) (q : List Token)
      → EndsInAll (tokens keys)
      → route q (unmark keys n) ≡ route q n
  unfolding write_got
  unmark-all_kept [] n q h = absurd h
  unmark-all_kept (key ∷ []) (node s m c vs v a e x) q h = elim (token-cases key) [
    | inl (hk, et) ↦ absurd (rw et at h)
    | inr (inl (hk, hm, et)) ↦ rw (hk, hm) (write_all s m e x c vs v a _ q (λ _. biz_of-unmarked a))
    | inr (inr (hk, hm, et)) ↦ absurd (rw et at h)
  ]
  unmark-all_kept (key ∷ next ∷ keys) (node s m c vs v a e x) q h = elim (token-cases key) [
    | inl (hk, et) ↦ rw hk (
        write_variable s m e x c vs vs v _ a q
          (λ r _. slot_route-on_node r _ v (λ d. unmark-all_kept (next ∷ keys) d r h)))
    | inr (inl (hk, hm, et)) ↦ rw (hk, hm)
    | inr (inr (hk, hm, et)) ↦
        rw (hk, hm)
          (write_literal key m s c vs v a e x _ q
            (λ r _. slot_route-on_node r _ (c key) (λ d. unmark-all_kept (next ∷ keys) d r h)))
  ]
