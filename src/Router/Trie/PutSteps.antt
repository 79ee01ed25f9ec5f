-- ===== src/Router/Trie/PutSteps.antt =====
-- One step of `internalPut`, for each kind of key, and what a write to one slot does to the routes.
use dubbo_go_pixiu.Prelude.{
  Bool, true, false, ◌≡◌, refl, ◌≢◌, inl, inr, Option, none, some, List, [], ◌∷◌, ◌∙◌, Bool-cases,
  if◌then◌else◌, arith, ◌&&◌, ◌||◌,
}
use dubbo_go_pixiu.Prelude.Text.{Text, text_eq, text_eq_refl}
use dubbo_go_pixiu.Router.Trie.Node.{
  Node, node, Slot, nil, ptr, end_of_path, init_children, new_node, or_new, set_end, set_biz_info,
  set_match_str, names_of, is_set,
}
use dubbo_go_pixiu.Router.Trie.Put.{put, internal_put, is_last}
use dubbo_go_pixiu.Router.Trie.Paths.{Token, lit, var, all, route, biz_of}
use dubbo_go_pixiu.Util.StringUtil.{is_path_variable_or_wildcard, is_match_all, variable_name}

module _ {B : Type 0} where
  -- The routes below a slot.
  abbrev pub slot_route : List Token → Slot B → Option B
  slot_route q nil = none
  slot_route q (ptr c) = route q c

  pub route-init_children : (q : List Token) (n : Node B) → route q (init_children n) ≡ route q n
  unfolding route
  route-init_children q (node s true c vs v a e x) = refl
  route-init_children [] (node s false c vs v a e x) = ground arith
  route-init_children (all ∷ []) (node s false c vs v a e x) = refl
  route-init_children (all ∷ _ ∷ _) (node s false c vs v a e x) = refl
  route-init_children (var ∷ q) (node s false c vs v a e x) = refl
  route-init_children (lit k ∷ q) (node s false c vs v a e x) = refl

  -- A new node that is not an end holds no route.
  pub route-new_node : (q : List Token) (s : Text) → route q (new_node {B = B} s false) ≡ none
  unfolding route
  route-new_node [] s = refl
  route-new_node (all ∷ []) s = refl
  route-new_node (all ∷ _ ∷ _) s = refl
  route-new_node (var ∷ q) s = refl
  route-new_node (lit k ∷ q) s = refl

  -- The routes that a write to one slot leaves alone.
  module _ (s : Text) (m : Bool) (e : Bool) (x : Option B) where
    pub write_variable :
        (c : Text → Slot B) (vs vs' : Option (List Text)) (v v' a : Slot B) (q : List Token)
        → ((r : List Token) → q ≡ var ∷ r → slot_route r v' ≡ slot_route r v)
        → route q (node s m c vs' v' a e x) ≡ route q (node s m c vs v a e x)
    unfolding route
    write_variable c vs vs' v v' a [] h = ground arith
    write_variable c vs vs' v v' a (all ∷ []) h = refl
    write_variable c vs vs' v v' a (all ∷ _ ∷ _) h = refl
    write_variable c vs vs' v v' a (lit k ∷ q) h = refl
    write_variable c vs vs' nil nil a (var ∷ q) h = h q refl
    write_variable c vs vs' nil (ptr _) a (var ∷ q) h = h q refl
    write_variable c vs vs' (ptr _) nil a (var ∷ q) h = h q refl
    write_variable c vs vs' (ptr _) (ptr _) a (var ∷ q) h = h q refl

    pub write_all :
        (c : Text → Slot B) (vs : Option (List Text)) (v a a' : Slot B) (q : List Token)
        → (q ≡ all ∷ [] → biz_of a' ≡ biz_of a)
        → route q (node s m c vs v a' e x) ≡ route q (node s m c vs v a e x)
    unfolding route
    write_all c vs v a a' [] h = ground arith
    write_all c vs v a a' (all ∷ []) h = h refl
    write_all c vs v a a' (all ∷ _ ∷ _) h = refl
    write_all c vs v a a' (lit k ∷ q) h = refl
    write_all c vs v a a' (var ∷ q) h = refl

  pub write_child :
      (s : Text) (e : Bool) (x : Option B) (c c' : Text → Slot B) (vs : Option (List Text))
      (v a : Slot B) (q : List Token)
      → ((k : Text) (r : List Token) → q ≡ lit k ∷ r → slot_route r (c' k) ≡ slot_route r (c k))
      → route q (node s true c' vs v a e x) ≡ route q (node s true c vs v a e x)
  unfolding route
  write_child s e x c c' vs v a [] h = ground arith
  write_child s e x c c' vs v a (all ∷ []) h = refl
  write_child s e x c c' vs v a (all ∷ _ ∷ _) h = refl
  write_child s e x c c' vs v a (var ∷ q) h = refl
  write_child s e x c c' vs v a (lit k ∷ q) h = ground (arith, h k q refl)

  -- The marks of a node do not count below it.
  pub route-marks :
      (t : Token) (q : List Token) (s s' : Text) (m : Bool) (c : Text → Slot B)
      (vs : Option (List Text)) (v a : Slot B) (e e' : Bool) (x x' : Option B)
      → route (t ∷ q) (node s m c vs v a e x) ≡ route (t ∷ q) (node s' m c vs v a e' x')
  unfolding route
  route-marks all [] s s' m c vs v a e e' x x' = refl
  route-marks all (_ ∷ _) s s' m c vs v a e e' x x' = refl
  route-marks var q s s' m c vs v a e e' x x' = refl
  route-marks (lit k) q s s' m c vs v a e e' x x' = refl

  -- `put` on a slot changes no route below it, but the one that ends there if the key is the last.
  pub route-entered :
      (last : Bool) (str : Text) (b : B) (v : Slot B) (q : List Token)
      → (last ≡ true → q ≢ [])
      → let old = or_new v (new_node [] false) in
        route q (
          set_end
            (end_of_path old || last)
            (if last then set_match_str str (set_biz_info b old) else old))
        ≡ slot_route q v
  route-entered false str b nil q h = route-new_node q []
  route-entered false str b (ptr (node s m c vs v a true x)) q h = refl
  route-entered false str b (ptr (node s m c vs v a false x)) q h = refl
  route-entered true str b v [] h = absurd (h refl refl)
  route-entered true str b nil (t ∷ q) h =
      route-marks t q _ _ _ _ _ _ _ _ _ _ _ ∙ route-new_node (t ∷ q) []
  route-entered true str b (ptr (node s m c vs v a e x)) (t ∷ q) h =
      route-marks t q _ _ _ _ _ _ _ _ _ _ _

  route-entered_literal :
      (last : Bool) (key : Text) (b : B) (w : Slot B) (q : List Token)
      → (last ≡ true → q ≢ [])
      → let old = or_new w (new_node key last) in
        route q (set_end (last || end_of_path old) (if last then set_biz_info b old else old))
        ≡ slot_route q w
  route-entered_literal false key b nil q h = route-new_node q key
  route-entered_literal false key b (ptr (node s m c vs v a e x)) q h = refl
  route-entered_literal true key b w [] h = absurd (h refl refl)
  route-entered_literal true key b nil (t ∷ q) h =
      route-marks t q _ _ _ _ _ _ _ _ _ _ _ ∙ route-new_node (t ∷ q) key
  route-entered_literal true key b (ptr (node s m c vs v a e x)) (t ∷ q) h =
      route-marks t q _ _ _ _ _ _ _ _ _ _ _

  -- The last key leaves its node as the end of a path, with what was put.
  route-entered_end :
      (last : Bool) (str : Text) (b : B) (v : Slot B)
      → last ≡ true
      → let old = or_new v (new_node [] false) in
        route [] (
          set_end
            (end_of_path old || last)
            (if last then set_match_str str (set_biz_info b old) else old))
        ≡ some b
  unfolding route
  route-entered_end false str b v h = cc
  route-entered_end true str b nil h = refl
  route-entered_end true str b (ptr (node s m c vs v a true x)) h = refl
  route-entered_end true str b (ptr (node s m c vs v a false x)) h = refl

  route-entered_literal_end :
      (last : Bool) (key : Text) (b : B) (w : Slot B)
      → last ≡ true
      → let old = or_new w (new_node key last) in
        route [] (set_end (last || end_of_path old) (if last then set_biz_info b old else old))
        ≡ some b
  unfolding route
  route-entered_literal_end false key b w h = cc
  route-entered_literal_end true key b nil h = refl
  route-entered_literal_end true key b (ptr (node s m c vs v a e x)) h = refl

  biz-all_self :
      (last : Bool) (key : Text) (b : B) (w : Slot B)
      → last ≡ true
      → let old = or_new w (new_node key last) in
        let self = if last then set_biz_info b old else old in
        biz_of (ptr (set_end (end_of_path self || end_of_path old) self)) ≡ some b
  biz-all_self false key b w h = cc
  biz-all_self true key b nil h = refl
  biz-all_self true key b (ptr (node s m c vs v a e x)) h = refl

  -- One step of `internalPut`, for each kind of key.
  module _ (key : Text) (keys : List Text) (b : B) (s : Text) (c : Text → Slot B)
      (vs : Option (List Text)) (v a : Slot B) (e : Bool) (x : Option B) where
    abbrev pub variable_self : Node B
    variable_self =
        let old = or_new v (new_node [] false) in
        set_end (end_of_path old || is_last keys)
          (if is_last keys then set_match_str (variable_name key) (set_biz_info b old) else old)

    pub step_variable :
        is_path_variable_or_wildcard key ≡ true
        → internal_put (key ∷ keys) b (node s true c vs v a e x) ≡ (
            if end_of_path (or_new v (new_node [] false)) && is_last keys
            then (node s true c vs (ptr (or_new v (new_node [] false))) a e x, false)
            else (
              node s true c
                  (some (variable_name key ∷ names_of vs))
                  (ptr (internal_put keys b variable_self).0)
                  a
                  e
                  x,
              (internal_put keys b variable_self).1,
            ))
    unfolding internal_put put
    step_variable h =
        elim (Bool-cases (end_of_path (or_new v (new_node [] false)) && is_last keys)) [
          | inl t ↦ rw (h, t)
          | inr f ↦ rw (h, f)
        ]

    -- A route below the variable is what it was, but at the variable's own end.
    pub route-variable_self :
        (q : List Token) → (is_last keys ≡ true → q ≢ []) → route q variable_self ≡ slot_route q v
    route-variable_self q h = route-entered (is_last keys) (variable_name key) b v q h

    pub route-variable_self_end : is_last keys ≡ true → route [] variable_self ≡ some b
    route-variable_self_end h = route-entered_end (is_last keys) (variable_name key) b v h

    abbrev pub literal_self : Node B
    literal_self =
        let old = or_new (c key) (new_node key (is_last keys)) in
        set_end (is_last keys || end_of_path old) (if is_last keys then set_biz_info b old else old)

    pub route-literal_self :
        (q : List Token)
        → (is_last keys ≡ true → q ≢ [])
        → route q literal_self ≡ slot_route q (c key)
    route-literal_self q h = route-entered_literal (is_last keys) key b (c key) q h

    pub route-literal_self_end : is_last keys ≡ true → route [] literal_self ≡ some b
    route-literal_self_end h = route-entered_literal_end (is_last keys) key b (c key) h

    -- The children when the node under `key` is `child`.
    abbrev pub with_child : Node B → Text → Slot B
    with_child child k =
        if text_eq key k then ptr child else if text_eq key k then ptr literal_self else c k

    pub step_literal :
        is_path_variable_or_wildcard key ≡ false
        → is_match_all key ≡ false
        → internal_put (key ∷ keys) b (node s true c vs v a e x) ≡ (
            if is_set (c key)
              && end_of_path (or_new (c key) (new_node key (is_last keys)))
              && is_last keys
            then (node s true c vs v a e x, false)
            else (
              node s true (with_child (internal_put keys b literal_self).0) vs v a e x,
              (internal_put keys b literal_self).1,
            ))
    unfolding internal_put put
    step_literal h m =
        elim (Bool-cases (
          is_set (c key)
          && end_of_path (or_new (c key) (new_node key (is_last keys)))
          && is_last keys)) [ inl t ↦ rw (h, m, t) | inr f ↦ rw (h, m, f, text_eq_refl key) ]

    abbrev pub all_self : Node B
    all_self =
        let old = or_new a (new_node key (is_last keys)) in
        let self = if is_last keys then set_biz_info b old else old in
        set_end (end_of_path self || end_of_path old) self

    pub route-all_self : is_last keys ≡ true → biz_of (ptr all_self) ≡ some b
    route-all_self h = biz-all_self (is_last keys) key b a h

    pub step_all :
        is_path_variable_or_wildcard key ≡ false
        → is_match_all key ≡ true
        → internal_put (key ∷ keys) b (node s true c vs v a e x) ≡ (
            if is_set a && end_of_path (or_new a (new_node key (is_last keys))) && is_last keys
            then (node s true c vs v a e x, false)
            else (node s true c vs v (ptr all_self) e x, true))
    unfolding internal_put put
    step_all h m =
        elim (Bool-cases
          (is_set a && end_of_path (or_new a (new_node key (is_last keys))) && is_last keys)) [
            | inl t ↦ rw (h, m, t)
            | inr f ↦ rw (h, m, f)
          ]
