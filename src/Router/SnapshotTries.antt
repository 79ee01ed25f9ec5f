-- ===== src/Router/SnapshotTries.antt =====
-- What the tries of a snapshot hold.
use dubbo_go_pixiu.Prelude.{
  Bool, true, false, ◌≡◌, refl, ◌≢◌, ◌↔◌, ◌⊎◌, inl, inr, Option, none, some, List, [], ◌∷◌, arith,
  sym, ◌∙◌, ap, Bool-cases, subst,
}
use dubbo_go_pixiu.Prelude.Dict.{lookup, or_default, lookup-store}
use dubbo_go_pixiu.Prelude.Text.{Text, text_eq, text_eq_iff}
use dubbo_go_pixiu.Router.Trie.Node.{Node, ptr, biz_info, empty}
use dubbo_go_pixiu.Router.Trie.Api.{trie_put, done}
use dubbo_go_pixiu.Router.Trie.Put.{internal_put}
use dubbo_go_pixiu.Util.StringUtil.{split}
use dubbo_go_pixiu.Router.Trie.Paths.{Token, lit, var, all, IsPath, route_at, route}
use dubbo_go_pixiu.Router.Trie.Laws.{path_of, trie_put-stored, trie_put-refused, trie_put-other}
use dubbo_go_pixiu.Router.Config.{Route, CompiledHeader, compile_headers}
use dubbo_go_pixiu.Router.Snapshot.{
  BizInfo, candidates, RouteSnapshot, add_method, add_methods, add_route, add_routes, to_snapshot,
  route_key, methods_of, is_header_only, trie_route_identity,
}

-- The routes of a trie all have candidates.
abbrev pub OnlyCandidates : Node BizInfo → Type 0
OnlyCandidates t =
    (q : List Token) (info : BizInfo)
    → route q t ≡ some info
    → (identity : Text) × (info ≡ candidates identity)

pub route-eq-some :
    (q : List Token) (t c : Node BizInfo) {info : BizInfo}
    → route_at q t ≡ ptr c
    → biz_info c ≡ some info
    → route q t ≡ some info
unfolding route
route-eq-some q t c stored known = rw (stored) known

pub route-empty : {B : Type 0} (q : List Token) → route q (empty {B = B}) ≡ none
unfolding route route_at
route-empty [] = refl
route-empty (all ∷ []) = refl
route-empty (all ∷ _ ∷ _) = refl
route-empty (var ∷ _) = refl
route-empty (lit _ ∷ _) = refl

same_token : Token → Token → Bool
same_token (lit a) (lit b) = text_eq a b
same_token var var = true
same_token all all = true
same_token _ _ = false

same_token_iff : (a b : Token) → (same_token a b ≡ true) ↔ (a ≡ b)
unfolding same_token
same_token_iff (lit a) (lit b) = ground (arith, text_eq_iff a b)
same_token_iff (lit a) var = ground arith
same_token_iff (lit a) all = ground arith
same_token_iff var (lit b) = ground arith
same_token_iff var var = ground arith
same_token_iff var all = ground arith
same_token_iff all (lit b) = ground arith
same_token_iff all var = ground arith
same_token_iff all all = ground arith

same_or_not : (p q : List Token) → (p ≡ q) ⊎ (p ≢ q)
same_or_not [] [] = inl refl
same_or_not [] (_ ∷ _) = inr (λ h. cc)
same_or_not (_ ∷ _) [] = inr (λ h. cc)
same_or_not (a ∷ p) (b ∷ q) = elim (Bool-cases (same_token a b)) [
  | inl t ↦
      let same = (same_token_iff a b).0 t in
      elim (same_or_not p q) [ inl e ↦ inl (cc) | inr ne ↦ inr (λ h. ne (cc)) ]
  | inr f ↦ inr (λ h. let e : a ≡ b = cc in let t = (same_token_iff a b).1 e in cc)
]

module _ {B : Type 0} where
  put_result :
      (key : Text) (b : B) (t : Node B)
      → ((trie_put key (some b) t).1 ≡ done true) ⊎ ((trie_put key (some b) t).1 ≡ done false)
  unfolding trie_put
  put_result key b t = elim (Bool-cases (internal_put (split key) b t).1) [
    | inl e ↦ inl (ap done e)
    | inr e ↦ inr (ap done e)
  ]

  -- What holds of the value that is put and of every value of a trie holds of every value after Put.
  pub trie_put-all :
      (P : B → Type 0) (key : Text) (b : B) (t : Node B)
      → IsPath (path_of key)
      → P b
      → ((q : List Token) (info : B) → route q t ≡ some info → P info)
      → (q : List Token) (info : B) → route q (trie_put key (some b) t).0 ≡ some info
      → P info
  trie_put-all P key b t h p only q info r = elim (same_or_not q (path_of key)) [
    | inl same ↦ elim (put_result key b t) [
      | inl ok ↦
          let stored = trie_put-stored key b t h ok in
          let e : some b ≡ some info = sym (rw same stored) ∙ r in
          let same_info : b ≡ info = cc in subst P same_info p
      | inr failed ↦ only q info (sym (trie_put-refused key b t q h failed) ∙ r)
    ]
    | inr other ↦ only q info (sym (trie_put-other key b t q h other) ∙ r)
  ]

trie_put-OnlyCandidates :
    (key identity : Text) (t : Node BizInfo)
    → IsPath (path_of key)
    → OnlyCandidates t
    → OnlyCandidates (trie_put key (some (candidates identity)) t).0
trie_put-OnlyCandidates key identity t h only =
    trie_put-all (λ info. (x : Text) × (info ≡ candidates x)) key (candidates identity) t h
      (identity, refl) only

found_or_empty :
    (o : Option (Node BizInfo))
    → ((t : Node BizInfo) → o ≡ some t → OnlyCandidates t)
    → OnlyCandidates (or_default empty o)
found_or_empty none h = λ q info r. cc (route-empty q)
found_or_empty (some t) h = h t refl

module _ {Re : Type 0} where
  abbrev pub AllOnlyCandidates : RouteSnapshot Re → Type 0
  AllOnlyCandidates s =
      (m : Text) (t : Node BizInfo) → lookup m s.method_tries ≡ some t → OnlyCandidates t

  -- In the keys of a route, `**` stands last or not at all.
  abbrev pub KeysArePaths : List Text → Route Re → Type 0
  KeysArePaths [] r = Unit {0}
  KeysArePaths (m ∷ ms) r = IsPath (path_of (route_key m r)) × KeysArePaths ms r

  abbrev pub RoutesArePaths : List (Route Re) → Type 0
  RoutesArePaths [] = Unit {0}
  RoutesArePaths (r ∷ rs) = KeysArePaths (methods_of r.rule.methods) r × RoutesArePaths rs

  add_method-OnlyCandidates :
      (m : Text) (r : Route Re) (headers : List (CompiledHeader Re)) (s : RouteSnapshot Re)
      → IsPath (path_of (route_key m r))
      → AllOnlyCandidates s
      → AllOnlyCandidates (add_method m r headers s)
  unfolding add_method
  add_method-OnlyCandidates m r headers s h only k t found =
      elim (lookup-store k m _ s.method_tries found) [
        | inl same ↦ subst OnlyCandidates (sym same) (
            trie_put-OnlyCandidates (route_key m r) (trie_route_identity (route_key m r))
              (or_default empty (lookup m s.method_tries)) h
              (found_or_empty (lookup m s.method_tries) (only m)))
        | inr before ↦ only k t before
      ]

  add_methods-OnlyCandidates :
      (ms : List Text) (r : Route Re) (headers : List (CompiledHeader Re)) (s : RouteSnapshot Re)
      → KeysArePaths ms r
      → AllOnlyCandidates s
      → AllOnlyCandidates (add_methods ms r headers s)
  unfolding add_methods
  add_methods-OnlyCandidates [] r headers s h only = only
  add_methods-OnlyCandidates (m ∷ ms) r headers s (h, hs) only =
      add_methods-OnlyCandidates ms r headers (add_method m r headers s) hs
        (add_method-OnlyCandidates m r headers s h only)

module _ {Re : Type 0} (compile : Text → Option Re) where
  add_route-OnlyCandidates :
      (r : Route Re) (s : RouteSnapshot Re)
      → KeysArePaths (methods_of r.rule.methods) r
      → AllOnlyCandidates s
      → AllOnlyCandidates (add_route compile r s)
  unfolding add_route
  add_route-OnlyCandidates r s h only = elim (Bool-cases (is_header_only r)) [
    | inl t ↦ rw t only
    | inr f ↦ rw f (
        add_methods-OnlyCandidates (methods_of r.rule.methods) r
          (compile_headers compile r.rule.headers) s h only)
  ]

  add_routes-OnlyCandidates :
      (rs : List (Route Re)) (s : RouteSnapshot Re)
      → RoutesArePaths rs
      → AllOnlyCandidates s
      → AllOnlyCandidates (add_routes compile rs s)
  unfolding add_routes
  add_routes-OnlyCandidates [] s h only = only
  add_routes-OnlyCandidates (r ∷ rs) s (h, hs) only =
      add_routes-OnlyCandidates rs (add_route compile r s) hs (add_route-OnlyCandidates r s h only)

  pub to_snapshot-OnlyCandidates :
      (rs : List (Route Re)) → RoutesArePaths rs → AllOnlyCandidates (to_snapshot compile rs)
  unfolding to_snapshot
  to_snapshot-OnlyCandidates rs h =
      add_routes-OnlyCandidates rs
        (record { method_tries = []; header_only = []; route_candidates = [] }) h (λ m t found. cc)
