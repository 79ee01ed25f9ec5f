-- ===== src/Cluster/Identity.antt =====
-- Identity of addresses, and the material from which IDs are generated.
use dubbo_go_pixiu.Prelude.{
  ℕ, true, ◌≡◌, refl, ◌↔◌, List, [], ◌∷◌, ◌++◌, ap₂, sym, ◌∙◌, length, arith, append_assoc,
  append-nil,
}
use dubbo_go_pixiu.Prelude.Text.{Text, text_eq_iff, codes}
use dubbo_go_pixiu.Prelude.Decimal.{itoa, itoa-injective, itoa-Without, Without}
use dubbo_go_pixiu.Cluster.Address.{
  SocketAddress, get_address, address_equal, upstream, same_upstream, upstream_in,
}
use dubbo_go_pixiu.Cluster.Endpoint.{
  Endpoint, endpoint_id_material_field, endpoint_id_material, newline, provider_of, api_key_of,
}

-- A text is read up to the first `c` in one way.
cut-injective :
    (c : ℕ) (s t : Text) {u v : Text}
    → Without c s
    → Without c t
    → s ++ c ∷ u ≡ t ++ c ∷ v
    → (s ≡ t) × (u ≡ v)
cut-injective c [] [] hs ht e = (refl, cc)
cut-injective c [] (d ∷ t) hs (hd, ht) e = absurd (hd (cc))
cut-injective c (d ∷ s) [] (hd, hs) ht e = absurd (hd (cc))
cut-injective c (a ∷ s) (b ∷ t) (ha, hs) (hb, ht) e =
    let (same, rest) = cut-injective c s t hs ht (cc) in
    (ap₂ (λ (x : ℕ) (xs : Text). x ∷ xs) (cc) same, rest)

-- Two texts of one length are read off the front in one way.
append-injective :
    (s t : Text) {u v : Text} → length s ≡ length t → s ++ u ≡ t ++ v → (s ≡ t) × (u ≡ v)
append-injective [] [] h e = (refl, e)
append-injective [] (_ ∷ _) h e = absurd (omega arith)
append-injective (_ ∷ _) [] h e = absurd (omega arith)
append-injective (a ∷ s) (b ∷ t) h e =
    let (same, rest) = append-injective s t (omega arith) (cc) in
    (ap₂ (λ (x : ℕ) (xs : Text). x ∷ xs) (cc) same, rest)

pub prefix-injective : (p : Text) {u v : Text} → p ++ u ≡ p ++ v → u ≡ v
prefix-injective p e = (append-injective p p refl e).1

-- A field is read off the front in one way, whatever its value holds.
field-injective :
    (name v w s t : Text)
    → endpoint_id_material_field name v ++ s ≡ endpoint_id_material_field name w ++ t
    → (v ≡ w) × (s ≡ t)
unfolding endpoint_id_material_field
field-injective name v w s t e =
    let e' : name ++ b':' ∷ (itoa (length v) ++ b':' ∷ (v ++ newline ∷ s))
        ≡ name ++ b':' ∷ (itoa (length w) ++ b':' ∷ (w ++ newline ∷ t)) =
      simp append_assoc at e in
    let numbered : itoa (length v) ++ b':' ∷ (v ++ newline ∷ s)
        ≡ itoa (length w) ++ b':' ∷ (w ++ newline ∷ t) =
      cc (prefix-injective name e') in
    let (same_number, valued) =
      cut-injective b':' (itoa (length v)) (itoa (length w))
        (itoa-Without b':' (length v) (omega arith)) (itoa-Without b':' (length w) (omega arith))
        numbered in
    let (same, rest) = append-injective v w (itoa-injective _ _ same_number) valued in
    (same, cc rest)

-- The material of an endpoint ID determines its four parts: no value, whatever bytes it holds, can
-- pass for a boundary between fields.
pub endpoint_id_material-injective :
    (cluster cluster' : Text) (e e' : Endpoint)
    → endpoint_id_material cluster e ≡ endpoint_id_material cluster' e'
    → (cluster ≡ cluster')
      × (get_address e.address ≡ get_address e'.address)
      × (provider_of e.llm_meta ≡ provider_of e'.llm_meta)
      × (api_key_of e.llm_meta ≡ api_key_of e'.llm_meta)
unfolding endpoint_id_material
endpoint_id_material-injective cluster cluster' e e' h =
    let (same_cluster, h₁) = field-injective (codes "cluster") cluster cluster' _ _ h in
    let (same_address, h₂) =
      field-injective (codes "address") (get_address e.address) (get_address e'.address) _ _ h₁ in
    let (same_provider, h₃) =
      field-injective (codes "llm_provider") (provider_of e.llm_meta) (provider_of e'.llm_meta) _ _
        h₂ in
    let same_key =
      (field-injective (codes "llm_api_key") (api_key_of e.llm_meta) (api_key_of e'.llm_meta) [] []
        (append-nil _ ∙ h₃ ∙ sym (append-nil _))).0 in
    (same_cluster, same_address, same_provider, same_key)

-- `Equal` compares upstreams: it holds of two addresses exactly when both name the same first domain,
-- or both have none and agree on address and port.
pub address_equal_iff :
    (a b : SocketAddress) → (address_equal a b ≡ true) ↔ (upstream a ≡ upstream b)
unfolding address_equal
address_equal_iff a b = go a.domains b.domains
  where
    go :
        (ds es : List Text)
        → (same_upstream ds es a b ≡ true) ↔ (upstream_in ds a ≡ upstream_in es b)
    go (d ∷ _) (e ∷ _) = ground (arith, text_eq_iff d e)
    go (d ∷ _) [] = ((λ h. cc), (λ h. cc))
    go [] (e ∷ _) = ((λ h. cc), (λ h. cc))
    go [] [] = ground (arith, text_eq_iff a.address b.address)
