-- ===== src/Manager/Content.antt =====
-- `endpointContentEqualForSet` and what it is made of. `reflect.DeepEqual` on the model's metadata is a
-- parameter. A Go map is a list of entries with distinct keys.
use dubbo_go_pixiu.Prelude.{
  suc, Bool, true, false, not, ◌||◌, ◌≡◌, refl, Option, none, some, List, [], ◌∷◌, length, arith,
  ◌==◌, ==_iff, if◌then◌else◌, Bool-cases, inl, inr, ap, ap₂, sym, ◌∙◌, ◌↔◌, ◌⊎◌,
}
use dubbo_go_pixiu.Prelude.Text.{Text, text_eq, text_eq_iff, text_eq_refl}
use dubbo_go_pixiu.Prelude.Dict.{Keyed, lookup, erase, lookup-erase}
use dubbo_go_pixiu.Cluster.Address.{SocketAddress}
use dubbo_go_pixiu.Cluster.Endpoint.{LlmMeta, Endpoint}

-- The loop over two slices of the same length.
unfoldable pub same_items : List Text → List Text → Bool
same_items [] ys = true
same_items (a ∷ xs) [] = false
same_items (a ∷ xs) (b ∷ ys) = if not (text_eq a b) then false else same_items xs ys

-- `socketAddressContentEqual`.
unfoldable pub socket_address_content_equal : SocketAddress → SocketAddress → Bool
socket_address_content_equal a b =
    if not (text_eq a.address b.address) || not (a.port == b.port)
    then false
    else if not (text_eq a.resolver_name b.resolver_name) || not (text_eq a.certs_dir b.certs_dir)
    then false
    else if not (length a.domains == length b.domains)
    then false
    else same_items a.domains b.domains

abbrev pub is_text : Text → Option Text → Bool
is_text v none = false
is_text v (some w) = text_eq w v

-- The loop of `stringMapEqualForSet`.
unfoldable pub all_in : List (Text × Text) → List (Text × Text) → Bool
all_in [] b = true
all_in ((k, v) ∷ a) b = if not (is_text v (lookup k b)) then false else all_in a b

-- `stringMapEqualForSet`.
unfoldable pub string_map_equal_for_set : List (Text × Text) → List (Text × Text) → Bool
string_map_equal_for_set a b = if not (length a == length b) then false else all_in a b

module _ (deep_equal : LlmMeta → LlmMeta → Bool) where
  -- `llmMetaEqualForSet`.
  unfoldable pub llm_meta_equal_for_set : Option LlmMeta → Option LlmMeta → Bool
  llm_meta_equal_for_set none none = true
  llm_meta_equal_for_set none (some _) = false
  llm_meta_equal_for_set (some _) none = false
  llm_meta_equal_for_set (some a) (some b) = deep_equal a b

  -- `endpointContentEqualForSet`, of two endpoints that are not nil.
  unfoldable pub endpoint_content_equal_for_set : Endpoint → Endpoint → Bool
  endpoint_content_equal_for_set a b =
      if not (socket_address_content_equal a.address b.address)
      then false
      else if not (string_map_equal_for_set a.metadata b.metadata)
      then false
      else llm_meta_equal_for_set a.llm_meta b.llm_meta

same_items_eq : (xs ys : List Text) → length xs ≡ length ys → same_items xs ys ≡ true → xs ≡ ys
unfolding same_items
same_items_eq [] [] n h = refl
same_items_eq [] (b ∷ ys) n h = ground (arith, n)
same_items_eq (a ∷ xs) [] n h = cc
same_items_eq (a ∷ xs) (b ∷ ys) n h =
    ap₂ (λ x xs. x ∷ xs) ((text_eq_iff a b).0 (ground (arith, h)))
      (same_items_eq xs ys (omega (arith, n)) (ground (arith, h)))

same_items_refl : (xs : List Text) → same_items xs xs ≡ true
unfolding same_items
same_items_refl [] = refl
same_items_refl (a ∷ xs) = rw (text_eq_refl a, same_items_refl xs) refl

SocketAddress-ext :
    (a b : SocketAddress)
    → a.address ≡ b.address
    → a.port ≡ b.port
    → a.resolver_name ≡ b.resolver_name
    → a.domains ≡ b.domains
    → a.certs_dir ≡ b.certs_dir
    → a ≡ b
SocketAddress-ext a b same_address same_port same_resolver same_domains same_certs = λ i. record {
  address = same_address i;
  port = same_port i;
  resolver_name = same_resolver i;
  domains = same_domains i;
  certs_dir = same_certs i;
}

-- Two addresses have the same content exactly if they are the same in every field: the resolver, the
-- certificates and each domain count.
pub socket_address_content_equal_iff :
    (a b : SocketAddress) → (socket_address_content_equal a b ≡ true) ↔ (a ≡ b)
unfolding socket_address_content_equal
socket_address_content_equal_iff a b = (
  λ h.
      SocketAddress-ext a b ((text_eq_iff a.address b.address).0 (ground (arith, h)))
        ((==_iff a.port b.port).0 (ground (arith, h)))
        ((text_eq_iff a.resolver_name b.resolver_name).0 (ground (arith, h)))
        (same_items_eq a.domains b.domains
          ((==_iff (length a.domains) (length b.domains)).0 (ground (arith, h)))
          (ground (arith, h)))
        ((text_eq_iff a.certs_dir b.certs_dir).0 (ground (arith, h))),
  λ e. rw e (
      ground (
        arith,
        text_eq_refl b.address,
        text_eq_refl b.resolver_name,
        text_eq_refl b.certs_dir,
        same_items_refl b.domains,
      )),
)

Keyed-erase : (k : Text) (b : List (Text × Text)) → Keyed b → Keyed (erase k b)
Keyed-erase k [] d = tt
Keyed-erase k ((j, w) ∷ b) (new, d) = elim (Bool-cases (text_eq k j)) [
  | inl t ↦ rw t (Keyed-erase k b d)
  | inr f ↦ rw f (ground (arith, lookup-erase j k b, new), Keyed-erase k b d)
]

erase-absent : (k : Text) (b : List (Text × Text)) → lookup k b ≡ none → erase k b ≡ b
erase-absent k [] h = refl
erase-absent k ((j, w) ∷ b) h = elim (Bool-cases (text_eq k j)) [
  | inl t ↦ cc (rw t at h)
  | inr f ↦ rw f (ap (λ l. (j, w) ∷ l) (erase-absent k b (rw f at h)))
]

length-erase :
    (k v : Text) (b : List (Text × Text))
    → Keyed b
    → lookup k b ≡ some v
    → suc (length (erase k b)) ≡ length b
length-erase k v [] d h = cc
length-erase k v ((j, w) ∷ b) (new, d) h = elim (Bool-cases (text_eq k j)) [
  | inl t ↦ let same : k ≡ j = (text_eq_iff k j).0 t in rw (t, erase-absent k b (rw same new)) refl
  | inr f ↦ rw f (ap suc (length-erase k v b d (rw f at h)))
]

is_text-some : (v : Text) (o : Option Text) → is_text v o ≡ true → o ≡ some v
is_text-some v none h = cc
is_text-some v (some w) h = ap some ((text_eq_iff w v).0 h)

all_in-erase :
    (k : Text) (a b : List (Text × Text))
    → lookup k a ≡ none
    → all_in a b ≡ true
    → all_in a (erase k b) ≡ true
unfolding all_in
all_in-erase k [] b new h = refl
all_in-erase k ((j, v) ∷ a) b new h =
    ground (arith, lookup-erase j k b, text_eq_iff j k, text_eq_iff k j, all_in-erase k a b)

all_in-lookup :
    (a b : List (Text × Text))
    → Keyed a
    → Keyed b
    → length a ≡ length b
    → all_in a b ≡ true
    → (k : Text) → lookup k a ≡ lookup k b
unfolding all_in
all_in-lookup [] [] da db n h k = refl
all_in-lookup [] ((j, w) ∷ b) da db n h k = ground (arith, n)
all_in-lookup ((j, v) ∷ a) b (new, da) db n h k =
    let found : lookup j b ≡ some v = is_text-some v (lookup j b) (ground (arith, h)) in
    let shorter = length-erase j v b db found in
    let rest =
      all_in-lookup a (erase j b) da (Keyed-erase j b db) (omega (arith, n, shorter))
        (all_in-erase j a b new (ground (arith, h))) k in
    elim (Bool-cases (text_eq k j)) [
      | inl t ↦ let same : k ≡ j = (text_eq_iff k j).0 t in rw (t, same) (sym found)
      | inr f ↦ rw f (rest ∙ lookup-erase k j b ∙ rw f refl)
    ]

lookups-length :
    (a b : List (Text × Text))
    → Keyed a
    → Keyed b
    → ((k : Text) → lookup k a ≡ lookup k b)
    → length a ≡ length b
lookups-length [] [] da db h = refl
lookups-length [] ((j, w) ∷ b) da db h = cc (rw (text_eq_refl j) at (h j))
lookups-length ((j, v) ∷ a) b (new, da) db h =
    let found : lookup j b ≡ some v = sym (rw (text_eq_refl j) at (h j)) in
    ap suc (lookups-length a (erase j b) da (Keyed-erase j b db) rest) ∙ length-erase j v b db found
  where
    rest : (k : Text) → lookup k a ≡ lookup k (erase j b)
    rest k = elim (Bool-cases (text_eq k j)) [
      | inl t ↦
          let same : k ≡ j = (text_eq_iff k j).0 t in
          rw same new ∙ sym (rw t at (lookup-erase k j b))
      | inr f ↦ rw f at (h k) ∙ sym (rw f at (lookup-erase k j b))
    ]

lookups-all_in :
    (a b : List (Text × Text))
    → Keyed a
    → ((k v : Text) → lookup k a ≡ some v → lookup k b ≡ some v)
    → all_in a b ≡ true
unfolding all_in
lookups-all_in [] b da h = refl
lookups-all_in ((j, v) ∷ a) b (new, da) h =
    let found : lookup j b ≡ some v = h j v (rw (text_eq_refl j) refl) in
    rw (found, text_eq_refl v) (lookups-all_in a b da (λ k w m. h k w (later k w m)))
  where
    later : (k w : Text) → lookup k a ≡ some w → lookup k ((j, v) ∷ a) ≡ some w
    later k w m = elim (Bool-cases (text_eq k j)) [
      | inl t ↦
          let same : k ≡ j = (text_eq_iff k j).0 t in
          let absent : lookup k a ≡ none = rw same new in cc (absent, m)
      | inr f ↦ rw f m
    ]

string_map_equal_iff :
    (a b : List (Text × Text))
    → Keyed a
    → Keyed b
    → (string_map_equal_for_set a b ≡ true) ↔ ((k : Text) → lookup k a ≡ lookup k b)
unfolding string_map_equal_for_set
string_map_equal_iff a b da db = (
  λ h k.
      all_in-lookup a b da db ((==_iff (length a) (length b)).0 (ground (arith, h)))
        (ground (arith, h)) k,
  λ h.
      rw ((==_iff (length a) (length b)).1 (lookups-length a b da db h))
        (lookups-all_in a b da (λ k v m. sym (h k) ∙ m)),
)

-- Neither endpoint has model metadata, or both have and `DeepEqual` holds of it.
abbrev pub SameMeta : (LlmMeta → LlmMeta → Bool) → Option LlmMeta → Option LlmMeta → Type 0
SameMeta deep_equal a b =
    ((a ≡ none) × (b ≡ none))
    ⊎ ((x : LlmMeta) × (y : LlmMeta) × (a ≡ some x) × (b ≡ some y) × (deep_equal x y ≡ true))

llm_meta_equal_iff :
    (deep_equal : LlmMeta → LlmMeta → Bool) (a b : Option LlmMeta)
    → (llm_meta_equal_for_set deep_equal a b ≡ true) ↔ SameMeta deep_equal a b
unfolding llm_meta_equal_for_set
llm_meta_equal_iff deep_equal none none = (λ h. inl (refl, refl), λ e. refl)
llm_meta_equal_iff deep_equal none (some b) =
    (λ h. cc (h), λ e. elim e [ inl (_, bad) ↦ cc (bad) | inr (x, y, bad, is_y, same) ↦ cc (bad) ])
llm_meta_equal_iff deep_equal (some a) none =
    (λ h. cc (h), λ e. elim e [ inl (bad, _) ↦ cc (bad) | inr (x, y, is_x, bad, same) ↦ cc (bad) ])
llm_meta_equal_iff deep_equal (some a) (some b) = (
  λ h. inr (a, b, refl, refl, h),
  λ e. elim e [
    | inl (bad, _) ↦ cc (bad)
    | inr (x, y, is_x, is_y, same) ↦
        let a_eq : a ≡ x = cc (is_x) in let b_eq : b ≡ y = cc (is_y) in rw (a_eq, b_eq) same
  ],
)

-- What two endpoints share that have the same content.
abbrev pub SameContent : (LlmMeta → LlmMeta → Bool) → Endpoint → Endpoint → Type 0
SameContent deep_equal a b =
    (a.address ≡ b.address)
    × ((k : Text) → lookup k a.metadata ≡ lookup k b.metadata)
    × SameMeta deep_equal a.llm_meta b.llm_meta

-- Two endpoints have the same content for `SetEndpoint` exactly if their addresses are the same in every
-- field, their metadata has the same value for each key, and neither has model metadata or `DeepEqual` holds
-- of that of both, if no metadata has a key twice; the order of a map does not count, nor do the ID, the name
-- and the health.
pub endpoint_content_equal_for_set_iff :
    (deep_equal : LlmMeta → LlmMeta → Bool) (a b : Endpoint)
    → Keyed a.metadata
    → Keyed b.metadata
    → (endpoint_content_equal_for_set deep_equal a b ≡ true) ↔ SameContent deep_equal a b
unfolding endpoint_content_equal_for_set
endpoint_content_equal_for_set_iff deep_equal a b da db = (
  λ h. (
    (socket_address_content_equal_iff a.address b.address).0 (ground (arith, h)),
    (string_map_equal_iff a.metadata b.metadata da db).0 (ground (arith, h)),
    (llm_meta_equal_iff deep_equal a.llm_meta b.llm_meta).0 (ground (arith, h)),
  ),
  λ h. ground (
    arith,
    (socket_address_content_equal_iff a.address b.address).1 h.0,
    (string_map_equal_iff a.metadata b.metadata da db).1 h.1,
    (llm_meta_equal_iff deep_equal a.llm_meta b.llm_meta).1 h.2,
  ),
)
