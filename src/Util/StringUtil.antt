-- ===== src/Util/StringUtil.antt =====
-- pkg/common/util/stringutil/stringutil.go: path splitting, the classes of path segments, and the
-- keys under which routes are stored. The constants are those of pkg/common/constant.
use dubbo_go_pixiu.Prelude.{
  ℕ, ◌≡◌, refl, Bool, true, false, ◌&&◌, ◌||◌, not, Option, none, some, List, [], ◌∷◌, ◌++◌, leb,
  ◌==◌, if◌then◌else◌,
}
use dubbo_go_pixiu.Prelude.Text.{Text, codes, text_eq, split_on, trim_left, has_prefix}

abbrev pub slash : ℕ
slash = b'/'

abbrev pub path_slash : Text
path_slash = slash ∷ []

-- `constant.HeaderValueAll`.
abbrev pub header_value_all : Text
header_value_all = codes "*"

-- `constant.HeaderValueAllLevels`.
abbrev pub header_value_all_levels : Text
header_value_all_levels = codes "**"

-- `constant.PathParamIdentifier`.
abbrev pub path_param_identifier : Text
path_param_identifier = codes ":"

unfoldable pub split : Text → List Text
unfolding split_on trim_left
split path = split_on slash (trim_left slash path)

-- `strings.TrimPrefix(key, ":")`.
unfoldable pub variable_name : Text → Text
variable_name [] = []
variable_name (c ∷ key) = if c == b':' then key else c ∷ key

unfoldable pub is_wildcard : Text → Bool
unfolding text_eq
is_wildcard key = text_eq key header_value_all

unfoldable pub is_match_all : Text → Bool
unfolding text_eq
is_match_all key = text_eq key header_value_all_levels

unfoldable pub is_path_variable_or_wildcard : Text → Bool
unfolding is_wildcard text_eq has_prefix
is_path_variable_or_wildcard key =
    if text_eq key []
    then false
    else if has_prefix key path_param_identifier
    then true
    else is_wildcard key

-- `strings.Cut(path, "?")`: what stands before the first separator.
unfoldable pub before : ℕ → Text → Text
before sep [] = []
before sep (c ∷ s) = if c == sep then [] else c ∷ before sep s

-- What stands after the first separator, if there is one.
unfoldable pub after : ℕ → Text → Option Text
after sep [] = none
after sep (c ∷ s) = if c == sep then some s else after sep s

abbrev is_letter : ℕ → Bool
is_letter c = leb b'a' c && leb c b'z' || leb b'A' c && leb c b'Z'

abbrev is_scheme_byte : ℕ → Bool
is_scheme_byte c = is_letter c || leb b'0' c && leb c b'9' || c == b'+' || c == b'.' || c == b'-'

-- The rest of the path behind `[A-Za-z0-9+.-]*://`. No byte of the class is a colon, so the greedy
-- star has one way to match.
after_scheme_tail : Text → Option Text
unfolding has_prefix
after_scheme_tail [] = none
after_scheme_tail (c ∷ s) =
    if is_scheme_byte c then after_scheme_tail s else after_separator (c ∷ s)
  where
    after_separator : Text → Option Text
    after_separator (a ∷ b ∷ d ∷ r) = if a == b':' && b == slash && d == slash then some r else none
    after_separator _ = none

-- `urlSchemePrefix`: the rest of the path behind `^[A-Za-z][A-Za-z0-9+.-]*://`, if that matches.
unfoldable pub after_scheme : Text → Option Text
unfolding after_scheme_tail
after_scheme [] = none
after_scheme (c ∷ s) = if is_letter c then after_scheme_tail s else none

-- A URL loses its scheme, its authority and the slash behind it.
strip_authority : Text → Text
unfolding after_scheme after
strip_authority path = elim (after_scheme path) [
  | none ↦ path
  | some rest ↦ elim (after slash rest) [ none ↦ [] | some tail ↦ tail ]
]

-- `strings.HasSuffix(ret, "/")` and the cut of the last byte.
unfoldable pub trim_last_slash : Text → Text
trim_last_slash [] = []
trim_last_slash (c ∷ []) = if c == slash then [] else c ∷ []
trim_last_slash (c ∷ d ∷ s) = c ∷ trim_last_slash (d ∷ s)

unfoldable pub get_trie_key : Text → Text → Text
unfolding before strip_authority has_prefix trim_last_slash
get_trie_key method path =
    let path = strip_authority (before b'?' path) in
    trim_last_slash
      (if has_prefix path path_slash then method ++ path else method ++ path_slash ++ path)

-- The last byte of a text.
ends_with_slash : Text → Bool
ends_with_slash [] = false
ends_with_slash (c ∷ []) = c == slash
ends_with_slash (c ∷ d ∷ s) = ends_with_slash (d ∷ s)

unfoldable pub get_trie_key_with_prefix : Text → Text → Text → Bool → Text
unfolding get_trie_key text_eq ends_with_slash
get_trie_key_with_prefix method path prefix is_prefix =
    if is_prefix
    then get_trie_key method (
        (if not (text_eq prefix []) && not (ends_with_slash prefix)
          then prefix ++ path_slash
          else prefix)
        ++ header_value_all_levels)
    else get_trie_key method path

tests :
    (split (codes "//a/b/") ≡ codes "a" ∷ codes "b" ∷ [] ∷ [])
    × (get_trie_key (codes "GET") (codes "http://h:1/x/y/?q=/z") ≡ codes "GET/x/y")
    × (get_trie_key_with_prefix (codes "GET") [] (codes "/api") true ≡ codes "GET/api/**")
unfolding split get_trie_key get_trie_key_with_prefix
tests = (refl, refl, refl)
