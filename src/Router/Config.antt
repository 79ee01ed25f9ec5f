-- ===== src/Router/Config.antt =====
-- The types of pkg/model/router.go, and the headers of pkg/model/router_snapshot.go that are compiled
-- from them. Regular expressions are parameters: their type, `regexp.Compile` and `MatchString`.
use dubbo_go_pixiu.Prelude.{
  Bool, true, false, Option, none, some, List, [], ◌∷◌, map, any, if◌then◌else◌,
}
use dubbo_go_pixiu.Prelude.Int.{ℤ}
use dubbo_go_pixiu.Prelude.Text.{Text, text_eq}

pub record RouteAction : Type 0 where
  pub cluster : Text
  pub cluster_not_found_response_code : ℤ

-- A request: the method, the path of its URL and the value of each header, empty if it has none.
pub record Request : Type 0 where
  pub method : Text
  pub path : Text
  pub header : Text → Text

pub record HeaderMatcher (Re : Type 0) : Type 0 where
  pub name : Text
  pub values : List Text
  pub regex : Bool
  pub value_re : Option Re

pub record RouterMatch (Re : Type 0) : Type 0 where
  pub prefix : Text
  pub path : Text
  pub methods : List Text
  pub headers : List (HeaderMatcher Re)

-- `Router`; its field `Match` is `rule`.
pub record Route (Re : Type 0) : Type 0 where
  pub id : Text
  pub rule : RouterMatch Re
  pub route : RouteAction

pub record CompiledHeader (Re : Type 0) : Type 0 where
  pub name : Text
  pub regex : Option Re
  pub values : List Text

module _ {Re : Type 0} (compile : Text → Option Re) where
  abbrev pub compile_pattern : Text → Option Re → Option (CompiledHeader Re)
  compile_pattern name none = none
  compile_pattern name (some re) = some (record { name = name; regex = some re; values = [] })

  abbrev pub compile_values : Text → List Text → Option (CompiledHeader Re)
  compile_values name [] = some (record { name = name; regex = none; values = [] })
  compile_values name (v ∷ _) =
      if text_eq v []
      then some (record { name = name; regex = none; values = [] })
      else compile_pattern name (compile v)

  -- `compileRegexHeader`: `none` is the logged failure.
  unfoldable pub compile_regex_header : HeaderMatcher Re → Option (CompiledHeader Re)
  compile_regex_header h = elim h.value_re [
    | some re ↦ some (record { name = h.name; regex = some re; values = [] })
    | none ↦ compile_values h.name h.values
  ]

  -- `compileHeader`.
  unfoldable pub compile_header : HeaderMatcher Re → Option (CompiledHeader Re)
  unfolding compile_regex_header
  compile_header h =
      if h.regex
      then compile_regex_header h
      else some (record { name = h.name; regex = none; values = h.values })

  abbrev pub keep_compiled :
      Option (CompiledHeader Re) → List (CompiledHeader Re) → List (CompiledHeader Re)
  keep_compiled none rest = rest
  keep_compiled (some c) rest = c ∷ rest

  -- `compileHeaders`.
  unfoldable pub compile_headers : List (HeaderMatcher Re) → List (CompiledHeader Re)
  unfolding compile_header
  compile_headers [] = []
  compile_headers (h ∷ hs) = keep_compiled (compile_header h) (compile_headers hs)

  abbrev pub set_value_regex : HeaderMatcher Re → Option Re → HeaderMatcher Re
  set_value_regex h none = record h { regex = false }
  set_value_regex h (some re) = record h { value_re = some re }

  -- The body of the loop of `initRegex`, with `SetValueRegex`.
  unfoldable pub init_header : HeaderMatcher Re → HeaderMatcher Re
  init_header h = elim h.values [
    | [] ↦ h
    | v ∷ _ ↦ if h.regex then set_value_regex h (compile v) else h
  ]

  abbrev pub init_headers : Route Re → Route Re
  init_headers r = record r { rule = record r.rule { headers = map init_header r.rule.headers } }

  -- `initRegex`, which writes the headers of the routes in place.
  unfoldable pub init_regex : List (Route Re) → List (Route Re)
  unfolding init_header
  init_regex = map init_headers

module _ {Re : Type 0} (match_string : Re → Text → Bool) where
  abbrev pub value_fits : Option Re → List Text → Text → Bool
  value_fits (some re) values val = match_string re val
  value_fits none values val = any (text_eq val) values

  -- `matchHeaders`.
  unfoldable pub match_headers : List (CompiledHeader Re) → Request → Bool
  match_headers [] req = true
  match_headers (ch ∷ chs) req =
      let rest = match_headers chs req in
      if text_eq (req.header ch.name) []
      then false
      else if value_fits ch.regex ch.values (req.header ch.name)
      then rest
      else false
