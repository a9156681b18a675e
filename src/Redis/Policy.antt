-- ===== src/Redis/Policy.antt =====
-- src/redis_admission/policy.rs: which paths are recorded, and under which name they are counted.
pub mod Rules
pub mod Selection
pub mod Store
use Prim.Native.Char.{code}
use Prim.Native.String
use Prim.Native.String.{◌∷◌ as cons_char, [] as no_chars}
use http_gateway.Prelude.{
  ℕ, ◌^◌, ◌-◌, String, Bool, true, false, not, ◌&&◌, ◌||◌, Option, none, some, Result, ok, err,
  List, [], ◌∷◌, ◌++◌, ◌==◌, ltb, is_empty, is_some, is_empty_str, starts_with_char, str_eq,
  if◌then◌else◌, get_elem?,
}
use http_gateway.Prelude.Results.{◌>>=◌, ◌>>◌}
use http_gateway.External.Http.{Http}
use http_gateway.External.Router.{Router, IndexedRouteRule}
use http_gateway.Admission.{AdmissionError, backend, client, message, guard}

pub data MatchKind : Type 0 where
  prefix exact : MatchKind

pub record PathRule : Type 0 where
  pub path : String
  pub kind : MatchKind

pub record PolicyConfig : Type 0 where
  pub case_limit : Option ℕ
  pub includes : List PathRule
  pub excludes : List PathRule

-- The policy of a missing key.
abbrev pub default_policy : PolicyConfig
default_policy = record { case_limit = none; includes = []; excludes = [] }

abbrev pub i64_max : ℕ
i64_max = 2 ^ 63 - 1

abbrev pub invalid : String → AdmissionError
invalid text = backend (message text)

abbrev pub indexed : String → IndexedRouteRule
indexed path = record { path = path; methods = []; rank = 0 }

-- `path.split('/').any(|segment| segment.starts_with([':', '*']))`: whether a segment, that is the
-- text's start or what follows a slash, begins with a mark.
abbrev pub is_mark : ℕ → Bool
is_mark n = n == b':' || n == b'*'

unfoldable pub has_marked_segment : Bool → String → Bool
has_marked_segment at_start String.[] = false
has_marked_segment at_start (String.◌∷◌ c s) =
    (at_start && is_mark (code c)) || has_marked_segment (code c == b'/') s

-- `trim_end_matches('/')`.
unfoldable pub trim_end_slashes : String → String
trim_end_slashes String.[] = ""
trim_end_slashes (String.◌∷◌ c s) =
    let rest = trim_end_slashes s in
    if is_empty_str rest && code c == b'/' then "" else String.◌∷◌ c rest

unfoldable pub contains_char : ℕ → String → Bool
contains_char n String.[] = false
contains_char n (String.◌∷◌ c s) = code c == n || contains_char n s

-- The characters of a text, as `Uri` parses them.
unfoldable pub chars : String → List ℕ
chars String.[] = []
chars (String.◌∷◌ c s) = code c ∷ chars s

-- `add_prefix`: the two rules of a prefix, the path itself and everything below it.
unfoldable pub prefix_rules : String → Result AdmissionError (List IndexedRouteRule)
unfolding has_marked_segment trim_end_slashes
prefix_rules path =
    if not (starts_with_char b'/' path) || has_marked_segment true path
    then err (invalid "prefix paths must be absolute literal paths")
    else ok (
        indexed (if is_empty_str (trim_end_slashes path) then "/" else trim_end_slashes path)
        ∷ indexed (String.◌++◌ (trim_end_slashes path) "/*__breeze_policy_path")
        ∷ [])

module _ (H : Http) where
  abbrev pub uri_is_plain : String → H.Uri → Bool
  uri_is_plain path uri =
      starts_with_char b'/' path
      && str_eq (H.uri_path uri) path
      && not (is_some (H.uri_query uri))
      && not (contains_char b'#' path)

  unfoldable pub validate_path : String → Result AdmissionError (Unit {0})
  unfolding contains_char chars
  validate_path path = elim (H.parse_uri (chars path)) [
    | none ↦ err (backend client)
    | some uri ↦
        guard (uri_is_plain path uri)
          (invalid "policy rules require an absolute path without query or fragment")
  ]

  -- The rules of `includes`: the exact ones, their paths, and those of the prefixes.
  pub record Includes : Type 0 where
    pub exact_rules : List IndexedRouteRule
    pub exact_paths : List String
    pub prefixes : List IndexedRouteRule

  abbrev pub with_exact : String → Includes → Includes
  with_exact path i = record i {
    exact_rules = indexed path ∷ i.exact_rules;
    exact_paths = path ∷ i.exact_paths;
  }

  abbrev pub with_prefix : List IndexedRouteRule → Includes → Includes
  with_prefix rules i = record i { prefixes = rules ++ i.prefixes }

  -- The arm of a rule's kind: the rules to add in front of the later ones.
  abbrev pub include_rule : MatchKind → String → Result AdmissionError (Includes → Includes)
  include_rule exact path = ok (with_exact path)
  include_rule prefix path = prefix_rules path >>= λ rules. ok (with_prefix rules)

  unfoldable pub compile_includes : List PathRule → Result AdmissionError Includes
  unfolding validate_path prefix_rules
  compile_includes [] = ok (record { exact_rules = []; exact_paths = []; prefixes = [] })
  compile_includes (r ∷ rs) = do
    validate_path r.path
    add ← include_rule r.kind r.path
    rest ← compile_includes rs
    ok (add rest)

  abbrev pub exclude_rules : MatchKind → String → Result AdmissionError (List IndexedRouteRule)
  exclude_rules exact path = ok (indexed path ∷ [])
  exclude_rules prefix path = prefix_rules path

  unfoldable pub compile_excludes : List PathRule → Result AdmissionError (List IndexedRouteRule)
  unfolding validate_path prefix_rules
  compile_excludes [] = ok []
  compile_excludes (r ∷ rs) = do
    validate_path r.path
    rules ← exclude_rules r.kind r.path
    rest ← compile_excludes rs
    ok (rules ++ rest)

abbrev pub exceeds : Option ℕ → ℕ → Bool
exceeds none bound = false
exceeds (some n) bound = ltb bound n

abbrev pub is_zero_limit : Option ℕ → Bool
is_zero_limit none = false
is_zero_limit (some n) = n == 0

module _ (H : Http) (R : Router) where
  pub record CompiledPolicy : Type 0 where
    pub case_limit : Option ℕ
    pub includes_all : Bool
    pub exact_index : R.RouteIndex
    pub exact_paths : List String
    pub prefixes : R.RouteIndex
    pub excludes : R.RouteIndex

  abbrev pub compile_rules : List IndexedRouteRule → Result AdmissionError R.RouteIndex
  compile_rules rules = elim (R.compile_index rules) [ ok i ↦ ok i | err e ↦ err (backend client) ]

  unfoldable pub compile_policy : PolicyConfig → Result AdmissionError CompiledPolicy
  unfolding compile_includes compile_excludes
  compile_policy config = do
    guard (not (exceeds config.case_limit i64_max))
        (invalid "case-limit must fit a nonnegative Redis integer")
    includes ← compile_includes H config.includes
    excluded ← compile_excludes H config.excludes
    exact_index ← compile_rules includes.exact_rules
    prefixes ← compile_rules includes.prefixes
    excludes ← compile_rules excluded
    ok (record {
      case_limit = config.case_limit;
      includes_all = is_empty config.includes;
      exact_index = exact_index;
      exact_paths = includes.exact_paths;
      prefixes = prefixes;
      excludes = excludes;
    })

  -- `api`: the name under which a path is counted. An index past `exact_paths` would panic.
  unfoldable pub api : CompiledPolicy → String → Option String
  api p path =
      if is_zero_limit p.case_limit || R.matches p.excludes "GET" path
      then none
      else elim (R.resolve p.exact_index "GET" path) [
        | some id ↦ get_elem? p.exact_paths id
        | none ↦ if p.includes_all || R.matches p.prefixes "GET" path then some path else none
      ]
