-- ===== src/Config.antt =====
-- src/config.rs: the route configuration, its compilation, and the selection of a route.
-- The file system and the parser of the crate `toml` are parameters of `load_routes`.
pub mod Compilation
pub mod Selection
use http_gateway.Prelude.{
  ℕ, suc, String, Bool, true, false, not, ◌&&◌, Option, none, some, Result, ok, err, List, [], ◌∷◌,
  filter_map, ltb, if◌then◌else◌, is_empty_str, trim, is_ascii, is_some, get_elem?,
}
use http_gateway.Prelude.Results.{or_err, ◌>>=◌, ◌>>◌}
use http_gateway.External.Http.{Http}
use http_gateway.External.Router.{Router, IndexedRouteRule}

pub record AdmissionRule : Type 0 where
  pub provider : String
  pub scope : String
  pub acquire_timeout_ms : ℕ

pub record RouteRule : Type 0 where
  pub methods : List String
  pub path : String
  pub admission : Option AdmissionRule

pub record ExclusionRule : Type 0 where
  pub methods : List String
  pub path : String

pub record RoutesConfig : Type 0 where
  pub routes : List RouteRule
  pub exclude : List ExclusionRule

abbrev pub default_admission_acquire_timeout_ms : ℕ
default_admission_acquire_timeout_ms = 50

module _ (H : Http) where
  unfoldable pub is_valid_rule : AdmissionRule → Bool
  is_valid_rule r =
      not (is_empty_str (trim r.provider))
      && not (is_empty_str (trim r.scope))
      && is_ascii r.scope
      && is_some (H.value_from_str r.scope)
      && ltb 0 r.acquire_timeout_ms

  -- The admission of a route, if it has one, is valid.
  unfoldable pub admits : Option AdmissionRule → Bool
  unfolding is_valid_rule
  admits none = true
  admits (some r) = is_valid_rule r

module _ (H : Http) (R : Router) where
  open H use {method_from_bytes}
  open R use {RouteIndex, RouteError, compile_index, default_index, resolve, matches}

  pub data ConfigError : Type 0 where
    read decode : (path : String) → ConfigError
    invalid_method : ℕ → String → ConfigError
    invalid_exclusion_method : ℕ → String → ConfigError
    exclusion_route : RouteError → ConfigError
    invalid_admission : ℕ → ConfigError
    route : RouteError → ConfigError

  -- `RoutesConfig::load`.
  unfoldable pub load_routes :
      (read_to_string : String → Option String) (from_str : String → Option RoutesConfig)
      → String
      → Result ConfigError RoutesConfig
  load_routes read_to_string from_str path =
      or_err (read_to_string path) (read path) >>= λ contents.
      or_err (from_str contents) (decode path)

  pub record RouteTable : Type 0 where
    pub index : RouteIndex
    pub exclusions : RouteIndex
    pub admissions : List (Option AdmissionRule)

  unfoldable pub empty_table : RouteTable
  empty_table = record { index = default_index; exclusions = default_index; admissions = [] }

  -- The methods of one rule: the first that is malformed is reported.
  unfoldable pub compile_methods :
      (String → ConfigError) → List String → Result ConfigError (List String)
  compile_methods fail [] = ok []
  compile_methods fail (m ∷ ms) = elim (method_from_bytes m) [
    | none ↦ err (fail m)
    | some method ↦ compile_methods fail ms >>= λ rest. ok (method ∷ rest)
  ]

  -- `config.exclude.into_iter().enumerate().map(…).collect()`, from a position on.
  unfoldable pub compile_exclusions :
      ℕ → List ExclusionRule → Result ConfigError (List IndexedRouteRule)
  unfolding compile_methods
  compile_exclusions index [] = ok []
  compile_exclusions index (rule ∷ rules) = do
    methods ← compile_methods (invalid_exclusion_method index) rule.methods
    rest ← compile_exclusions (suc index) rules
    ok (record { path = rule.path; methods = methods; rank = 0 } ∷ rest)

  -- The routes, with the admissions that the closure pushes.
  unfoldable pub compile_routes :
      ℕ → List RouteRule → Result ConfigError (List IndexedRouteRule × List (Option AdmissionRule))
  unfolding compile_methods admits
  compile_routes index [] = ok ([], [])
  compile_routes index (rule ∷ rules) = do
    (if admits H rule.admission then ok tt else err (invalid_admission index))
    methods ← compile_methods (invalid_method index) rule.methods
    rest ← compile_routes (suc index) rules
    ok (record { path = rule.path; methods = methods; rank = 0 } ∷ rest.0, rule.admission ∷ rest.1)

  unfoldable pub map_error :
      (RouteError → ConfigError) → Result RouteError RouteIndex → Result ConfigError RouteIndex
  map_error f (ok i) = ok i
  map_error f (err e) = err (f e)

  unfoldable pub compile : RoutesConfig → Result ConfigError RouteTable
  unfolding compile_exclusions compile_routes map_error
  compile config = do
    excluded ← compile_exclusions 0 config.exclude
    exclusions ← map_error exclusion_route (compile_index excluded)
    routes ← compile_routes 0 config.routes
    index ← map_error route (compile_index routes.0)
    ok (record { index = index; exclusions = exclusions; admissions = routes.1 })

  unfoldable pub is_excluded : RouteTable → String → String → Bool
  is_excluded table method path = matches table.exclusions method path

  unfoldable pub select : RouteTable → String → String → Option ℕ
  unfolding is_excluded
  select table method path =
      if is_excluded table method path then none else resolve table.index method path

  unfoldable pub table_matches : RouteTable → String → String → Bool
  unfolding select
  table_matches table method path = is_some (select table method path)

  unfoldable pub admission_rules : RouteTable → List AdmissionRule
  admission_rules table = filter_map (λ rule. rule) table.admissions

  unfoldable pub table_is_empty : RouteTable → Bool
  table_is_empty table = R.index_is_empty table.index

  unfoldable pub table_length : RouteTable → ℕ
  table_length table = R.index_length table.index
