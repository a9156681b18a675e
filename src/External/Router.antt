-- ===== src/External/Router.antt =====
-- The crate `brz-http-router`: a compiled index over route rules. Its documentation, and the
-- README of the gateway, say that an exact path matches itself, `:name` one segment and a terminal
-- `*name` the rest, that no method means every method, and that the first matching rule wins.
use http_gateway.Prelude.{
  ℕ, String, ◌≡◌, Bool, ◌&&◌, ◌||◌, Option, none, Result, ok, List, All, length, is_empty, is_some,
  any, str_eq, find_index,
}

-- `IndexedRouteRule::new(path, methods, rank)`.
pub record IndexedRouteRule : Type 0 where
  pub path : String
  pub methods : List String
  pub rank : ℕ

pub record Router : Type 1 where
  pub RouteIndex : Type 0
  pub RouteError : Type 0
  pub compile_index : List IndexedRouteRule → Result RouteError RouteIndex
  pub default_index : RouteIndex
  pub index_length : RouteIndex → ℕ
  pub index_is_empty : RouteIndex → Bool
  -- `resolve(method, path, PathMode::Raw).selected()`, by the position of the rule.
  pub resolve : RouteIndex → String → String → Option ℕ
  pub matches : RouteIndex → String → String → Bool
  -- What a path pattern selects.
  pub path_matches : String → String → Bool
  pub resolve-compile_index :
      (rules : List IndexedRouteRule) (i : RouteIndex) (m p : String)
      → compile_index rules ≡ ok i
      → All (λ r. r.rank ≡ 0) rules
      → resolve i m p
        ≡ find_index
            (λ r. (is_empty r.methods || any (str_eq m) r.methods) && path_matches r.path p)
            rules
  pub index_length-compile_index :
      (rules : List IndexedRouteRule) (i : RouteIndex)
      → compile_index rules ≡ ok i
      → index_length i ≡ length rules
  pub resolve-default_index : (m p : String) → resolve default_index m p ≡ none
  pub matches-resolve : (i : RouteIndex) (m p : String) → matches i m p ≡ is_some (resolve i m p)
