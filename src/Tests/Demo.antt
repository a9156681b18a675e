-- ===== src/Tests/Demo.antt =====
-- Concrete functions in the place of the crates: headers as a list of pairs, texts as header values,
-- and a router that knows exact paths and a catch-all.
use Prim.Native.Nat.{ℕ}
use Prim.Native.Char.{code}
use mathlib.Core.Option
use mathlib.Core.Option.{some-injective}
use http_gateway.Prelude.{
  ◌==◌, String, ◌≡◌, refl, sym, ap, inl, inr, Bool, ◌&&◌, ◌||◌, Option, none, some, Result, ok,
  List, [], ◌∷◌, str_eq, eq_iff, if◌then◌else◌, is_empty, is_some, any, length, find_index,
  Bool-cases, arith, true, false,
}
use http_gateway.External.Http.{Http, Response, PreflightRequest, response_cors_header}
use http_gateway.External.Json.{Json}
use http_gateway.External.Router.{Router, IndexedRouteRule}

abbrev pub Pairs : Type 0
Pairs = List (String × String)

abbrev pub values : Pairs → String → List String
values [] n = []
values ((m, v) ∷ h) n = let rest = values h n in if str_eq m n then v ∷ rest else rest

abbrev pub without : Pairs → String → Pairs
without [] n = []
without ((m, v) ∷ h) n = let rest = without h n in if str_eq m n then rest else (m, v) ∷ rest

pub values-without :
    (h : Pairs) (n m : String) → values (without h n) m ≡ (if str_eq n m then [] else values h m)
values-without [] n m = ground arith
values-without ((a, v) ∷ h) n m = elim (Bool-cases (str_eq a n)) [
  | inl e ↦ let same : a ≡ n = (eq_iff a n).0 e in ground (arith, values-without h n m)
  | inr e ↦ elim (Bool-cases (str_eq n m)) [
    | inl f ↦ let same : n ≡ m = (eq_iff n m).0 f in ground (arith, values-without h n m)
    | inr f ↦ ground (arith, values-without h n m)
  ]
]

pub values-insert :
    (h : Pairs) (n m v : String)
    → values ((n, v) ∷ without h n) m ≡ (if str_eq n m then v ∷ [] else values h m)
values-insert h n m v = ground (arith, values-without h n m)

pub record Location : Type 0 where
  pub scheme : Option String
  pub authority : Option String
  pub path : String
  pub query : Option String

abbrev pub absolute : String → String → String → Location
absolute scheme authority path = record {
  scheme = some scheme;
  authority = some authority;
  path = path;
  query = none;
}

abbrev pub local : String → Location
local path = record { scheme = none; authority = none; path = path; query = none }

pub data Payload : Type 0 where
  text : String → Payload
  stored : List ℕ → Option Pairs → Payload

abbrev pub DemoResponse : Type 0
DemoResponse = Response Pairs Payload (Unit {0})

-- A policy answers `OPTIONS` requests that name a method.
abbrev pub answer_preflight : PreflightRequest → Option DemoResponse
answer_preflight p =
    if str_eq p.method "OPTIONS" && is_some p.request_method
    then some (record { status = 204; headers = []; body = text ""; cors = none })
    else none

-- The paths that the tests parse.
abbrev pub known_paths : List String
known_paths = "/orders" ∷ "/health" ∷ "/" ∷ []

unfoldable pub spells : String → List ℕ → Bool
spells String.[] [] = true
spells (String.◌∷◌ c s) (n ∷ ns) = code c == n && spells s ns
spells _ _ = false

abbrev pub spelled : List String → List ℕ → Option String
spelled [] cs = none
spelled (s ∷ ss) cs = let rest = spelled ss cs in if spells s cs then some s else rest

pub authority_built :
    (s a p : String) (u : Location)
    → ◌≡◌ {A = Result String Location} (ok (absolute s a p)) (ok u)
    → u.authority ≡ some a
authority_built s a p u e = ground arith

pub scheme_built :
    (s a p : String) (u : Location)
    → ◌≡◌ {A = Result String Location} (ok (absolute s a p)) (ok u)
    → u.scheme ≡ some s
scheme_built s a p u e = ground arith

abbrev pub demo : Http
demo = record {
  Headers = Pairs;
  HeaderValue = String;
  Uri = Location;
  Body = Payload;
  ResponseCors = Unit;
  CorsPolicy = Bool;
  Extensions = ℕ;
  OnUpgrade = ℕ;
  no_headers = [];
  get_all = values;
  insert = λ h n v. (n, v) ∷ without h n;
  remove = without;
  get_all-no_headers = λ n. refl;
  get_all-insert = values-insert;
  get_all-remove = values-without;
  name_from_bytes = λ bytes. none;
  value_from_str = some;
  value_from_static = λ s. s;
  value_to_str = some;
  value_as_bytes = λ v. [];
  value_to_str-value_from_str = λ s v e a. sym e;
  method_from_bytes = some;
  method_from_bytes_lem = λ s m e. sym (some-injective s m e);
  uri_scheme = λ u. u.scheme;
  uri_authority = λ u. u.authority;
  uri_path = λ u. u.path;
  uri_query = λ u. u.query;
  uri_path_and_query = λ u. some u.path;
  build_uri = λ s a p. ok (absolute s a p);
  parse_uri = λ cs. Option.map local (spelled known_paths cs);
  uri_authority-build_uri = λ s a p u e. authority_built s a p u e;
  uri_scheme-build_uri = λ s a p u e. scheme_built s a p u e;
  text_body = text;
  buffered = stored;
  take_upgrade = λ x. (x, 0);
  no_extensions = 0;
  validate_cors = λ c. c;
  preflight = λ c p. answer_preflight p;
  apply_response = λ c o r. r;
  take_from_headers = λ h. (tt, without h response_cors_header);
  get_all-take_from_headers = λ h m. values-without h response_cors_header m;
  get_all-apply_response = λ c o r. refl;
  status-apply_response = λ c o r. refl;
}

abbrev pub catches : String → String → Bool
catches pattern path = str_eq pattern path || str_eq pattern "/*rest"

abbrev pub found : List IndexedRouteRule → String → String → Option ℕ
found i m p =
    find_index (λ r. (is_empty r.methods || any (str_eq m) r.methods) && catches r.path p) i

pub resolve_compiled :
    (rules i : List IndexedRouteRule) (m p : String)
    → ◌≡◌ {A = Result (Unit {0}) (List IndexedRouteRule)} (ok rules) (ok i)
    → found i m p ≡ found rules m p
resolve_compiled rules i m p e = let same : rules ≡ i = cc in ap (λ j. found j m p) (sym same)

pub length_compiled :
    (rules i : List IndexedRouteRule)
    → ◌≡◌ {A = Result (Unit {0}) (List IndexedRouteRule)} (ok rules) (ok i)
    → length i ≡ length rules
length_compiled rules i e = let same : rules ≡ i = cc in ap length (sym same)

abbrev pub table : Router
table = record {
  RouteIndex = List IndexedRouteRule;
  RouteError = Unit;
  compile_index = ok;
  default_index = [];
  index_length = length;
  index_is_empty = is_empty;
  resolve = found;
  matches = λ i m p. is_some (found i m p);
  path_matches = catches;
  resolve-compile_index = λ rules i m p e ranks. resolve_compiled rules i m p e;
  index_length-compile_index = λ rules i e. length_compiled rules i e;
  resolve-default_index = λ m p. refl;
  matches-resolve = λ i m p. refl;
}

-- Every text is read as the address that it spells, of one owner.
abbrev pub json : Json
json = record { parse_address = λ t. some (record { url = t; owner = 1 ∷ [] }) }
