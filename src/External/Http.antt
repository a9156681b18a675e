-- ===== src/External/Http.antt =====
-- The crates `http`, `hyper`, `http-body-util`, `brz-http-server` and `brz-http-cors`.
use http_gateway.Prelude.{
  ℕ, String, ◌≡◌, Bool, true, Option, some, Result, ok, List, [], ◌∷◌, head?, str_eq, if◌then◌else◌,
  is_empty, not,
}
use http_gateway.Prelude.Text.{is_ascii}

-- `http::Response`; `cors` is the `ResponseCors` entry of its extensions.
pub record Response (Headers Body ResponseCors : Type 0) : Type 0 where
  pub status : ℕ
  pub headers : Headers
  pub body : Body
  pub cors : Option ResponseCors

-- `brz_http_cors::PreflightRequest`: header values as bytes.
pub record PreflightRequest : Type 0 where
  pub method : String
  pub origin : Option (List ℕ)
  pub request_method : Option (List ℕ)
  pub request_headers : Option (List ℕ)

-- `brz_http_cors::RESPONSE_CORS_HEADER`.
abbrev pub response_cors_header : String
response_cors_header = "x-breeze-response-cors"

pub record Http : Type 1 where
  pub Headers : Type 0
  pub HeaderValue : Type 0
  pub Uri : Type 0
  pub Body : Type 0
  pub ResponseCors : Type 0
  pub CorsPolicy : Type 0
  -- What a request's extensions hold beside the entries of the gateway, and hyper's handle.
  pub Extensions : Type 0
  pub OnUpgrade : Type 0
  -- `HeaderMap`: header names are in lower case, values in order.
  pub no_headers : Headers
  pub get_all : Headers → String → List HeaderValue
  pub insert : Headers → String → HeaderValue → Headers
  pub remove : Headers → String → Headers
  pub get_all-no_headers : (n : String) → get_all no_headers n ≡ []
  pub get_all-insert :
      (h : Headers) (n m : String) (v : HeaderValue)
      → get_all (insert h n v) m ≡ (if str_eq n m then v ∷ [] else get_all h m)
  pub get_all-remove :
      (h : Headers) (n m : String)
      → get_all (remove h n) m ≡ (if str_eq n m then [] else get_all h m)
  -- `HeaderName`, `HeaderValue` and `Method`.
  pub name_from_bytes : List ℕ → Option String
  pub value_from_str : String → Option HeaderValue
  pub value_from_static : String → HeaderValue
  pub value_to_str : HeaderValue → Option String
  pub value_as_bytes : HeaderValue → List ℕ
  pub value_to_str-value_from_str :
      (s : String) (v : HeaderValue)
      → value_from_str s ≡ some v
      → is_ascii s ≡ true
      → value_to_str v ≡ some s
  -- `Method::from_bytes`, by `as_str` of the method that it makes.
  pub method_from_bytes : String → Option String
  pub method_from_bytes_lem : (s m : String) → method_from_bytes s ≡ some m → m ≡ s
  -- `Uri`: its parts, its builder, and `str::parse`.
  pub uri_scheme : Uri → Option String
  pub uri_authority : Uri → Option String
  pub uri_path : Uri → String
  pub uri_query : Uri → Option String
  pub uri_path_and_query : Uri → Option String
  -- The builder, with the text of its error.
  pub build_uri : (scheme authority path_and_query : String) → Result String Uri
  -- A text that comes from outside is a list of code points.
  pub parse_uri : List ℕ → Option Uri
  pub uri_authority-build_uri :
      (s a p : String) (u : Uri) → build_uri s a p ≡ ok u → uri_authority u ≡ some a
  pub uri_scheme-build_uri :
      (s a p : String) (u : Uri) → build_uri s a p ≡ ok u → uri_scheme u ≡ some s
  -- Bodies.
  pub text_body : String → Body
  pub buffered : List ℕ → Option Headers → Body
  -- `request_upgrade`, `response_upgrade`, `hyper::upgrade::on`.
  pub take_upgrade : Extensions → OnUpgrade × Extensions
  pub no_extensions : Extensions
  -- `brz_http_cors`.
  pub validate_cors : CorsPolicy → Bool
  pub preflight : CorsPolicy → PreflightRequest → Option (Response Headers Body ResponseCors)
  pub apply_response :
      CorsPolicy
      → Option (List ℕ)
      → Response Headers Body ResponseCors
      → Response Headers Body ResponseCors
  pub take_from_headers : Headers → ResponseCors × Headers
  -- Documented: the reserved metadata is consumed, and no other header is touched; applying a
  -- policy replaces CORS fields, to which the reserved header does not belong, and keeps the
  -- status.
  pub get_all-take_from_headers :
      (h : Headers) (m : String)
      → get_all (take_from_headers h).1 m
        ≡ (if str_eq response_cors_header m then [] else get_all h m)
  pub get_all-apply_response :
      (c : CorsPolicy) (o : Option (List ℕ)) (r : Response Headers Body ResponseCors)
      → get_all (apply_response c o r).headers response_cors_header
        ≡ get_all r.headers response_cors_header
  pub status-apply_response :
      (c : CorsPolicy) (o : Option (List ℕ)) (r : Response Headers Body ResponseCors)
      → (apply_response c o r).status ≡ r.status

module _ (H : Http) where
  open H use {Headers, HeaderValue, get_all, insert}

  abbrev pub GatewayResponse : Type 0
  GatewayResponse = Response Headers H.Body H.ResponseCors

  -- `HeaderMap::get`: the first value.
  abbrev pub get : Headers → String → Option HeaderValue
  get h n = head? (get_all h n)

  abbrev pub contains_key : Headers → String → Bool
  contains_key h n = not (is_empty (get_all h n))

  -- `HeaderMap::entry(n).or_insert(v)`.
  abbrev pub or_insert : Headers → String → HeaderValue → Headers
  or_insert h n v = if contains_key h n then h else insert h n v
