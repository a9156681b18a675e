-- ===== src/Proxy/Headers.antt =====
-- src/proxy.rs: the header rules of a proxy hop.
pub mod Laws
pub mod Somewhere
pub mod Tokens
pub mod Trimming
pub mod Nominations
use http_gateway.Prelude.{
  ℕ, String, Bool, true, false, not, ◌&&◌, ◌||◌, Option, none, some, List, [], ◌∷◌, ◌==◌, leb,
  filter_map, str_eq, if◌then◌else◌, is_empty, any,
}
use Prim.Native.Nat.{◌+◌}
use Prim.Native.String
use mathlib.Core.List.{flat_map}
use http_gateway.External.Http.{Http, get, contains_key, or_insert}

-- `slice::split(|byte| *byte == b',')`.
abbrev pub prepend : ℕ → List (List ℕ) → List (List ℕ)
prepend b [] = (b ∷ []) ∷ []
prepend b (part ∷ parts) = (b ∷ part) ∷ parts

unfoldable pub split_comma : List ℕ → List (List ℕ)
split_comma [] = [] ∷ []
split_comma (b ∷ bs) = let rest = split_comma bs in if b == b',' then [] ∷ rest else prepend b rest

abbrev pub is_blank_byte : ℕ → Bool
is_blank_byte b = b == 32 || b == 9

-- The two loops of `trim_ascii`.
unfoldable pub trim_front : List ℕ → List ℕ
trim_front [] = []
trim_front (b ∷ bs) = if is_blank_byte b then trim_front bs else b ∷ bs

unfoldable pub trim_back : List ℕ → List ℕ
trim_back [] = []
trim_back (b ∷ bs) =
    let rest = trim_back bs in if is_empty rest && is_blank_byte b then [] else b ∷ rest

unfoldable pub trim_ascii : List ℕ → List ℕ
unfolding trim_front trim_back
trim_ascii bytes = trim_back (trim_front bytes)

abbrev pub ascii_lower : ℕ → ℕ
ascii_lower b = if leb b'A' b && leb b b'Z' then b + 32 else b

-- `eq_ignore_ascii_case`.
unfoldable pub eq_ignore_case : List ℕ → List ℕ → Bool
eq_ignore_case [] [] = true
eq_ignore_case (a ∷ as') (b ∷ bs) = ascii_lower a == ascii_lower b && eq_ignore_case as' bs
eq_ignore_case _ _ = false

unfoldable pub contains_token : List ℕ → List ℕ → Bool
unfolding split_comma trim_ascii eq_ignore_case
contains_token value expected =
    any (λ token. eq_ignore_case (trim_ascii token) expected) (split_comma value)

abbrev pub connection_header : String
connection_header = "connection"

abbrev pub upgrade_header : String
upgrade_header = "upgrade"

abbrev pub host_header : String
host_header = "host"

abbrev pub x_forwarded_for : String
x_forwarded_for = "x-forwarded-for"

abbrev pub x_forwarded_host : String
x_forwarded_host = "x-forwarded-host"

abbrev pub x_forwarded_proto : String
x_forwarded_proto = "x-forwarded-proto"

abbrev pub upgrade_token : List ℕ
upgrade_token = b'u' ∷ b'p' ∷ b'g' ∷ b'r' ∷ b'a' ∷ b'd' ∷ b'e' ∷ []

-- The fixed list of `remove_hop_by_hop_headers`.
abbrev pub hop_by_hop : List String
hop_by_hop =
    "keep-alive" ∷ "proxy-authenticate" ∷ "proxy-authorization" ∷ "te" ∷ "trailer"
    ∷ "transfer-encoding" ∷ []

module _ (H : Http) where
  open H use {Headers, HeaderValue, get_all, insert, remove}

  unfoldable pub is_upgrade : Headers → Bool
  unfolding contains_token
  is_upgrade h =
      contains_key H h upgrade_header
      && any (λ v. contains_token (H.value_as_bytes v) upgrade_token) (get_all h connection_header)

  -- The names that the values of `Connection` nominate.
  unfoldable pub nominated : Headers → List String
  unfolding split_comma trim_ascii
  nominated h =
      filter_map (λ name. H.name_from_bytes (trim_ascii name))
        (flat_map (λ v. split_comma (H.value_as_bytes v)) (get_all h connection_header))

  unfoldable pub remove_nominated : Bool → List String → Headers → Headers
  remove_nominated preserve_upgrade [] h = h
  remove_nominated preserve_upgrade (name ∷ names) h =
      remove_nominated preserve_upgrade names
        (if not preserve_upgrade || not (str_eq name upgrade_header) then remove h name else h)

  unfoldable pub remove_all : List String → Headers → Headers
  remove_all [] h = h
  remove_all (name ∷ names) h = remove_all names (remove h name)

  unfoldable pub remove_hop_by_hop_headers : Headers → Bool → Headers
  unfolding nominated remove_nominated remove_all
  remove_hop_by_hop_headers h preserve_upgrade =
      let fewer = remove_all hop_by_hop (remove_nominated preserve_upgrade (nominated h) h) in
      if not preserve_upgrade then remove (remove fewer connection_header) upgrade_header else fewer

  -- `if let Ok(value) = HeaderValue::from_str(text) { headers.insert(name, value); }`.
  abbrev pub insert_text : Headers → String → String → Headers
  insert_text h name text = elim (H.value_from_str text) [
    | none ↦ h
    | some value ↦ insert h name value
  ]

  -- `address` is the peer's IP address as `to_string` prints it.
  unfoldable pub append_forwarded_for : Headers → String → Headers
  append_forwarded_for h address = elim (get H h x_forwarded_for) [
    | none ↦ insert_text h x_forwarded_for address
    | some existing ↦ elim (H.value_to_str existing) [
      | none ↦ insert_text (remove h x_forwarded_for) x_forwarded_for address
      | some text ↦ insert_text h x_forwarded_for (String.◌++◌ text (String.◌++◌ ", " address))
    ]
  ]
