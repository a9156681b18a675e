-- ===== src/External/Json.antt =====
-- `serde_json` over the types of the gateway; a text is a list of code points.
use http_gateway.Prelude.{ℕ, String, ◌≡◌, List, Option, some, head?}

-- `Address` of src/redis_admission/registration.rs.
pub record Address : Type 0 where
  pub url : List ℕ
  pub owner : List ℕ

pub record Json : Type 0 where
  pub parse_address : List ℕ → Option Address

-- `to_string` for `Address`, as its text and the code points of it. Documented: an object is written from
-- its brace on, and is read back.
pub record JsonText (J : Json) (chars : String → List ℕ) : Type 0 where
  pub serialize_address : Address → Option String
  pub parse_address-serialize_address :
      (a : Address) (t : String) → serialize_address a ≡ some t → J.parse_address (chars t) ≡ some a
  pub head?-serialize_address :
      (a : Address) (t : String) → serialize_address a ≡ some t → head? (chars t) ≡ some 123
