-- ===== src/Redis/Registration.antt =====
-- src/redis_admission/registration.rs: the address that a recorder publishes.
pub mod Recorder
use http_gateway.Prelude.{
  ℕ, Bool, false, Option, none, some, Result, ok, err, List, [], ◌∷◌, all, is_white, ◌==◌,
  if◌then◌else◌,
}
use http_gateway.Prelude.Results.{or_err, ◌>>=◌}
use http_gateway.External.Http.{Http}
use http_gateway.External.Json.{Json, Address}
use http_gateway.Admission.{AdmissionError, invalid_recorder_url}
use http_gateway.Redis.Utf8.{decode}

-- `str::trim_start` over code points.
unfoldable pub trim_white : List ℕ → List ℕ
unfolding is_white
trim_white [] = []
trim_white (c ∷ cs) = if is_white c then trim_white cs else c ∷ cs

abbrev pub starts_with_brace : List ℕ → Bool
starts_with_brace [] = false
starts_with_brace (c ∷ cs) = c == b'{'

-- The owner of an address is not blank.
abbrev pub owned_url : Option Address → Result AdmissionError (List ℕ)
owned_url none = err invalid_recorder_url
owned_url (some a) = if all is_white a.owner then err invalid_recorder_url else ok a.url

module _ (H : Http) (J : Json) where
  abbrev pub address_url : List ℕ → Result AdmissionError (List ℕ)
  address_url text =
      if starts_with_brace (trim_white text) then owned_url (J.parse_address text) else ok text

  unfoldable pub origin : List ℕ → Result AdmissionError H.Uri
  unfolding decode trim_white
  origin bytes = do
    text ← or_err (decode bytes) invalid_recorder_url
    url ← address_url text
    or_err (H.parse_uri url) invalid_recorder_url
