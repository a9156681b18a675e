-- ===== src/Admission.antt =====
-- src/admission.rs: tickets, outcomes of an acquisition, and the registry of named providers.
pub mod Tickets
pub mod Registration
use http_gateway.Prelude.{
  ℕ, String, Bool, true, false, not, ◌&&◌, ◌||◌, Option, none, some, Result, ok, err, List, [], ◌∷◌,
  ◌==◌, str_eq, if◌then◌else◌, is_empty_str, trim, is_ascii, length, is_some,
}
use http_gateway.Prelude.Results.{or_err, ◌>>=◌, ◌>>◌}
use http_gateway.External.Http.{Http, get}
use http_gateway.Messages.{AdmissionTicket, Request}

abbrev pub admission_scope_header : String
admission_scope_header = "x-breeze-admission-scope"

abbrev pub admission_token_header : String
admission_token_header = "x-breeze-admission-token"

-- What a backend error wraps: a failure of the client or a library, or a message.
pub data Cause : Type 0 where
  client : Cause
  message : String → Cause

pub data AdmissionError : Type 0 where
  backend : Cause → AdmissionError
  timeout invalid_ticket invalid_recorder_url participation_lost : AdmissionError

abbrev pub guard : Bool → AdmissionError → Result AdmissionError (Unit {0})
guard true e = ok tt
guard false e = err e

module _ (H : Http) where
  open H use {Headers, HeaderValue, Uri, get_all, insert, value_from_str, value_to_str}

  pub data AcquireOutcome : Type 0 where
    acquired : AdmissionTicket H → AcquireOutcome
    busy no_recorder not_participant not_eligible quota_exhausted : AcquireOutcome

  -- `AdmissionTicket::new`.
  unfoldable pub new_ticket : String → String → Result AdmissionError (AdmissionTicket H)
  new_ticket scope token = do
    guard
        (not (
          is_empty_str (trim scope)
          || is_empty_str (trim token)
          || not (is_ascii scope)
          || not (is_ascii token)))
        invalid_ticket
    s ← or_err (value_from_str scope) invalid_ticket
    t ← or_err (value_from_str token) invalid_ticket
    ok (record { scope = s; token = t; origin = none })

  -- `scope()` and `token()`; `none` where `expect` panics.
  abbrev pub ticket_scope : AdmissionTicket H → Option String
  ticket_scope t = value_to_str t.scope

  abbrev pub ticket_token : AdmissionTicket H → Option String
  ticket_token t = value_to_str t.token

  abbrev pub scheme_is : String → Option String → Bool
  scheme_is s none = false
  scheme_is s (some t) = str_eq t s

  unfoldable pub with_origin : AdmissionTicket H → Uri → Result AdmissionError (AdmissionTicket H)
  with_origin t u =
      if not (scheme_is "http" (H.uri_scheme u))
        || not (is_some (H.uri_authority u))
        || not (str_eq (H.uri_path u) "/")
        || is_some (H.uri_query u)
      then err invalid_recorder_url
      else ok (record t { origin = some u })

  -- The `match` of `from_headers` on the values of the two headers; `get` is the first value.
  unfoldable pub ticket_of_values :
      List HeaderValue → List HeaderValue → Result AdmissionError (Option (AdmissionTicket H))
  ticket_of_values [] [] = ok none
  ticket_of_values (scope ∷ scopes) (token ∷ tokens) = do
    guard (length (scope ∷ scopes) == 1 && length (token ∷ tokens) == 1) invalid_ticket
    s ← or_err (value_to_str scope) invalid_ticket
    t ← or_err (value_to_str token) invalid_ticket
    ticket ← new_ticket s t
    ok (some ticket)
  ticket_of_values _ _ = err invalid_ticket

  unfoldable pub from_headers : Headers → Result AdmissionError (Option (AdmissionTicket H))
  from_headers h =
      ticket_of_values (get_all h admission_scope_header) (get_all h admission_token_header)

  unfoldable pub attach : AdmissionTicket H → Request H → Request H
  attach t r = record r {
    headers =
        insert (insert r.headers admission_scope_header t.scope) admission_token_header t.token;
    ticket = some t;
  }

-- A provider is shared by reference: the registry holds its address.
abbrev pub ProviderRef : Type 0
ProviderRef = ℕ

abbrev pub AdmissionRegistry : Type 0
AdmissionRegistry = List (String × ProviderRef)

pub data RegistrationError : Type 0 where
  empty_name : RegistrationError
  duplicate : String → RegistrationError

unfoldable pub get_provider : AdmissionRegistry → String → Option ProviderRef
get_provider [] name = none
get_provider ((n, p) ∷ rest) name = if str_eq n name then some p else get_provider rest name

-- `register`: the map after the call, and its result.
unfoldable pub register :
    AdmissionRegistry
    → String
    → ProviderRef
    → AdmissionRegistry × Result RegistrationError (Unit {0})
register registry name provider =
    if is_empty_str (trim name)
    then (registry, err empty_name)
    else elim (get_provider registry name) [
      | some p ↦ (registry, err (duplicate name))
      | none ↦ ((name, provider) ∷ registry, ok tt)
    ]
