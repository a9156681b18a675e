-- ===== src/Tests/Recorder.antt =====
-- Runs of src/redis_admission/registration.rs and of the loading of src/redis_admission/policy.rs.
use http_gateway.Prelude.{
  ℕ, String, ◌≡◌, refl, ap, sym, ◌∙◌, true, false, ◌&&◌, Option, none, some, ok, arith,
  if◌then◌else◌, from_secs, trim, is_ascii, List, [], ◌∷◌, bytes_eq, bytes_eq_lem, head?,
}
use http_gateway.External.Http.{Http}
use http_gateway.External.Json.{Json, JsonText, Address}
use http_gateway.External.Redis.{Reply, reply, failed, nil, bulk_string}
use http_gateway.Admission.{new_ticket, with_origin}
use http_gateway.Redis.Execution.{run_sent, stored}
use http_gateway.Redis.Policy.{chars, PolicyConfig, default_policy}
use http_gateway.Redis.Policy.Store.{new_snapshot, load, load_all}
use http_gateway.Redis.Policy.Store.Loading.{reload, load-reload}
use http_gateway.Redis.Registration.{origin}
use http_gateway.Redis.Registration.Recorder.{
  RecorderRegistration, new_registration, register_recorder, renew_recorder, unregister,
}
use http_gateway.Redis.Registration.Recorder.Publishing.{
  register_recorder-origin, registration_lem, Leaves,
}
use http_gateway.Redis.Replies.{hex}
use http_gateway.Redis.Utf8.Encoding.{as_bytes}
use http_gateway.Tests.Demo.{demo, table, Location, absolute}
use http_gateway.Tests.Keys.{Keys, keys, look}

-- One URL, with its text, and one owner.
abbrev pub home : Location
home = absolute "http" "r" "/"

abbrev pub home_text : List ℕ
home_text = 104 ∷ 116 ∷ 116 ∷ 112 ∷ 58 ∷ 47 ∷ 47 ∷ 114 ∷ 47 ∷ []

abbrev pub web : Http
web = record demo { parse_uri = λ cs. if bytes_eq cs home_text then some home else none }

abbrev pub owner : List ℕ
unfolding hex chars
owner = chars (hex 32 7)

abbrev pub address : Address
address = record { url = home_text; owner = owner }

abbrev pub json : Json
json = record { parse_address = λ t. some address }

abbrev written : Address → Option String
written a = if bytes_eq a.url home_text && bytes_eq a.owner owner then some "{home}" else none

written-parse :
    (a : Address) (t : String) → written a ≡ some t → json.parse_address (chars t) ≡ some a
written-parse a t e =
    let urls : bytes_eq a.url home_text ≡ true = ground arith in
    let owners : bytes_eq a.owner owner ≡ true = ground arith in
    λ i. some (record {
      url = sym (bytes_eq_lem a.url home_text urls) i;
      owner = sym (bytes_eq_lem a.owner owner owners) i;
    })

brace : head? (chars "{home}") ≡ some 123
unfolding chars
brace = refl

written-head? : (a : Address) (t : String) → written a ≡ some t → head? (chars t) ≡ some 123
written-head? a t e = let is : t ≡ "{home}" = ground arith in ap (λ x. head? (chars x)) is ∙ brace

abbrev json_text : JsonText json chars
json_text = record {
  serialize_address = written;
  parse_address-serialize_address = written-parse;
  head?-serialize_address = written-head?;
}

abbrev registration : RecorderRegistration
registration = record { key = "app:recorder-url"; value = "{home}"; ttl_ms = 30_000 }

new_registration-registration :
    new_registration web json json_text (λ u. home_text) "app:recorder-url" home (from_secs 30) 7
    ≡ ok registration
unfolding new_registration new_ticket with_origin owner chars hex trim is_ascii
new_registration-registration = refl

abbrev free : Keys
free k = none

register_recorder-origin_example :
    (s' : Keys) × (run_sent keys 500 (register_recorder registration) free ≡ some (ok true, s'))
    × (stored (look s' 20_000 "app:recorder-url") ≡ bulk_string (as_bytes "{home}"))
    × (origin web json (as_bytes "{home}") ≡ ok home)
register_recorder-origin_example =
    register_recorder-origin web json json_text (λ u. home_text) keys "app:recorder-url" home
      (from_secs 30) 7 registration free 500 20_000 new_registration-registration refl refl
      (omega arith) (omega arith)

abbrev Answers : Type 0
Answers =
    Leaves keys registration free 500 (run_sent keys 500 (register_recorder registration) free) true
      (some ("{home}", 30_500))
    × Leaves keys registration free 500 (run_sent keys 500 (renew_recorder registration) free) false
        (some ("{home}", 30_500))
    × Leaves keys registration free 500 (run_sent keys 500 (unregister registration) free) false
        none

registration_lem_example : Answers
registration_lem_example = registration_lem keys registration free 500 (omega arith)

-- A parser that knows one text.
abbrev pub parse : List ℕ → Option PolicyConfig
parse bytes = if bytes_eq bytes (123 ∷ 125 ∷ []) then some default_policy else none

-- A missing key, a text that is no policy, no reply in time, a policy, and a failure.
abbrev replies : List (Option Reply)
replies =
    some (reply nil)
    ∷ some (reply (bulk_string (91 ∷ [])))
    ∷ none
    ∷ some (reply (bulk_string (123 ∷ 125 ∷ [])))
    ∷ some failed
    ∷ []

load-reload_example :
    load demo table parse
      (load_all demo table parse (new_snapshot demo table parse) replies)
      (some (reply (bulk_string (123 ∷ 125 ∷ []))))
    ≡ reload demo table parse
        (load_all demo table parse (new_snapshot demo table parse) replies)
        (some (reply (bulk_string (123 ∷ 125 ∷ []))))
load-reload_example =
    load-reload demo table parse replies (some (reply (bulk_string (123 ∷ 125 ∷ []))))
