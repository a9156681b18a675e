-- ===== src/Redis/Registration/Recorder.antt =====
-- src/redis_admission/registration.rs: `RecorderRegistration`, which publishes a recorder's address.
pub mod Publishing
use http_gateway.Prelude.{
  ℕ, ◌%◌, String, Bool, true, false, not, ◌&&◌, ◌||◌, Option, some, Result, ok, List, ltb, ◌==◌,
  is_empty_str, Duration, as_millis, subsec_nanos,
}
use http_gateway.Prelude.Results.{or_err, ◌>>=◌, ◌>>◌}
use http_gateway.External.Http.{Http}
use http_gateway.External.Json.{Json, JsonText, Address}
use http_gateway.External.Redis.{set_nx_px, eval, Script, complete, renew}
use http_gateway.Admission.{AdmissionError, backend, client, guard, new_ticket, with_origin}
use http_gateway.Effects.{ret, call}
use http_gateway.Redis.Execution.{Sent}
use http_gateway.Redis.Policy.{i64_max, chars}
use http_gateway.Redis.Replies.{hex, unexpected, read_reserved, read_transition}

-- The client of the writer is left out: it is who executes what is sent.
pub record RecorderRegistration : Type 0 where
  pub key : String
  pub value : String
  pub ttl_ms : ℕ

module _ (H : Http) (J : Json) (T : JsonText J chars) (uri_to_string : H.Uri → List ℕ) where
  abbrev pub address_of : H.Uri → ℕ → Address
  address_of url random = record { url = uri_to_string url; owner = chars (hex 32 random) }

  -- `new`, with the random number of the owner.
  unfoldable pub new_registration :
      String → H.Uri → Duration → ℕ → Result AdmissionError RecorderRegistration
  unfolding new_ticket with_origin
  new_registration key url ttl random = do
    ticket ← new_ticket H "registration" "validation"
    placed ← with_origin H ticket url
    guard
        (not (
          is_empty_str key
          || as_millis ttl == 0
          || ltb i64_max (as_millis ttl)
          || not (subsec_nanos ttl % 1_000_000 == 0)))
        (unexpected "registration key and whole-millisecond TTL must be valid")
    value ← or_err (T.serialize_address (address_of url random)) (backend client)
    ok (record { key = key; value = value; ttl_ms = as_millis ttl })

-- The operations of a registration.
module _ (g : RecorderRegistration) where
  unfoldable pub register_recorder : Sent Bool
  unfolding read_reserved
  register_recorder = call (set_nx_px g.key g.value g.ttl_ms) (λ r. ret (read_reserved r))

  abbrev pub send_script : Script → Sent Bool
  send_script script =
      call (eval script g.key g.value (some g.ttl_ms))
        λ r. ret (read_transition "unexpected Redis registration response" r)

  unfoldable pub renew_recorder : Sent Bool
  unfolding read_transition
  renew_recorder = send_script renew

  unfoldable pub unregister : Sent Bool
  unfolding read_transition
  unregister = send_script complete
