-- ===== src/Redis/Receiver.antt =====
-- The receiver's side of src/redis_admission.rs: `complete`, `renew` and `owns`.
pub mod Ownership
use http_gateway.Prelude.{
  ℕ, zero, suc, ◌&&◌, String, Bool, true, false, Option, none, some, Result, ok, err, bytes_eq,
}
use http_gateway.External.Http.{Http}
use http_gateway.External.Redis.{
  Command, get, eval, Script, complete, renew, Value, nil, bulk_string, Reply, reply, failed,
}
use http_gateway.Messages.{AdmissionTicket}
use http_gateway.Admission.{AdmissionError, backend, client, ticket_scope, ticket_token}
use http_gateway.Effects.{ret, call}
use http_gateway.Redis.Acquire.{Provider, slot_key}
use http_gateway.Redis.Execution.{Sent}
use http_gateway.Redis.Replies.{read_transition, unexpected}
use http_gateway.Redis.Utf8.Encoding.{as_bytes}

-- The reply to the reading of `owns`.
unfoldable pub read_owner : String → Reply → Result AdmissionError Bool
read_owner token (reply nil) = ok false
read_owner token (reply (bulk_string bytes)) = ok (bytes_eq bytes (as_bytes token))
read_owner token failed = err (backend client)
read_owner token (reply v) = err (unexpected "unexpected Redis reservation response")

abbrev pub transition : Provider → Script → String → String → Option ℕ → Sent Bool
transition p script scope token ttl =
    call (eval script (slot_key p scope) token ttl)
      λ r. ret (read_transition "unexpected Redis admission transition response" r)

-- `ticket.scope()` and `ticket.token()`, which panic where a header value is no text: then there is
-- no program.
abbrev pub with_texts :
    Option String → Option String → (String → String → Sent Bool) → Option (Sent Bool)
with_texts none token f = none
with_texts (some scope) none f = none
with_texts (some scope) (some token) f = some (f scope token)

module _ (H : Http) (p : Provider) (ticket : AdmissionTicket H) where
  unfoldable pub complete_ticket : Option (Sent Bool)
  unfolding read_transition
  complete_ticket =
      with_texts (ticket_scope H ticket) (ticket_token H ticket)
        (λ scope token. transition p complete scope token none)

  unfoldable pub renew_ticket : Option (Sent Bool)
  unfolding read_transition
  renew_ticket =
      with_texts (ticket_scope H ticket) (ticket_token H ticket)
        (λ scope token. transition p renew scope token (some p.ttl_ms))

  unfoldable pub owns : Option (Sent Bool)
  unfolding read_owner
  owns =
      with_texts (ticket_scope H ticket) (ticket_token H ticket)
        (λ scope token. call (get (slot_key p scope)) (λ r. ret (read_owner token r)))
