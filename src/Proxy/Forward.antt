-- ===== src/Proxy/Forward.antt =====
-- src/proxy.rs: a request is prepared and sent to the origin, once.
pub mod Prepared
pub mod Laws
pub mod Attempts
use http_gateway.Prelude.{
  ℕ, String, Bool, true, false, not, ◌&&◌, ◌||◌, Option, none, some, Result, ok, err, List, [], ◌∷◌,
  str_eq, if◌then◌else◌, is_some, ◌==◌,
}
use http_gateway.External.Http.{Http, Response, GatewayResponse, get, or_insert}
use http_gateway.Messages.{AdmissionTicket, FallbackProxy, Request}
use http_gateway.Admission.{attach}
use http_gateway.Effects.{Prog, ret, call, ◌>>=◌, perform}
use http_gateway.Awaits.{
  Await, Answer, send, spawn_tunnel, panic, Sent, answered, connect_failed, request_failed,
}
use http_gateway.Proxy.Headers.{
  host_header, x_forwarded_host, x_forwarded_proto, is_upgrade, remove_hop_by_hop_headers,
  append_forwarded_for,
}

pub data ProxyConfigError : Type 0 where
  missing_scheme missing_authority unexpected_path : ProxyConfigError
  unsupported_scheme : String → ProxyConfigError

abbrev pub bad_gateway : ℕ
bad_gateway = 502

abbrev pub service_unavailable : ℕ
service_unavailable = 503

abbrev pub switching_protocols : ℕ
switching_protocols = 101

module _ (H : Http) where
  open H use {Headers, Uri}

  -- `FallbackProxy::from_admission`.
  abbrev pub from_admission : FallbackProxy H
  from_admission = record { scheme = "http"; authority = none }

  -- `FallbackProxy::new`.
  unfoldable pub new_proxy : Uri → Result ProxyConfigError (FallbackProxy H)
  new_proxy upstream = elim (H.uri_scheme upstream) [
    | none ↦ err missing_scheme
    | some scheme ↦
        if not (str_eq scheme "http")
        then err (unsupported_scheme scheme)
        else elim (H.uri_authority upstream) [
          | none ↦ err missing_authority
          | some authority ↦
              if not (str_eq (H.uri_path upstream) "/") || is_some (H.uri_query upstream)
              then err unexpected_path
              else ok (record { scheme = scheme; authority = some authority })
        ]
  ]

  abbrev pub content_type_header : String
  content_type_header = "content-type"

  unfoldable pub error_response : ℕ → String → GatewayResponse H
  error_response status message = record {
    status = status;
    headers =
        H.insert H.no_headers content_type_header (H.value_from_static "text/plain; charset=utf-8");
    body = H.text_body message;
    cors = none;
  }

  unfoldable pub upstream_unavailable : GatewayResponse H
  unfolding error_response
  upstream_unavailable = error_response bad_gateway "fallback upstream unavailable"

  -- `extensions().get::<AdmissionTicket>().and_then(AdmissionTicket::origin)`.
  abbrev pub ticket_origin : Option (AdmissionTicket H) → Option Uri
  ticket_origin none = none
  ticket_origin (some t) = t.origin

  abbrev pub origin_authority : Option Uri → Option String
  origin_authority none = none
  origin_authority (some u) = H.uri_authority u

  -- The origin of the ticket, and where it has none, the proxy's own.
  abbrev pub or_else : Option String → Option String → Option String
  or_else none other = other
  or_else (some a) other = some a

  unfoldable pub target_authority : FallbackProxy H → Request H → Option String
  target_authority proxy r = or_else (origin_authority (ticket_origin r.ticket)) proxy.authority

  abbrev pub or_slash : Option String → String
  or_slash none = "/"
  or_slash (some p) = p

  abbrev pub insert_host : Headers → Option H.HeaderValue → Headers
  insert_host h none = h
  insert_host h (some host) = or_insert H h x_forwarded_host host

  unfoldable pub prepare_headers : Headers → String → Bool → Headers
  prepare_headers headers peer upgrade =
      let fewer = remove_hop_by_hop_headers H headers upgrade in
      let forwarded = append_forwarded_for H fewer peer in
      insert_host (or_insert H forwarded x_forwarded_proto (H.value_from_static "http"))
        (get H headers host_header)

  abbrev pub reattach : Option (AdmissionTicket H) → Request H → Request H
  reattach none r = r
  reattach (some t) r = attach H t r

  -- `prepare_request` behind its `expect`: the authority is given, and the error is the text of `http::Error`.
  unfoldable pub prepare_request :
      FallbackProxy H → Request H → String → Bool → String → Result String (Request H)
  unfolding prepare_headers
  prepare_request proxy r peer upgrade authority =
      elim (H.build_uri proxy.scheme authority (or_slash (H.uri_path_and_query r.uri))) [
        | err text ↦ err text
        | ok uri ↦ ok (
            reattach r.ticket
              (record r { uri = uri; headers = prepare_headers r.headers peer upgrade }))
      ]

  -- What `try_forward_body` leaves: the response, or `none` for `ConnectFailure`; and the upgrade
  -- handle, unless a tunnel took it.
  abbrev pub Attempt : Type 0
  Attempt = Option (GatewayResponse H) × Option H.OnUpgrade

  -- `downstream_upgrade.take()`, and the tunnel's task.
  abbrev pub hand_over : Option ℕ → Option H.OnUpgrade → GatewayResponse H → Prog (Answer H) Attempt
  hand_over upgrades none response = ret (some response, none)
  hand_over upgrades (some handle) response =
      call (spawn_tunnel upgrades handle response) (λ _. ret (some response, none))

  abbrev pub relay_or_strip :
      Option ℕ → Option H.OnUpgrade → GatewayResponse H → Prog (Answer H) Attempt
  relay_or_strip upgrades downstream response =
      if response.status == switching_protocols
      then hand_over upgrades downstream response
      else ret (
        some (record response { headers = remove_hop_by_hop_headers H response.headers false }),
        downstream,
      )

  -- The `match` on the client's answer.
  abbrev pub after_send : Option ℕ → Option H.OnUpgrade → Sent H → Prog (Answer H) Attempt
  after_send upgrades downstream (answered response) = relay_or_strip upgrades downstream response
  after_send upgrades downstream connect_failed = ret (none, downstream)
  after_send upgrades downstream request_failed = ret (some upstream_unavailable, downstream)

  -- The request as it is sent: its task handle is taken out.
  abbrev pub without_tasks : Request H → Request H
  without_tasks r = record r { upgrades = none }

  abbrev pub send_prepared :
      Option H.OnUpgrade → Result String (Request H) → Prog (Answer H) Attempt
  send_prepared downstream (err text) = ret (some (error_response bad_gateway text), downstream)
  send_prepared downstream (ok r) = call (send (without_tasks r)) (after_send r.upgrades downstream)

  abbrev pub send_to :
      FallbackProxy H
      → Request H
      → String
      → Option H.OnUpgrade
      → Option String
      → Prog (Answer H) Attempt
  send_to proxy r peer downstream none = call panic (λ never. absurd never)
  send_to proxy r peer downstream (some authority) =
      send_prepared downstream (prepare_request proxy r peer (is_upgrade H r.headers) authority)

  unfoldable pub try_forward_body :
      FallbackProxy H → Request H → String → Option H.OnUpgrade → Prog (Answer H) Attempt
  unfolding target_authority
  try_forward_body proxy r peer downstream =
      if not (is_some proxy.authority) && not (is_some (ticket_origin r.ticket))
      then ret (some (error_response service_unavailable "recorder origin is missing"), downstream)
      else send_to proxy r peer downstream (target_authority proxy r)

  abbrev pub or_unavailable : Attempt → GatewayResponse H
  or_unavailable (none, d) = upstream_unavailable
  or_unavailable (some response, d) = response

  -- `is_upgrade(…).then(|| request_upgrade(&mut request))`.
  abbrev pub split_upgrade : Request H → Option H.OnUpgrade × Request H
  split_upgrade r =
      if is_upgrade H r.headers
      then (
        some (H.take_upgrade r.extensions).0,
        record r { extensions = (H.take_upgrade r.extensions).1 },
      )
      else (none, r)

  -- `forward`, by way of `forward_body`.
  unfoldable pub forward :
      FallbackProxy H → Request H → String → Prog (Answer H) (GatewayResponse H)
  unfolding try_forward_body
  forward proxy r peer =
      let (downstream, request) = split_upgrade r in
      try_forward_body proxy request peer downstream >>= λ attempt. ret (or_unavailable attempt)
