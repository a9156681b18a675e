-- ===== src/Proxy/Replay/Laws.antt =====
-- How a recorded request of src/proxy/replay.rs ends: when it is sent a second time, and as what.
use http_gateway.Prelude.{
  ℕ, String, ◌≡◌, refl, sym, ap, subst, ◌⊎◌, inl, inr, Bool, true, false, Option, none, some, List,
  [], ◌∷◌, ◌++◌, str_eq, arith, Bool-cases, ◌==◌,
}
use http_gateway.External.Http.{Http, GatewayResponse}
use http_gateway.Messages.{FallbackProxy, Request}
use http_gateway.Effects.{ret, call, ◌>>=◌, Event, Always, Always->>=, After, Always-since}
use http_gateway.Awaits.{Answer, collect}
use http_gateway.Proxy.Headers.{is_upgrade}
use http_gateway.Proxy.Forward.{
  Attempt, split_upgrade, try_forward_body, or_unavailable, error_response,
}
use http_gateway.Proxy.Forward.Attempts.{
  IsSame, split_upgrade-IsSame, Tried, AfterTry, try_forward_body-AfterTry, Answers,
  or_unavailable-Answers,
}
use http_gateway.Proxy.Replay.{
  not_found, buffered_request, retry_request, settles, replay, record_and_replay, forward_recording,
}

module _ (H : Http) where
  open H use {get_all}

  -- The results of a first attempt after which the request is sent again: the connection failed,
  -- or the origin answered 404 to a request that is no upgrade.
  abbrev pub IsRetried : Bool → Option (GatewayResponse H) → Type 0
  IsRetried upgrade none = Unit {0}
  IsRetried upgrade (some r) = (upgrade ≡ false) × (r.status ≡ not_found)

  abbrev pub IsSettled : Bool → GatewayResponse H → Type 0
  IsSettled upgrade r = (upgrade ≡ true) ⊎ ((r.status == not_found) ≡ false)

  -- The request for the original origin: the message of `r` with the payload that was read, without
  -- a ticket, and of its headers all but those of an admission.
  pub record IsRetry (r : Request H) (bytes : List ℕ) (trailers : Option H.Headers) (q : Request H)
      : Type 0 where
    pub method : q.method ≡ r.method
    pub uri : q.uri ≡ r.uri
    pub version : q.version ≡ r.version
    pub body : q.body ≡ H.buffered bytes trailers
    pub ticket : q.ticket ≡ none
    pub no_scope : get_all q.headers "x-breeze-admission-scope" ≡ []
    pub no_token : get_all q.headers "x-breeze-admission-token" ≡ []
    pub others :
        (name : String)
        → str_eq "x-breeze-admission-scope" name ≡ false
        → str_eq "x-breeze-admission-token" name ≡ false
        → get_all q.headers name ≡ get_all r.headers name

  -- How a recorded request ends, by what was sent and answered.
  pub data Recorded (proxy fallback : FallbackProxy H) (r : Request H) (peer : String)
      (log : List (Event (Answer H))) (response : GatewayResponse H) : Type 0 where
    -- The body cannot be read: nothing is sent.
    unread :
        log ≡ (collect r.body, none) ∷ []
        → response.status ≡ 400
        → Recorded proxy fallback r peer log response
    -- The recorder gets the request with the payload that was read, and its response is final.
    first :
        (bytes : List ℕ) (trailers : Option H.Headers) (q : Request H)
        (es : List (Event (Answer H)))
        → log ≡ (collect r.body, some (bytes, trailers)) ∷ es
        → IsSame H (record r { body = H.buffered bytes trailers }) q
        → Tried H proxy q peer es (some response)
        → IsSettled (is_upgrade H r.headers) response
        → Recorded proxy fallback r peer log response
    -- The recorder gets that request, and then the original origin the same payload once.
    second :
        (bytes : List ℕ) (trailers : Option H.Headers) (q q' : Request H)
        (es fs : List (Event (Answer H))) (a b : Option (GatewayResponse H))
        → log ≡ (collect r.body, some (bytes, trailers)) ∷ es ++ fs
        → IsSame H (record r { body = H.buffered bytes trailers }) q
        → Tried H proxy q peer es a
        → IsRetried (is_upgrade H r.headers) a
        → IsRetry r bytes trailers q'
        → Tried H fallback q' peer fs b
        → Answers H b response
        → Recorded proxy fallback r peer log response

  retry_request-IsRetry :
      (r q : Request H) (bytes : List ℕ) (trailers : Option H.Headers)
      → IsSame H r q
      → IsRetry r bytes trailers (retry_request H q bytes trailers)
  unfolding retry_request
  retry_request-IsRetry r q bytes trailers same = record {
    method = same.method;
    uri = same.uri;
    version = same.version;
    body = refl;
    ticket = refl;
    no_scope = rw (H.get_all-remove, H.get_all-remove) refl;
    no_token = rw (H.get_all-remove) refl;
    others = λ name s t.
        rw (H.get_all-remove, t, H.get_all-remove, s) (ap (λ h. get_all h name) same.headers);
  }

  buffered-IsSame :
      (r q : Request H) (bytes : List ℕ) (trailers : Option H.Headers)
      → IsSame H r q
      → IsSame H
          (record r { body = H.buffered bytes trailers })
          (buffered_request H q bytes trailers)
  buffered-IsSame r q bytes trailers same = record {
    method = same.method;
    uri = same.uri;
    version = same.version;
    headers = same.headers;
    body = refl;
    ticket = same.ticket;
  }

  module _ (proxy fallback : FallbackProxy H) (r q : Request H) (peer : String)
      (same : IsSame H r q) where
    abbrev Ends : List (Event (Answer H)) → GatewayResponse H → Type 0
    Ends log response = Recorded proxy fallback r peer log response

    abbrev is_switch : Bool
    is_switch = is_upgrade H r.headers

    module _ (bytes : List ℕ) (trailers : Option H.Headers) (es : List (Event (Answer H))) where
      abbrev so_far : List (Event (Answer H))
      so_far = (collect r.body, some (bytes, trailers)) ∷ es

      again-Ends :
          (a : Option (GatewayResponse H)) (d : Option H.OnUpgrade)
          → Tried H proxy (buffered_request H q bytes trailers) peer es a
          → IsRetried is_switch a
          → Always Ends so_far (
              try_forward_body H fallback (retry_request H q bytes trailers) peer d >>= λ attempt.
              ret (or_unavailable H attempt))
      again-Ends a d tried retried =
          Always->>= (After so_far (AfterTry H fallback (retry_request H q bytes trailers) peer))
            Ends so_far (try_forward_body H fallback (retry_request H q bytes trailers) peer d) _
            (Always-since so_far (AfterTry H fallback (retry_request H q bytes trailers) peer) _
              (try_forward_body-AfterTry H fallback (retry_request H q bytes trailers) peer d))
            λ log' b after.
              second bytes trailers _ _ es after.0 a b.0 after.1
                (buffered-IsSame r q bytes trailers same) tried retried
                (retry_request-IsRetry r q bytes trailers same) after.2
                (or_unavailable-Answers H b.0 b.1)

      replay-Ends :
          (a : Attempt H)
          → Tried H proxy (buffered_request H q bytes trailers) peer es a.0
          → Always Ends so_far
              (replay H fallback (retry_request H q bytes trailers) peer is_switch a)
      unfolding replay
      replay-Ends (none, d) tried = again-Ends none d tried tt
      replay-Ends (some x, d) tried = elim (Bool-cases (settles H is_switch x)) [
        | inl done ↦
            rw (done, replay)
              (first bytes trailers _ es refl (buffered-IsSame r q bytes trailers same) tried
                (ground arith))
        | inr more ↦ rw (more, replay) (again-Ends (some x) d tried (ground arith, ground arith))
      ]

    record_and_replay-Ends :
        (d : Option H.OnUpgrade) (body : Option (List ℕ × Option H.Headers))
        → Always Ends
            ((collect r.body, body) ∷ [])
            (record_and_replay H proxy fallback q peer is_switch d body)
    unfolding record_and_replay error_response
    record_and_replay-Ends d none = unread refl refl
    record_and_replay-Ends d (some (bytes, trailers)) =
        Always->>=
          (After ((collect r.body, some (bytes, trailers)) ∷ [])
            (AfterTry H proxy (buffered_request H q bytes trailers) peer))
          Ends ((collect r.body, some (bytes, trailers)) ∷ [])
          (try_forward_body H proxy (buffered_request H q bytes trailers) peer d) _
          (Always-since ((collect r.body, some (bytes, trailers)) ∷ [])
            (AfterTry H proxy (buffered_request H q bytes trailers) peer) _
            (try_forward_body-AfterTry H proxy (buffered_request H q bytes trailers) peer d))
          λ log' a after.
            subst
              (λ l.
                Always Ends l
                  (replay H fallback (retry_request H q bytes trailers) peer is_switch a))
              (sym after.1) (replay-Ends bytes trailers after.0 a after.2)

  -- Whatever is answered, the body of a recorded request is read first. Where it cannot be read nothing
  -- is sent and the status is 400. Otherwise the recorder is tried with the request and the payload that
  -- was read; and the original origin once more, with the same payload and without ticket and admission
  -- headers, exactly where the connection failed or, for a request that is no upgrade, where the
  -- response is 404. The response is that of the last attempt, or 502 where it has none.
  pub forward_recording-Ends :
      (proxy fallback : FallbackProxy H) (r : Request H) (peer : String)
      → r.recording_fallback ≡ some fallback
      → Always (Recorded proxy fallback r peer) [] (forward_recording H proxy r peer)
  unfolding forward_recording
  forward_recording-Ends proxy fallback r peer e =
      subst (Always (Recorded proxy fallback r peer) []) (sym recording) (λ body.
        record_and_replay-Ends proxy fallback r
          (split_upgrade H (record r { recording_fallback = none })).1 peer
          (unmarked (split_upgrade-IsSame H (record r { recording_fallback = none }))) _ body)
    where
      recording :
          forward_recording H proxy r peer
          ≡ call (collect r.body) (
              record_and_replay H proxy fallback
                (split_upgrade H (record r { recording_fallback = none })).1
                peer
                (is_upgrade H r.headers)
                (split_upgrade H (record r { recording_fallback = none })).0)
      recording = rw (e, forward_recording) refl

      unmarked :
          {q : Request H} → IsSame H (record r { recording_fallback = none }) q → IsSame H r q
      unmarked same = record {
        method = same.method;
        uri = same.uri;
        version = same.version;
        headers = same.headers;
        body = same.body;
        ticket = same.ticket;
      }
