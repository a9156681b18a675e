-- ===== src/Admitting.antt =====
-- src/gateway.rs with src/redis_admission.rs: a gateway whose registered providers are Redis
-- providers. The acquisition of `Gateway::handle` runs as part of the handling, under its timeout.
pub mod Cuts
pub mod Protocol
pub mod Reservations
use http_gateway.Prelude.{ℕ, String, Bool, true, false, Option, none, some, Result, ok, err}
use http_gateway.External.Http.{Http, GatewayResponse}
use http_gateway.External.Router.{Router}
use http_gateway.External.Json.{Json}
use http_gateway.External.Redis.{Command, Reply}
use http_gateway.Messages.{Request}
use http_gateway.Admission.{ProviderRef}
use http_gateway.Effects.{Prog, ret, call, Event}
use http_gateway.Effects.Interpretation.{interpret}
use http_gateway.Awaits.{
  AcquireCall, Await, Answer, acquire, service, collect, send as send_request, spawn_tunnel, panic,
}
use http_gateway.Gateway.{MatchedService, Gateway, handle}
use http_gateway.Redis.Acquire.{
  Provider, Ask, Told, participating, look_up, snapshot, draw, close, send, Outcome, try_acquire,
  try_acquire_request,
}

module _ (H : Http) (R : Router) (J : Json) where
  -- What the handling of a request waits for: what an acquisition at a provider asks, and the rest of
  -- `Await`.
  pub data Wait : Type 0 where
    ask : ProviderRef → Ask H R J → Wait
    other : Await H → Wait

  -- Only a command is waited for, and it has no reply when the time of the acquisition is over.
  abbrev pub Heard : Wait → Type 0
  Heard (ask p participating) = Bool
  Heard (ask p look_up) = Told H R J look_up
  Heard (ask p snapshot) = Told H R J snapshot
  Heard (ask p draw) = ℕ × ℕ
  Heard (ask p (close available)) = Unit {0}
  Heard (ask p (send c)) = Option Reply
  Heard (other e) = Answer H e

  -- An acquisition that is dropped drops the guard of its lookup, where it holds it.
  abbrev pub drop_guard : {A : Type 0} → ProviderRef → Bool → Prog Heard (Option A)
  drop_guard p true = call (ask p (close false)) (λ u. ret none)
  drop_guard p false = ret none

  abbrev pub is_held_after : Bool → Told H R J look_up → Bool
  is_held_after held (ok u) = true
  is_held_after held (err e) = held

  abbrev pub on_time :
      {A : Type 0} → Prog Heard A → (Reply → Prog Heard A) → Option Reply → Prog Heard A
  on_time late k none = late
  on_time late k (some r) = k r

  -- `tokio::time::timeout` around an acquisition: `held` says whether it holds the guard.
  unfoldable pub cut_off :
      {A : Type 0} → ProviderRef → Bool → Prog (Told H R J) A → Prog Heard (Option A)
  cut_off p held (ret a) = ret (some a)
  cut_off p held (call participating k) = call (ask p participating) (λ b. cut_off p held (k b))
  cut_off p held (call look_up k) =
      call (ask p look_up) (λ r. cut_off p (is_held_after held r) (k r))
  cut_off p held (call snapshot k) = call (ask p snapshot) (λ s. cut_off p held (k s))
  cut_off p held (call draw k) = call (ask p draw) (λ n. cut_off p held (k n))
  cut_off p held (call (close available) k) =
      call (ask p (close available)) (λ u. cut_off p false (k u))
  cut_off p held (call (send c) k) =
      call (ask p (send c)) (on_time (drop_guard p held) (λ r. cut_off p held (k r)))

  module _ (provider_of : ProviderRef → Provider) where
    -- The future that `handle` creates.
    abbrev pub acquisition : AcquireCall H → Prog (Told H R J) (Outcome H R J)
    acquisition c = elim c.path [
      | some path ↦ try_acquire_request H R J (provider_of c.provider) c.scope path
      | none ↦ try_acquire H R J (provider_of c.provider) c.scope
    ]

    abbrev pub answer_by : (e : Await H) → Prog Heard (Answer H e)
    answer_by (acquire c) = cut_off c.provider false (acquisition c)
    answer_by (service r) = call (other (service r)) ret
    answer_by (send_request r) = call (other (send_request r)) ret
    answer_by (collect b) = call (other (collect b)) ret
    answer_by (spawn_tunnel u d r) = call (other (spawn_tunnel u d r)) ret
    answer_by panic = call (other panic) ret

    unfoldable pub handle_admitting :
        Gateway H R → MatchedService H → Request H → String → Prog Heard (GatewayResponse H)
    unfolding cut_off handle try_acquire try_acquire_request
    handle_admitting g matched r peer = interpret answer_by (handle H R g matched r peer)
