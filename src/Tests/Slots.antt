-- ===== src/Tests/Slots.antt =====
-- A run of an acquisition of src/redis_admission.rs against a writer with no keys.
use http_gateway.Prelude.{String, ◌≡◌, refl, none, arith, ok, true, inl}
use http_gateway.External.Redis.{get, set_nx_px, bulk_string, okay}
use http_gateway.Redis.Acquire.{
  token_of, participating, look_up, draw, close, try_acquire, acquire, held, take_slot, read_origin,
}
use http_gateway.Redis.Slots.{
  World, begin, tell, submit, execute, answer, finish, gets, sets, Reach, here, next, start,
}
use http_gateway.Redis.Slots.Grants.{IsLive}
use http_gateway.Redis.Slots.Exclusion.{IsHeld, Reach-IsExclusive}
use http_gateway.Redis.Slots.Tickets.{AreGiven}
use http_gateway.Redis.Registration.{origin, trim_white}
use http_gateway.Redis.Utf8.{decode, lead}
use http_gateway.Prelude.{trim, is_ascii}
use http_gateway.Admission.{new_ticket, with_origin}
use http_gateway.Redis.Replies.{hex, read_reserved}
use http_gateway.Redis.Scripts.{run_set}
use http_gateway.Tests.Demo.{table}
use http_gateway.Tests.Keys.{Keys, keys}
use http_gateway.Tests.Recorder.{web, json, home_text}
use http_gateway.Tests.Redis.{provider}

abbrev empty : Keys
empty k = none

abbrev Run : Type 0
Run =
    (w : World web table json keys provider) × Reach web table json keys provider
      (start web table json keys provider empty 500) w

abbrev begun : Run
unfolding try_acquire acquire held take_slot read_origin
begun = (_, next here (begin 0 "api" none refl))

abbrev joined : Run
unfolding try_acquire acquire held take_slot read_origin
joined = (_, next begun.1 (tell 0 "api" none _ participating true _ refl tt))

abbrev in_turn : Run
unfolding try_acquire acquire held take_slot read_origin
in_turn = (_, next joined.1 (tell 0 "api" none _ look_up (ok tt) _ refl tt))

abbrev asked : Run
unfolding try_acquire acquire held take_slot read_origin
asked = (_, next in_turn.1 (submit 0 "api" none _ (get "app:recorder-url") _ refl))

abbrev read : Run
unfolding try_acquire acquire held take_slot read_origin
read = (
  _,
  next asked.1 (
      execute 0 (get "app:recorder-url") (bulk_string home_text) _ _ refl
        (gets "app:recorder-url" refl refl)),
)

abbrev told : Run
unfolding try_acquire acquire held take_slot read_origin origin decode trim_white lead
told = (
  _,
  next read.1 (answer 0 "api" none _ (get "app:recorder-url") _ (bulk_string home_text) refl refl),
)

abbrev drawn : Run
unfolding try_acquire acquire held take_slot read_origin origin decode trim_white lead
drawn = (_, next told.1 (tell 0 "api" none _ draw (1, 2) _ refl tt))

-- The token of the two numbers, in hexadecimal digits.
abbrev token : String
token = token_of (1, 2)

abbrev bidding : Run
unfolding try_acquire acquire held take_slot read_origin origin decode trim_white lead new_ticket
    with_origin trim is_ascii hex
bidding =
    (_, next drawn.1 (submit 0 "api" none _ (set_nx_px "app:inflight:api" token 60_000) _ refl))

abbrev reserved : Run
unfolding try_acquire acquire held take_slot read_origin origin decode trim_white lead new_ticket
    with_origin trim is_ascii hex run_set
reserved = (
  _,
  next bidding.1 (
      execute 0 (set_nx_px "app:inflight:api" token 60_000) okay _ _ refl
        (sets "app:inflight:api" token 60_000 (omega arith) refl refl)),
)

abbrev answered : Run
unfolding try_acquire acquire held take_slot read_origin origin decode trim_white lead new_ticket
    with_origin trim is_ascii hex run_set read_reserved
answered = (
  _,
  next reserved.1
      (answer 0 "api" none _ (set_nx_px "app:inflight:api" token 60_000) _ okay refl refl),
)

abbrev confirmed : Run
unfolding try_acquire acquire held take_slot read_origin origin decode trim_white lead new_ticket
    with_origin trim is_ascii hex run_set read_reserved
confirmed = (_, next answered.1 (tell 0 "api" none _ participating true _ refl tt))

abbrev released : Run
unfolding try_acquire acquire held take_slot read_origin origin decode trim_white lead new_ticket
    with_origin trim is_ascii hex run_set read_reserved
released = (_, next confirmed.1 (tell 0 "api" none _ (close true) tt _ refl tt))

-- The ticket is given.
abbrev ended : Run
unfolding try_acquire acquire held take_slot read_origin origin decode trim_white lead new_ticket
    with_origin trim is_ascii hex run_set read_reserved
ended = (_, next released.1 (finish 0 "api" none _ _ refl))

ended-IsLive : IsLive ended.0.now "app:inflight:api" token ended.0.granted
unfolding ended
ended-IsLive = inl (refl, refl, omega arith)

Reach-IsExclusive_example :
    ((key token : String)
      → IsLive ended.0.now key token ended.0.granted
      → IsHeld web table json keys provider ended.0 key token)
    × ((key token token' : String)
        → IsLive ended.0.now key token ended.0.granted
        → IsLive ended.0.now key token' ended.0.granted
        → token ≡ token')
    × AreGiven web table json keys provider ended.0.granted ended.0.given
Reach-IsExclusive_example = Reach-IsExclusive web table json keys provider empty 500 ended.1

ended-IsHeld : IsHeld web table json keys provider ended.0 "app:inflight:api" token
ended-IsHeld =
    (Reach-IsExclusive web table json keys provider empty 500 ended.1).0 "app:inflight:api" token
      ended-IsLive
