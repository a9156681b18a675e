-- ===== src/Tests/Timing.antt =====
-- A run of the loop of src/redis_admission/lease.rs in time: the gateway gets a slot late in its first
-- refresh, and the second refresh takes eight seconds.
use http_gateway.Prelude.{◌≤◌, ◌≡◌, refl, some, arith, true, [], ◌∷◌}
use http_gateway.External.Redis.{reply, bulk_string, okay, get, set_nx_px}
use http_gateway.Redis.Lease.{refresh, read_limit, scan, scan_order, range}
use http_gateway.Redis.Replies.{read_number, decimal, read_reserved, show, show_digits}
use http_gateway.Redis.Lease.Schedule.{
  Cycle, wait, wake, tell, pick, make_valid, own, respond, finish, doze, Reach, here, next, start,
}
use http_gateway.Redis.Lease.Timing.{IsOverdue, Reach-IsOverdue}
use http_gateway.Tests.Provider.{config, first, start_first}

abbrev Run : Type 0
Run = (w : Cycle) × Reach first.holder 10_000 5 (start 0 0) w

abbrev woken : Run
woken = (_, next here (wake 0 refl (omega arith)))

abbrev limited : Run
unfolding refresh read_limit read_number decimal
limited =
    (_, next woken.1 (respond 0 (get "app:max-gateways") _ (reply (bulk_string (49 ∷ []))) refl))

abbrev picked : Run
unfolding refresh read_limit read_number decimal
picked = (_, next limited.1 (pick 0 5 _ refl))

abbrev timed : Run
unfolding refresh read_limit read_number decimal scan scan_order range
timed = (_, next picked.1 (tell 0 _ refl))

abbrev claimed : Run
unfolding refresh read_limit read_number decimal scan scan_order range
claimed = (_, next timed.1 (own 0 (some 0) _ refl))

-- The reply takes ten seconds.
abbrev granted : Run
unfolding refresh read_limit read_number decimal scan scan_order range read_reserved show
    show_digits
granted = (
  _,
  next (next claimed.1 (wait 10_000 (omega arith)))
      (respond 0 (set_nx_px "app:gateway:0" first.holder.token 30_000) _ (reply okay) refl),
)

abbrev valid : Run
unfolding refresh read_limit read_number decimal scan scan_order range read_reserved show
    show_digits
valid = (_, next granted.1 (make_valid 0 30_000 _ refl))

abbrev rested : Run
unfolding refresh read_limit read_number decimal scan scan_order range read_reserved show
    show_digits
rested =
    (_, next (next valid.1 (finish 0 refl)) (doze 10_000 12_000 refl (omega arith, omega arith)))

abbrev expired : Run
unfolding refresh read_limit read_number decimal scan scan_order range read_reserved show
    show_digits
expired = (
  _,
  next (next (next rested.1 (wait 12_000 (omega arith))) (wake 22_000 refl (omega arith)))
      (wait 8_000 (omega arith)),
)

expired_valid : expired.0.valid ≡ some 30_000
unfolding expired
expired_valid = refl

expired_late : 30_000 ≤ expired.0.now
unfolding expired
expired_late = omega arith

Reach-IsOverdue_example : IsOverdue 10_000 expired.0.phase expired.0.now
Reach-IsOverdue_example =
    Reach-IsOverdue "app" config true 7 42 first 5 0 0 start_first (omega arith) expired.1 30_000
      expired_valid expired_late
