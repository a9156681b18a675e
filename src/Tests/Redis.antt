-- ===== src/Tests/Redis.antt =====
-- Runs of src/redis_admission.rs and its modules: an acquisition; a lookup that fails, and the time
-- after it.
use http_gateway.Prelude.{false, Option, some, none, [], ◌+◌, ◌≡◌, refl, true, err, arith, ◌∷◌, ok}
use http_gateway.Redis.Discovery.{try_lookup, drop_lookup, cooling_down}
use http_gateway.Redis.Discovery.Guards.{
  System, take, wait, Reach, here, next, start, IsGuarded, Reach-IsGuarded, Reach-IsCooling,
}
use http_gateway.Effects.{Always}
use http_gateway.Redis.Acquire.{Provider, Quota, acquire, try_acquire_request}
use http_gateway.Redis.Acquire.Course.{Course, acquire-Course}
use http_gateway.Redis.Acquire.Requests.{RequestCourse, try_acquire_request-Course}
use http_gateway.Redis.Policy.{
  prefix, exact, PolicyConfig, CompiledPolicy, indexed, compile_policy, compile_includes,
  compile_excludes, validate_path, prefix_rules, has_marked_segment, trim_end_slashes,
  contains_char, chars, api,
}
use http_gateway.Redis.Policy.Selection.{api-compile_policy}
use http_gateway.Tests.Demo.{demo, table, json, spells}

abbrev looking : System
looking = record {
  discovery = record { retry_after = none; checking = true };
  guards = 1;
  now = 500;
}

looks_up : Reach (start 500) looking
unfolding try_lookup
looks_up = next here (take _ refl)

looking-IsGuarded : IsGuarded looking
looking-IsGuarded = Reach-IsGuarded looks_up

Reach-IsGuarded_example : IsGuarded looking
Reach-IsGuarded_example = Reach-IsGuarded looks_up

abbrev failed : System
failed = record { discovery = drop_lookup 500 false looking.discovery; guards = 0; now = 500 }

abbrev later : System
later = record { discovery = failed.discovery; guards = 0; now = 500 + 9_999 }

Reach-IsCooling_example :
    (later.guards ≡ 0) × (try_lookup later.now later.discovery ≡ err cooling_down)
Reach-IsCooling_example =
    Reach-IsCooling {s = looking} {t = later} 0 looking-IsGuarded refl (next here (wait 9_999))
      (omega arith)

abbrev pub provider : Provider
provider = record {
  key_prefix = "app";
  recorder_url_key = "app:recorder-url";
  counts_key = "app:api-counts";
  ttl_ms = 60_000;
}

abbrev quota : Option Quota
quota = some ("/orders", 10)

acquire-Course_example :
    Always
      (Course demo table json provider "api" quota)
      []
      (acquire demo table json provider "api" quota)
acquire-Course_example = acquire-Course demo table json provider "api" quota

try_acquire_request-Course_example :
    Always
      (RequestCourse demo table json provider "api" "/orders")
      []
      (try_acquire_request demo table json provider "api" "/orders")
try_acquire_request-Course_example =
    try_acquire_request-Course demo table json provider "api" "/orders"

abbrev policy_config : PolicyConfig
policy_config = record {
  case_limit = some 10;
  includes = record { path = "/orders"; kind = exact } ∷ record { path = "/"; kind = prefix } ∷ [];
  excludes = record { path = "/health"; kind = exact } ∷ [];
}

abbrev policy : CompiledPolicy demo table
policy = record {
  case_limit = some 10;
  includes_all = false;
  exact_index = indexed "/orders" ∷ [];
  exact_paths = "/orders" ∷ [];
  prefixes = indexed "/" ∷ indexed "/*__breeze_policy_path" ∷ [];
  excludes = indexed "/health" ∷ [];
}

compile_policy-policy : compile_policy demo table policy_config ≡ ok policy
unfolding compile_policy compile_includes compile_excludes validate_path prefix_rules
    has_marked_segment trim_end_slashes contains_char chars spells
compile_policy-policy = refl

api-compile_policy_example : api demo table policy "/orders" ≡ some "/orders"
api-compile_policy_example =
    api-compile_policy demo table policy_config policy "/orders" compile_policy-policy
