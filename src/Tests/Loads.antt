-- ===== src/Tests/Loads.antt =====
-- A run of overlapping loads of src/redis_admission/policy.rs.
use http_gateway.Prelude.{ℕ, zero, suc, refl, [], ◌∷◌}
use http_gateway.External.Redis.{Reply, reply, nil, bulk_string}
use http_gateway.Redis.Policy.Store.Loaders.{
  World, Reach, here, next, start, change, begin, lock, execute, finish, cut,
}
use http_gateway.Redis.Policy.Store.Order.{IsOrdered, Reach-IsOrdered}
use http_gateway.Tests.Demo.{demo, table}
use http_gateway.Tests.Recorder.{parse}

-- A missing key at first, and a policy from the first change on.
abbrev value : ℕ → Reply
value zero = reply nil
value (suc n) = reply (bulk_string (123 ∷ 125 ∷ []))

abbrev Run : Type 0
Run =
    (w : World demo table parse value) × Reach demo table parse value (start demo table parse value)
      w

-- Two loads begin; the first reads the missing key, and the policy changes before its reply arrives.
abbrev queued_both : Run
queued_both = (_, next (next here (begin 0 refl)) (begin 1 refl))

abbrev first_read : Run
first_read = (_, next (next queued_both.1 (lock 0 refl refl)) (execute 0 refl))

abbrev first_done : Run
first_done = (_, next (next first_read.1 change) (finish 0 0 refl))

abbrev second_read : Run
second_read = (_, next (next first_done.1 (lock 1 refl refl)) (execute 1 refl))

-- The second reads the policy, while a third is cut off in the queue.
abbrev second_done : Run
second_done = (_, next (next (next second_read.1 (begin 2 refl)) (cut 2 refl)) (finish 1 1 refl))

Reach-IsOrdered_example : IsOrdered demo table parse value second_done.0
Reach-IsOrdered_example = Reach-IsOrdered demo table parse value second_done.1
