-- ===== src/Redis/Lease/Steps.antt =====
-- The steps of all gateways in src/redis_admission/lease.rs.
use http_gateway.Prelude.{
  update, update-all, ℕ, ◌+◌, ◌<◌, ◌≡◌, ◌≢◌, sym, subst, ◌∙◌, inl, inr, none, some, arith, ◌==◌,
  Bool-cases,
}
use http_gateway.External.Redis.{Command, Value, Writer}
use http_gateway.Redis.Lease.{Holder}
use http_gateway.Redis.Lease.World.{
  idle, Instance, Runs, World, Step, wait, other, begin, finish, give_up, tell, pick, lapse,
  make_valid, own, submit, execute, answer, lose, time_out, Reach, here, next, start,
}
use http_gateway.Redis.Lease.Invariant.{IsGood, Runs_other-Holds}
use http_gateway.Redis.Lease.Preservation.{IsGood-later, IsGood-store, IsGood-execute}
use http_gateway.Redis.Lease.Turns.{
  cleared-IsGood, turned-IsGood, begin-IsGood, tell-IsGood, pick-IsGood, lapse-IsGood,
  make_valid-IsGood, own-IsGood, submit-IsGood, answer-IsGood, lose-IsGood,
}

module _ (W : Writer) (holder : ℕ → Holder) (most : ℕ) where
  abbrev pub AllGood : World W → Type 0
  AllGood w = (i : ℕ) → IsGood W most (holder i) w.store w.now (w.instances i)

  -- No two gateways have the same token, and their times to live are positive.
  pub record AreSetUp : Type 0 where
    pub tokens : (i j : ℕ) → i ≢ j → (holder i).token ≢ (holder j).token
    pub positive : (i : ℕ) → 0 < (holder i).lease_ttl

  module _ (setup : AreSetUp) where
    -- The gateways after a step of one of them that leaves the writer alone.
    one_step :
        (w : World W) (i : ℕ) (g : Instance)
        → AllGood w
        → IsGood W most (holder i) w.store w.now g
        → AllGood (record w { instances = update w.instances i g })
    one_step w i g all good =
        update-all (λ j x. IsGood W most (holder j) w.store w.now x) w.instances i g
          (λ j apart. all j) good

    executed :
        (w : World W) (i : ℕ) (c : Command) (v : Value) (s : W.Store)
        → (w.instances i).flight ≡ some (c, none)
        → Runs W most (holder i) w.store w.now c v s
        → AllGood w
        → (j : ℕ) → j ≢ i
        → IsGood W most (holder j) s w.now (w.instances j)
    executed w i c v s sent run all j apart =
        IsGood-store W most (holder j) w.store s w.now (w.instances j)
          (λ deadline holds.
            Runs_other-Holds W most w.store w.now (holder j) (holder i) deadline
              (w.instances i).valid c (setup.tokens i j (λ e. apart (sym e)))
              ((all i).allowed c sent) run holds)
          (all j)

    execute-AllGood :
        (w : World W) (i : ℕ) (c : Command) (v : Value) (s : W.Store)
        → (w.instances i).flight ≡ some (c, none)
        → Runs W most (holder i) w.store w.now c v s
        → AllGood w
        → AllGood (record w {
          store = s;
          instances = update w.instances i (record (w.instances i) { flight = some (c, some v) });
        })
    execute-AllGood w i c v s sent run all j = elim (Bool-cases (j == i)) [
      | inr apart ↦ rw apart (executed w i c v s sent run all j (ground arith))
      | inl same ↦
          let e : i ≡ j = ground arith in
          rw same (
            subst
              (λ n.
                IsGood W most (holder n) s w.now
                  (record (w.instances i) { flight = some (c, some v) }))
              e
              (IsGood-execute W most (holder i) w.store s w.now (w.instances i) c v sent run
                (all i)))
    ]

    Step-AllGood : {w w' : World W} → AllGood w → Step W holder most w w' → AllGood w'
    Step-AllGood {w} all (wait d) = λ j.
        IsGood-later W most (holder j) w.store w.now (w.now + d) (w.instances j) (omega arith)
          (all j)
    Step-AllGood {w} all (other s e) = λ j.
        IsGood-store W most (holder j) w.store s w.now (w.instances j)
          (λ deadline holds before.
            let (slot, below, (end, at, least)) = holds before in
            (slot, below, (end, e j slot ∙ at, least)))
          (all j)
    Step-AllGood {w} all (begin i e) =
        one_step w i _ all
          (begin-IsGood W most (holder i) w.store w.now (w.instances i) (all i) (setup.positive i))
    Step-AllGood {w} all (finish i e) =
        one_step w i _ all
          (turned-IsGood W most (holder i) w.store w.now (w.instances i) (all i) idle tt)
    Step-AllGood {w} all (give_up i x e) =
        one_step w i _ all
          (cleared-IsGood W most (holder i) w.store w.now (w.instances i) (all i) idle tt)
    Step-AllGood {w} all (tell i k e) =
        one_step w i _ all (tell-IsGood W most (holder i) w.store w.now (w.instances i) (all i) k e)
    Step-AllGood {w} all (pick i n k e) =
        one_step w i _ all
          (pick-IsGood W most (holder i) w.store w.now (w.instances i) (all i) n k e)
    Step-AllGood {w} all (lapse i k e) =
        one_step w i _ all
          (lapse-IsGood W most (holder i) w.store w.now (w.instances i) (all i) k e)
    Step-AllGood {w} all (make_valid i deadline k e) =
        one_step w i _ all
          (make_valid-IsGood W most (holder i) w.store w.now (w.instances i) (all i) deadline k e)
    Step-AllGood {w} all (own i slot k e) =
        one_step w i _ all
          (own-IsGood W most (holder i) w.store w.now (w.instances i) (all i) slot k e)
    Step-AllGood {w} all (submit i c k e) =
        one_step w i _ all
          (submit-IsGood W most (holder i) w.store w.now (w.instances i) (all i) c k e)
    Step-AllGood {w} all (execute i c v s sent run) = execute-AllGood w i c v s sent run all
    Step-AllGood {w} all (answer i c k v e sent) =
        one_step w i _ all
          (answer-IsGood W most (holder i) w.store w.now (w.instances i) (all i) c k v e sent)
    Step-AllGood {w} all (lose i c k e) =
        one_step w i _ all
          (lose-IsGood W most (holder i) w.store w.now (w.instances i) (all i) c k e)
    Step-AllGood {w} all (time_out i c k e) =
        one_step w i _ all
          (cleared-IsGood W most (holder i) w.store w.now (w.instances i) (all i) idle tt)

    pub start-AllGood : (s : W.Store) (now : ℕ) → AllGood (start W s now)
    start-AllGood s now i = record {
      bounded = λ d e. cc;
      held = λ d e. cc;
      allowed = λ c e. cc;
      fits = tt;
    }

    pub Reach-AllGood : {w w' : World W} → AllGood w → Reach W holder most w w' → AllGood w'
    Reach-AllGood all here = all
    Reach-AllGood all (next r st) = Step-AllGood (Reach-AllGood all r) st
