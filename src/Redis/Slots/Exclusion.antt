-- ===== src/Redis/Slots/Exclusion.antt =====
-- One reservation at a time: the slots of src/redis_admission.rs, whatever acquisitions there are.
use http_gateway.Prelude.{
  update, update-all, ℕ, ◌+◌, ◌<◌, String, ◌≡◌, sym, ap, subst, ◌∙◌, inl, inr, some, List, [], ◌∷◌,
  arith,
}
use mathlib.Core.Option.{some-injective}
use http_gateway.External.Http.{Http}
use http_gateway.External.Router.{Router}
use http_gateway.External.Json.{Json}
use http_gateway.External.Redis.{reply, failed, Writer}
use http_gateway.Effects.{ret, call}
use http_gateway.Redis.Acquire.{Provider, send}
use http_gateway.Redis.Slots.{
  Grant, Control, running, waiting, Client, World, Step, wait, meddle, begin, tell, submit, execute,
  answer, lose, cut, finish, end, prolong, Reach, here, next, start,
}
use http_gateway.Redis.Slots.Grants.{
  IsLive, Grows, retime-Grows, AreKept, later-AreKept, meddled-AreKept, ended-AreKept,
  prolonged-AreKept,
}
use http_gateway.Redis.Slots.Tickets.{
  AreRecorded-append, local-IsRecorded, failed-IsRecorded, AreGiven, AreGiven-Grows, noted-AreGiven,
  program-Grants,
}
use http_gateway.Redis.Slots.Clients.{IsOnCourse, IsTrue, IsSound, IsOnCourse-Grows, IsSound-Grows}
use http_gateway.Redis.Slots.Execution.{Runs-Executed}

module _ (H : Http) (R : Router) (J : Json) (W : Writer) (p : Provider) where
  -- What the writer grants is kept, every client goes on as it must, and every ticket was granted.
  record IsOrderly (w : World H R J W p) : Type 0 where
    kept : AreKept W w.store w.now w.granted
    sound : (i : ℕ) → IsSound H R J W p w.granted (w.clients i)
    given : AreGiven H R J W p w.granted w.given

  set_aside :
      (w : World H R J W p) (i : ℕ) (c : Client H R J) (gs : List Grant)
      → IsOrderly w
      → Grows w.granted gs
      → IsSound H R J W p gs c
      → (j : ℕ) → IsSound H R J W p gs (update w.clients i c j)
  set_aside w i c gs o grows s =
      update-all (λ j x. IsSound H R J W p gs x) w.clients i c
        (λ j apart. IsSound-Grows H R J W p w.granted gs (w.clients j) grows (o.sound j)) s

  same : (gs : List Grant) → Grows gs gs
  same gs key token g = g

  in_control :
      (w : World H R J W p) (i : ℕ) (c : Control H R J)
      → IsOrderly w
      → (w.clients i).control ≡ c
      → IsOnCourse H R J W p w.granted c
  in_control w i c o e = subst (IsOnCourse H R J W p w.granted) e (o.sound i).0

  -- A client is changed, and nothing else.
  changed :
      (w : World H R J W p) (i : ℕ) (c : Client H R J)
      → IsOrderly w
      → IsSound H R J W p w.granted c
      → IsOrderly (record w { clients = update w.clients i c })
  changed w i c o s = record {
    kept = o.kept;
    sound = set_aside w i c w.granted o (same w.granted) s;
    given = o.given;
  }

  Step-IsOrderly : {w w' : World H R J W p} → IsOrderly w → Step H R J W p w w' → IsOrderly w'
  Step-IsOrderly {w} o (wait d) = record {
    kept = later-AreKept W w.store w.now d w.granted o.kept;
    sound = o.sound;
    given = o.given;
  }
  Step-IsOrderly {w} o (meddle s e) = record {
    kept = meddled-AreKept W w.store s w.now w.granted e o.kept;
    sound = o.sound;
    given = o.given;
  }
  Step-IsOrderly {w} o (begin i scope path e) =
      changed w i _ o ((program-Grants H R J W p scope path, tt), (o.sound i).1)
  Step-IsOrderly {w} o (tell i scope path log x r k e l) =
      let (on, told) = in_control w i (running scope path log (call x k)) o e in
      changed w i _ o (
        (
          on r,
          AreRecorded-append H R J w.granted log (x, r) told
              (local-IsRecorded H R J w.granted x r l),
        ),
        (o.sound i).1,
      )
  Step-IsOrderly {w} o (submit i scope path log c k e) =
      changed w i _ o (in_control w i (running scope path log (call (send c) k)) o e, tt)
  Step-IsOrderly {w} o (execute i c v s gs e r) =
      let x = Runs-Executed H R J W p w c v s gs o.kept r in
      record {
        kept = x.keeps;
        sound = set_aside w i _ gs o x.grows (
          IsOnCourse-Grows H R J W p w.granted gs (w.clients i).control x.grows (o.sound i).0,
          x.says,
        );
        given = AreGiven-Grows H R J W p w.granted gs w.given x.grows o.given;
      }
  Step-IsOrderly {w} o (answer i scope path log c k v e f) =
      let (on, told) = in_control w i (waiting scope path log c k) o e in
      changed w i _ o (
        (
          on (reply v),
          AreRecorded-append H R J w.granted log (send c, reply v) told
              (subst (IsTrue H R J W p w.granted) f (o.sound i).1),
        ),
        (o.sound i).1,
      )
  Step-IsOrderly {w} o (lose i scope path log c k e) =
      let (on, told) = in_control w i (waiting scope path log c k) o e in
      changed w i _ o (
        (
          on failed,
          AreRecorded-append H R J w.granted log (send c, failed) told
              (failed-IsRecorded H R J w.granted c),
        ),
        (o.sound i).1,
      )
  Step-IsOrderly {w} o (cut i scope path log c k e) = changed w i _ o (tt, (o.sound i).1)
  Step-IsOrderly {w} o (finish i scope path log out e) =
      let (on, told) = in_control w i (running scope path log (ret out)) o e in
      record {
        kept = o.kept;
        sound = set_aside w i _ w.granted o (same w.granted) (tt, (o.sound i).1);
        given = noted-AreGiven H R J W p w.granted scope path log out w.given on told o.given;
      }
  Step-IsOrderly {w} o (end key token) =
      let grows = retime-Grows w.now key token w.now w.granted in
      record {
        kept = ended-AreKept W w.store w.now key token w.granted o.kept;
        sound = λ j. IsSound-Grows H R J W p w.granted _ (w.clients j) grows (o.sound j);
        given = AreGiven-Grows H R J W p w.granted _ w.given grows o.given;
      }
  Step-IsOrderly {w} o (prolong key token ttl positive) =
      let grows = retime-Grows w.now key token (w.now + ttl) w.granted in
      record {
        kept = prolonged-AreKept W w.store w.now key token ttl w.granted positive o.kept;
        sound = λ j. IsSound-Grows H R J W p w.granted _ (w.clients j) grows (o.sound j);
        given = AreGiven-Grows H R J W p w.granted _ w.given grows o.given;
      }

  Reach-IsOrderly :
      (s : W.Store) (now : ℕ) {w : World H R J W p}
      → Reach H R J W p (start H R J W p s now) w
      → IsOrderly w
  Reach-IsOrderly s now here = record { kept = tt; sound = λ i. (tt, tt); given = tt }
  Reach-IsOrderly s now (next r x) = Step-IsOrderly (Reach-IsOrderly s now r) x

  -- The writer holds the token.
  abbrev pub IsHeld : World H R J W p → (key token : String) → Type 0
  IsHeld w key token =
      (until : ℕ) × (W.read w.store w.now key ≡ some (token, until)) × (w.now < until)

  live-IsHeld :
      (w : World H R J W p) (key token : String) (gs : List Grant)
      → AreKept W w.store w.now gs
      → IsLive w.now key token gs
      → IsHeld w key token
  live-IsHeld w key token (g ∷ gs) kept (inl (k, t, live)) =
      let (until, found, least) = kept.0 live in
      (
        until,
        ap (W.read w.store w.now) (sym k) ∙ found ∙ ap (λ x. some (x, until)) t,
        omega (arith, live, least),
      )
  live-IsHeld w key token (g ∷ gs) kept (inr later) = live-IsHeld w key token gs kept.1 later
  live-IsHeld w key token [] kept never = absurd never

  -- However acquisitions of one prefix, completions and renewals interleave, and whatever is late, lost or
  -- cut off, as long as other clients leave reserved keys alone: until it is completed or its time is
  -- over, a grant holds its key on the writer with its token; so two grants of one key that are not over
  -- have one token; and every ticket that was given carries the token of a grant on the slot of its scope.
  pub Reach-IsExclusive :
      (s : W.Store) (now : ℕ) {w : World H R J W p}
      → Reach H R J W p (start H R J W p s now) w
      → ((key token : String) → IsLive w.now key token w.granted → IsHeld w key token)
        × ((key token token' : String)
            → IsLive w.now key token w.granted
            → IsLive w.now key token' w.granted
            → token ≡ token')
        × AreGiven H R J W p w.granted w.given
  Reach-IsExclusive s now {w} r =
      let o = Reach-IsOrderly s now r in
      (
        (λ key token live. live-IsHeld w key token w.granted o.kept live),
        (λ key token token' live live'.
            let (until, found, later) = live-IsHeld w key token w.granted o.kept live in
            let (until', found', later') = live-IsHeld w key token' w.granted o.kept live' in
            ap (λ (x : String × ℕ). x.0) (some-injective _ _ (sym found ∙ found'))),
        o.given,
      )
