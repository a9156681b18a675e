-- ===== src/Redis/Slots/Execution.antt =====
-- What a command of src/redis_admission.rs leaves of the grants when the writer executes it.
use http_gateway.Prelude.{
  ℕ, ◌<◌, String, ◌≡◌, refl, sym, ap, subst, ◌∙◌, inl, inr, true, false, not, ok, List, is_some,
  Bool-cases,
}
use http_gateway.External.Http.{Http}
use http_gateway.External.Router.{Router}
use http_gateway.External.Json.{Json}
use http_gateway.External.Redis.{Command, Value, other, reply, Writer}
use http_gateway.Redis.Replies.{read_reserved}
use http_gateway.Redis.Scripts.{run_set}
use http_gateway.Redis.Scripts.Effects.{read_reserved-run_set}
use http_gateway.Redis.Acquire.{Provider, send}
use http_gateway.Redis.Slots.{Grant, World, granted_by, Runs, gets, hgets, counts, sets, refuses}
use http_gateway.Redis.Slots.Grants.{
  IsGranted, Grows, granted_by-Grows, AreKept, granted_by-AreKept,
}
use http_gateway.Redis.Slots.Tickets.{IsRecorded}

module _ (H : Http) (R : Router) (J : Json) (W : Writer) (p : Provider) where
  -- The effect of a command on the grants.
  pub record Executed (w : World H R J W p) (c : Command) (v : Value) (s : W.Store)
      (gs : List Grant) : Type 0 where
    pub keeps : AreKept W s w.now gs
    pub grows : Grows w.granted gs
    pub says : IsRecorded H R J gs (send c, reply v)

  unchanged :
      (w : World H R J W p) (c : Command) (v : Value) (s : W.Store) (gs : List Grant)
      → AreKept W w.store w.now w.granted
      → s ≡ w.store
      → gs ≡ w.granted
      → IsRecorded H R J gs (send c, reply v)
      → Executed w c v s gs
  unchanged w c v s gs kept same_store same r = record {
    keeps =
        subst (λ x. AreKept W x w.now gs) (sym same_store)
          (subst (AreKept W w.store w.now) (sym same) kept);
    grows = λ key token g. subst (IsGranted key token) (sym same) g;
    says = r;
  }

  granted_by-IsGranted :
      (s : W.Store) (now : ℕ) (key value : String) (ttl : ℕ) (gs : List Grant)
      → 0 < ttl
      → read_reserved (reply (run_set W s now key value ttl).0) ≡ ok true
      → IsGranted key value (granted_by W s now key value ttl gs)
  granted_by-IsGranted s now key value ttl gs positive e =
      elim (Bool-cases (is_some (W.read s now key))) [
        | inr free ↦ rw free (inl (refl, refl))
        | inl full ↦ absurd (
            let told = read_reserved-run_set W s now key value ttl positive in
            let bad : ok true ≡ ok false = sym e ∙ told ∙ ap (λ b. ok (not b)) full in cc)
      ]

  pub Runs-Executed :
      (w : World H R J W p) (c : Command) (v : Value) (s : W.Store) (gs : List Grant)
      → AreKept W w.store w.now w.granted
      → Runs H R J W p w c v s gs
      → Executed w c v s gs
  unfolding read_reserved
  Runs-Executed w c v s gs kept (gets key e d) = unchanged w _ v s gs kept e d tt
  Runs-Executed w c v s gs kept (hgets key field e d) = unchanged w _ v s gs kept e d tt
  Runs-Executed w c v s gs kept (counts key field n e d) = unchanged w _ v s gs kept e d tt
  Runs-Executed w c v s gs kept (refuses key value x e d) = unchanged w _ v s gs kept e d (λ told.
      absurd (
        let bad : read_reserved (reply other) ≡ ok true =
          subst (λ y. read_reserved (reply y) ≡ ok true) x told in
        cc))
  Runs-Executed w c v s gs kept (sets key value ttl positive e d) = record {
    keeps =
        subst (λ x. AreKept W x w.now gs) (sym (ap (λ (x : Value × W.Store). x.1) e))
          (subst (AreKept W (run_set W w.store w.now key value ttl).1 w.now) (sym d)
            (granted_by-AreKept W w.store w.now key value ttl w.granted positive kept));
    grows = λ k t g.
        subst (IsGranted k t) (sym d)
          (granted_by-Grows W w.store w.now key value ttl w.granted k t g);
    says = λ told. subst (IsGranted key value) (sym d) (
        granted_by-IsGranted w.store w.now key value ttl w.granted positive (
          subst (λ (y : Value). read_reserved (reply y) ≡ ok true)
            (ap (λ (x : Value × W.Store). x.0) e) told));
  }
