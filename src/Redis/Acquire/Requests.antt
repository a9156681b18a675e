-- ===== src/Redis/Acquire/Requests.antt =====
-- What the gateway gets from the Redis provider of src/redis_admission.rs.
use mathlib.Core.Option
use mathlib.Core.Option.{some-injective}
use http_gateway.Prelude.{
  ℕ, String, ◌≡◌, refl, sym, ◌∙◌, inl, inr, Option-cases, Bool, true, false, Option, none, some, ok,
  [], ◌∷◌,
}
use http_gateway.External.Http.{Http}
use http_gateway.External.Router.{Router}
use http_gateway.External.Json.{Json}
use http_gateway.Admission.{not_participant, not_eligible}
use http_gateway.Effects.{Always, After, Always-since, Always-mono}
use http_gateway.Redis.Policy.{CompiledPolicy, api}
use http_gateway.Redis.Acquire.{
  Provider, Quota, participating, snapshot, Outcome, acquire, acquire_eligible, acquire_request_by,
  quota_of, request_quota, try_acquire_request,
}
use http_gateway.Redis.Acquire.Slot.{Log}
use http_gateway.Redis.Acquire.Course.{Course, acquire-Course}

module _ (H : Http) (R : Router) (J : Json) (path : String) where
  -- A loaded policy counts the path: under the name that it gives the path, up to its limit, if it has
  -- one.
  abbrev pub IsCounted : Option (CompiledPolicy H R) → Option Quota → Type 0
  IsCounted none quota = ⊥
  IsCounted (some policy) quota =
      (name : String) × (api H R policy path ≡ some name)
      × (quota ≡ Option.map (λ limit. (name, limit)) policy.case_limit)

  -- No policy is loaded, or it gives the path no name.
  abbrev pub IsUncounted : Option (CompiledPolicy H R) → Type 0
  IsUncounted none = Unit {0}
  IsUncounted (some policy) = api H R policy path ≡ none

  quota_of-map :
      (limit : Option ℕ) (name : String)
      → quota_of H R J limit name ≡ Option.map (λ n. (name, n)) limit
  quota_of-map none name = refl
  quota_of-map (some n) name = refl

  request_quota-IsCounted :
      (policy : Option (CompiledPolicy H R)) (quota : Option Quota)
      → request_quota H R J policy path ≡ some quota
      → IsCounted policy quota
  request_quota-IsCounted none quota e = cc
  request_quota-IsCounted (some policy) quota e = elim (Option-cases (api H R policy path)) [
    | inl unnamed ↦ absurd (nothing (sym (rw (unnamed, request_quota) refl) ∙ e))
    | inr (name, named) ↦ (
      name,
      named,
      some-injective _ _ (sym e ∙ rw (named, request_quota) refl)
          ∙ quota_of-map policy.case_limit name,
    )
  ]
    where
      nothing : {A : Type 0} {a : A} → none ≡ some a → ⊥
      nothing n = cc

  request_quota-IsUncounted :
      (policy : Option (CompiledPolicy H R))
      → request_quota H R J policy path ≡ none
      → IsUncounted policy
  request_quota-IsUncounted none e = tt
  request_quota-IsUncounted (some policy) e = elim (Option-cases (api H R policy path)) [
    | inl unnamed ↦ unnamed
    | inr (name, named) ↦ absurd (
        something {a = quota_of H R J policy.case_limit name}
          (sym (rw (named, request_quota) refl) ∙ e))
  ]
    where
      something : {A : Type 0} {a : A} → some a ≡ none → ⊥
      something n = cc

module _ (H : Http) (R : Router) (J : Json) (p : Provider) (scope path : String) where
  -- The course of a request's acquisition, by the policy that is loaded.
  pub data RequestCourse (log : Log H R J p scope) (o : Outcome H R J) : Type 0 where
    outside : log ≡ (participating, false) ∷ [] → o ≡ ok not_participant → RequestCourse log o
    ineligible :
        (policy : Option (CompiledPolicy H R))
        → IsUncounted H R J path policy
        → log ≡ (participating, true) ∷ (snapshot, policy) ∷ []
        → o ≡ ok not_eligible
        → RequestCourse log o
    eligible :
        (policy : Option (CompiledPolicy H R)) (quota : Option Quota) (rest : Log H R J p scope)
        → IsCounted H R J path policy quota
        → Course H R J p scope quota rest o
        → log ≡ (participating, true) ∷ (snapshot, policy) ∷ rest
        → RequestCourse log o

  acquire_eligible-Course :
      (policy : Option (CompiledPolicy H R)) (q : Option (Option Quota))
      → request_quota H R J policy path ≡ q
      → Always RequestCourse
          ((participating, true) ∷ (snapshot, policy) ∷ [])
          (acquire_eligible H R J p scope q)
  acquire_eligible-Course policy none e =
      ineligible policy (request_quota-IsUncounted H R J path policy e) refl refl
  acquire_eligible-Course policy (some quota) e =
      let base : Log H R J p scope = (participating, true) ∷ (snapshot, policy) ∷ [] in
      Always-mono (After base (Course H R J p scope quota)) RequestCourse base
        (acquire H R J p scope quota)
        (λ log o s.
          eligible policy quota s.0 (request_quota-IsCounted H R J path policy quota e) s.2 s.1)
        (Always-since base (Course H R J p scope quota) (acquire H R J p scope quota)
          (acquire-Course H R J p scope quota))

  acquire_request_by-Course :
      (joined : Bool)
      → Always RequestCourse
          ((participating, joined) ∷ [])
          (acquire_request_by H R J p scope path joined)
  acquire_request_by-Course false = outside refl refl
  acquire_request_by-Course true = λ policy. acquire_eligible-Course policy _ refl

  -- Whatever is answered, a request asks the writer for nothing unless the gateway participates and
  -- a loaded policy gives its path a name; then it goes the way of an acquisition, counted under that
  -- name up to the limit of the policy, and not counted where the policy has no limit.
  pub try_acquire_request-Course : Always RequestCourse [] (try_acquire_request H R J p scope path)
  unfolding try_acquire_request
  try_acquire_request-Course = λ joined. acquire_request_by-Course joined
