-- ===== src/Gateway/Building.antt =====
-- What the constructors of src/gateway.rs establish, so that handling a request cannot panic.
use http_gateway.Prelude.{
  ℕ, suc, String, ◌≡◌, refl, sym, ap, subst, inl, inr, true, Option, none, some, ok, err, List, [],
  ◌∷◌, arith, is_some, get_elem?, All, Option-cases, Result-cases, Bool-cases,
}
use http_gateway.External.Http.{Http}
use http_gateway.External.Router.{Router}
use http_gateway.Messages.{FallbackProxy}
use http_gateway.Admission.{AdmissionRegistry, get_provider}
use http_gateway.Config.{AdmissionRule, RoutesConfig, RouteTable, compile, select, is_valid_rule}
use http_gateway.Config.Selection.{select-admissions}
use http_gateway.Proxy.Forward.{new_proxy}
use http_gateway.Gateway.{
  missing_provider, Gateway, check_providers, with_admission, with_recording_admission, with_cors,
}

module _ (H : Http) (R : Router) where
  -- A rule, if there is one, names a provider of the registry.
  abbrev pub IsProvided : AdmissionRegistry → Option AdmissionRule → Type 0
  IsProvided registry none = Unit {0}
  IsProvided registry (some rule) = is_some (get_provider registry rule.provider) ≡ true

  pub record IsBuilt (g : Gateway H R) : Type 0 where
    pub has_origin : is_some g.fallback.authority ≡ true
    pub provided : All (IsProvided g.admission) g.routes.admissions
    pub recording_provided : IsProvided g.admission g.recording_admission
    pub in_range :
        (m p : String) (id : ℕ)
        → select H R g.routes m p ≡ some id
        → (rule : Option AdmissionRule) × (get_elem? g.routes.admissions id ≡ some rule)

  pub new_proxy-authority :
      (u : H.Uri) (p : FallbackProxy H) → new_proxy H u ≡ ok p → is_some p.authority ≡ true
  unfolding new_proxy
  new_proxy-authority u p e = ground arith

  check_providers-IsProvided :
      (registry : AdmissionRegistry) (n : ℕ) (rules : List (Option AdmissionRule))
      → check_providers H R registry n rules ≡ ok tt
      → All (IsProvided registry) rules
  unfolding check_providers
  check_providers-IsProvided registry n [] e = tt
  check_providers-IsProvided registry n (none ∷ rules) e =
      (tt, check_providers-IsProvided registry (suc n) rules e)
  check_providers-IsProvided registry n (some rule ∷ rules) e =
      elim (Option-cases (get_provider registry rule.provider)) [
        | inl missing ↦ absurd (
            let bad : err (missing_provider n rule.provider) ≡ ok tt =
              rw (missing, check_providers) at e in
            cc)
        | inr (p, found) ↦ (
          rw found refl,
          check_providers-IsProvided registry (suc n) rules (rw (found, check_providers) at e),
        )
      ]

  -- A gateway that `with_admission` builds over a compiled table has an origin to fall back to,
  -- knows the provider of every route with an admission, and selects no route without a policy
  -- entry.
  pub with_admission-IsBuilt :
      (c : RoutesConfig) (t : RouteTable H R) (origin : H.Uri) (registry : AdmissionRegistry)
      (g : Gateway H R)
      → compile H R c ≡ ok t
      → with_admission H R t origin registry ≡ ok g
      → IsBuilt g
  unfolding with_admission
  with_admission-IsBuilt c t origin registry g compiled e =
      elim (Result-cases (check_providers H R registry 0 t.admissions)) [
        | inr (x, bad) ↦ absurd (ground arith)
        | inl (u, checked) ↦ elim (Result-cases (new_proxy H origin)) [
          | inr (x, bad) ↦ absurd (ground arith)
          | inl (p, made) ↦
              let same : ◌≡◌ {A = Gateway H R}
                  (record {
                    routes = t;
                    fallback = p;
                    admission = registry;
                    recording_admission = none;
                    cors = none;
                  })
                  g =
                ground arith in
              subst IsBuilt same (record {
                has_origin = new_proxy-authority origin p made;
                provided = check_providers-IsProvided registry 0 t.admissions checked;
                recording_provided = tt;
                in_range = λ m q id found.
                    let (r, at_id, policy, passes, valid) =
                      select-admissions H R c t m q id compiled found in
                    (r.admission, policy);
              })
        ]
      ]

  -- Where `with_recording_admission` accepts a rule, the rule is valid and is the gateway's recording
  -- rule, and the gateway keeps what `with_admission` established (`IsBuilt`).
  pub with_recording_admission-IsBuilt :
      (g g' : Gateway H R) (rule : AdmissionRule)
      → IsBuilt g
      → with_recording_admission H R g rule ≡ ok g'
      → IsBuilt g' × (g'.recording_admission ≡ some rule) × (is_valid_rule H rule ≡ true)
  unfolding with_recording_admission
  with_recording_admission-IsBuilt g g' rule b e = elim (Bool-cases (is_valid_rule H rule)) [
    | inr bad ↦ absurd (ground arith)
    | inl good ↦ elim (Option-cases (get_provider g.admission rule.provider)) [
      | inl missing ↦ absurd (ground arith)
      | inr (p, found) ↦
          let same : ◌≡◌ {A = Gateway H R} (record g { recording_admission = some rule }) g' =
            ground arith in
          (
            subst IsBuilt same (record {
              has_origin = b.has_origin;
              provided = b.provided;
              recording_provided = rw found refl;
              in_range = b.in_range;
            }),
            sym (ap (λ h. h.recording_admission) same),
            good,
          )
    ]
  ]

  pub with_cors-IsBuilt :
      (g g' : Gateway H R) (cors : H.CorsPolicy)
      → IsBuilt g
      → with_cors H R g cors ≡ ok g'
      → IsBuilt g'
  unfolding with_cors
  with_cors-IsBuilt g g' cors b e = elim (Bool-cases (H.validate_cors cors)) [
    | inr bad ↦ absurd (ground arith)
    | inl good ↦
        let same : ◌≡◌ {A = Gateway H R} (record g { cors = some cors }) g' = ground arith in
        subst IsBuilt same (record {
          has_origin = b.has_origin;
          provided = b.provided;
          recording_provided = b.recording_provided;
          in_range = b.in_range;
        })
  ]
