-- ===== src/Config/Compilation.antt =====
-- `RouteTable::compile` of src/config.rs: what a table that it returns holds.
use http_gateway.Prelude.{
  ℕ, suc, String, ◌≡◌, refl, ap, ◌∙◌, ◌↔◌, inl, inr, true, Option, some, Result, ok, err, List, [],
  ◌∷◌, map, arith, All, Option-cases, Result-cases,
}
use http_gateway.Prelude.Results.{>>=-eq-ok}
use http_gateway.External.Http.{Http}
use http_gateway.External.Router.{Router, IndexedRouteRule}
use http_gateway.Config.{
  AdmissionRule, RouteRule, ExclusionRule, RoutesConfig, admits, ConfigError, RouteTable,
  invalid_method, compile_methods, compile_exclusions, compile_routes, map_error, compile,
}

abbrev pub indexed_rule : List String → String → IndexedRouteRule
indexed_rule methods path = record { path = path; methods = methods; rank = 0 }

abbrev pub indexed_routes : List RouteRule → List IndexedRouteRule
indexed_routes rules = map (λ r. indexed_rule r.methods r.path) rules

abbrev pub indexed_exclusions : List ExclusionRule → List IndexedRouteRule
indexed_exclusions rules = map (λ r. indexed_rule r.methods r.path) rules

module _ (H : Http) (R : Router) where
  -- Every method of a rule is a method of HTTP.
  abbrev pub HasMethods : List String → Type 0
  HasMethods = All (λ m. H.method_from_bytes m ≡ some m)

  abbrev pub IsValidRoute : RouteRule → Type 0
  IsValidRoute r = (admits H r.admission ≡ true) × HasMethods r.methods

  compile_methods-eq-ok :
      (f : String → ConfigError H R) (ms out : List String)
      → compile_methods H R f ms ≡ ok out
      → (out ≡ ms) × HasMethods ms
  unfolding compile_methods
  compile_methods-eq-ok f [] out e = (ground arith, tt)
  compile_methods-eq-ok f (m ∷ ms) out e = elim (Option-cases (H.method_from_bytes m)) [
    | inl bad ↦ let e' : err (f m) ≡ ok out = rw (bad, compile_methods) at e in cc
    | inr (m', good) ↦
        let same = H.method_from_bytes_lem m m' good in
        let (rest, found, last) = >>=-eq-ok _ _ (rw (good, compile_methods) at e) in
        let (eq, valid) = compile_methods-eq-ok f ms rest found in
        (cc, (good ∙ ap some same, valid))
  ]

  compile_methods_of_HasMethods :
      (f : String → ConfigError H R) (ms : List String)
      → HasMethods ms
      → compile_methods H R f ms ≡ ok ms
  unfolding compile_methods
  compile_methods_of_HasMethods f [] h = refl
  compile_methods_of_HasMethods f (m ∷ ms) (a, h) =
      rw (a, compile_methods, compile_methods_of_HasMethods f ms h) refl

  compile_exclusions-eq-ok :
      (n : ℕ) (rules : List ExclusionRule) (out : List IndexedRouteRule)
      → compile_exclusions H R n rules ≡ ok out
      → (out ≡ indexed_exclusions rules) × All (λ r. HasMethods r.methods) rules
  unfolding compile_exclusions
  compile_exclusions-eq-ok n [] out e = (ground arith, tt)
  compile_exclusions-eq-ok n (r ∷ rules) out e =
      let (ms, a, e') = >>=-eq-ok _ _ e in
      let (rest, b, last) = >>=-eq-ok _ _ e' in
      let (same, valid) = compile_methods-eq-ok _ r.methods ms a in
      let (eq, ok_rest) = compile_exclusions-eq-ok (suc n) rules rest b in (cc, (valid, ok_rest))

  compile_exclusions_of_valid :
      (n : ℕ) (rules : List ExclusionRule)
      → All (λ r. HasMethods r.methods) rules
      → compile_exclusions H R n rules ≡ ok (indexed_exclusions rules)
  unfolding compile_exclusions
  compile_exclusions_of_valid n [] h = refl
  compile_exclusions_of_valid n (r ∷ rules) (a, h) =
      rw (compile_methods_of_HasMethods _ r.methods a, compile_exclusions_of_valid (suc n) rules h)
        refl

  compile_routes-eq-ok :
      (n : ℕ) (rules : List RouteRule) (out : List IndexedRouteRule × List (Option AdmissionRule))
      → compile_routes H R n rules ≡ ok out
      → (out ≡ (indexed_routes rules, map (λ r. r.admission) rules)) × All IsValidRoute rules
  unfolding compile_routes
  compile_routes-eq-ok n [] out e = (ground arith, tt)
  compile_routes-eq-ok n (r ∷ rules) out e =
      let good : admits H r.admission ≡ true = ground arith in
      elim (Result-cases (compile_methods H R (invalid_method n) r.methods)) [
        | inr (x, a) ↦ absurd (ground arith)
        | inl (ms, a) ↦ elim (Result-cases (compile_routes H R (suc n) rules)) [
          | inr (x, b) ↦ absurd (ground arith)
          | inl (rest, b) ↦
              let (same, valid) = compile_methods-eq-ok (invalid_method n) r.methods ms a in
              let (eq, ok_rest) = compile_routes-eq-ok (suc n) rules rest b in
              (ground arith, ((good, valid), ok_rest))
        ]
      ]

  compile_routes_of_valid :
      (n : ℕ) (rules : List RouteRule)
      → All IsValidRoute rules
      → compile_routes H R n rules ≡ ok (indexed_routes rules, map (λ r. r.admission) rules)
  unfolding compile_routes
  compile_routes_of_valid n [] h = refl
  compile_routes_of_valid n (r ∷ rules) ((a, b), h) =
      rw (a, compile_methods_of_HasMethods _ r.methods b, compile_routes_of_valid (suc n) rules h)
        refl

  map_error-eq-ok :
      (f : R.RouteError → ConfigError H R) (r : Result R.RouteError R.RouteIndex) (i : R.RouteIndex)
      → map_error H R f r ≡ ok i
      → r ≡ ok i
  unfolding map_error
  map_error-eq-ok f (ok j) i e = ground arith
  map_error-eq-ok f (err x) i e = cc

  -- What a compiled table holds.
  pub record IsCompiled (c : RoutesConfig) (t : RouteTable H R) : Type 0 where
    pub routes : R.compile_index (indexed_routes c.routes) ≡ ok t.index
    pub excluded : R.compile_index (indexed_exclusions c.exclude) ≡ ok t.exclusions
    pub admissions : t.admissions ≡ map (λ r. r.admission) c.routes
    pub valid_routes : All IsValidRoute c.routes
    pub valid_exclusions : All (λ r. HasMethods r.methods) c.exclude

  compile-IsCompiled :
      (c : RoutesConfig) (t : RouteTable H R) → compile H R c ≡ ok t → IsCompiled c t
  unfolding compile
  compile-IsCompiled c t e = elim (Result-cases (compile_exclusions H R 0 c.exclude)) [
    | inr (x, a) ↦ absurd (ground arith)
    | inl (xs, a) ↦ elim (Result-cases (compile_routes H R 0 c.routes)) [
      | inr (x, b) ↦ absurd (ground arith)
      | inl (rs, b) ↦
          let (xs_eq, xs_valid) = compile_exclusions-eq-ok 0 c.exclude xs a in
          let (rs_eq, rs_valid) = compile_routes-eq-ok 0 c.routes rs b in
          record {
            routes = ground arith;
            excluded = ground arith;
            admissions = ground arith;
            valid_routes = rs_valid;
            valid_exclusions = xs_valid;
          }
    ]
  ]

  -- `compile` returns exactly the tables that hold the compiled routes, the compiled exclusions and
  -- the admissions in the order of the routes, and it returns one only where every admission is
  -- valid and every method of a route and of an exclusion is a method of HTTP.
  pub compile_iff :
      (c : RoutesConfig) (t : RouteTable H R) → (compile H R c ≡ ok t) ↔ IsCompiled c t
  unfolding compile
  compile_iff c t = (
    compile-IsCompiled c t,
    λ v.
        rw
          (
            compile_exclusions_of_valid 0 c.exclude v.valid_exclusions,
            v.excluded,
            map_error,
            compile_routes_of_valid 0 c.routes v.valid_routes,
            v.routes,
          )
          (ground arith),
  )
