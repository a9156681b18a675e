-- ===== src/Redis/Policy/Selection.antt =====
-- What a compiled policy of src/redis_admission/policy.rs answers, from its configuration.
use http_gateway.Prelude.{
  ℕ, String, ◌≡◌, refl, ap, subst, ◌∙◌, ◌⊎◌, inl, inr, true, not, ◌||◌, Option, none, some, ok,
  List, arith, any, All, is_empty, is_some, if◌then◌else◌, get_elem?, find_index,
}
use http_gateway.Prelude.Results.{>>=-eq-ok, >>-eq-ok}
use http_gateway.External.Http.{Http}
use http_gateway.External.Router.{Router, IndexedRouteRule}
use http_gateway.Admission.{guard}
use http_gateway.Config.Selection.{is_some-find_index_from}
use http_gateway.Redis.Policy.{
  PolicyConfig, Includes, compile_includes, compile_excludes, is_zero_limit, exceeds, i64_max,
  CompiledPolicy, compile_rules, compile_policy, api,
}
use http_gateway.Redis.Policy.Rules.{
  exact_indexed, prefix_indexed, all_indexed, HasNoRank, exact_indexed-rank, prefix_indexed-rank,
  all_indexed-rank, compile_includes-AreIncludes, compile_excludes-eq, rule_covers, covers,
  is_prefix_for, first_exact, any-prefix_indexed, any-all_indexed, exact-Answers,
}

module _ (H : Http) (R : Router) where
  compile_rules-eq :
      (rules : List IndexedRouteRule) (i : R.RouteIndex)
      → compile_rules H R rules ≡ ok i
      → R.compile_index rules ≡ ok i
  compile_rules-eq rules i e = ground arith

  -- An index over rules of one rank finds the first rule that selects a path.
  resolve_rules :
      (rules : List IndexedRouteRule) (i : R.RouteIndex) (path : String)
      → compile_rules H R rules ≡ ok i
      → All HasNoRank rules
      → R.resolve i "GET" path ≡ find_index (rule_covers R path) rules
  resolve_rules rules i path e ranks =
      R.resolve-compile_index rules i "GET" path (compile_rules-eq rules i e) ranks

  matches_rules :
      (rules : List IndexedRouteRule) (i : R.RouteIndex) (path : String)
      → compile_rules H R rules ≡ ok i
      → All HasNoRank rules
      → R.matches i "GET" path ≡ any (rule_covers R path) rules
  matches_rules rules i path e ranks =
      R.matches-resolve i "GET" path
      ∙ ap is_some (resolve_rules rules i path e ranks)
      ∙ is_some-find_index_from (rule_covers R path) 0 rules

  -- What a policy answers, as its configuration reads: nothing where the limit is zero or an exclude
  -- selects the path; the pattern of the first exact include that does; otherwise the path itself,
  -- where there are no includes or a prefix include selects it.
  abbrev pub counted_as : PolicyConfig → String → Option String
  counted_as config path =
      if is_zero_limit config.case_limit || any (covers R path) config.excludes
      then none
      else elim (first_exact R path config.includes) [
        | some name ↦ some name
        | none ↦
            if is_empty config.includes || any (is_prefix_for R path) config.includes
            then some path
            else none
      ]

  -- The parts of a compiled policy, by its configuration.
  pub record IsPolicyOf (config : PolicyConfig) (p : CompiledPolicy H R) (path : String)
      : Type 0 where
    pub limit : p.case_limit ≡ config.case_limit
    pub everything : p.includes_all ≡ is_empty config.includes
    pub excluded : R.matches p.excludes "GET" path ≡ any (covers R path) config.excludes
    pub below : R.matches p.prefixes "GET" path ≡ any (is_prefix_for R path) config.includes
    pub named :
        ((R.resolve p.exact_index "GET" path ≡ none) × (first_exact R path config.includes ≡ none))
        ⊎ ((k : ℕ) × (R.resolve p.exact_index "GET" path ≡ some k)
            × (get_elem? p.exact_paths k ≡ first_exact R path config.includes)
            × (is_some (first_exact R path config.includes) ≡ true))

  some_of : (o : Option String) → is_some o ≡ true → (name : String) × (o ≡ some name)
  some_of none e = cc
  some_of (some name) e = (name, refl)

  api-IsPolicyOf :
      (config : PolicyConfig) (p : CompiledPolicy H R) (path : String)
      → IsPolicyOf config p path
      → api H R p path ≡ counted_as config path
  unfolding api
  api-IsPolicyOf config p path v = elim v.named [
    | inl (missing, unnamed) ↦
        rw (v.limit, v.excluded, missing, unnamed, v.everything, v.below) refl
    | inr (k, found, at, there) ↦
        let (name, e) = some_of _ there in rw (v.limit, v.excluded, found, at, e) refl
  ]

  -- The indexes that `compile` makes, for the rules of the configuration.
  compiled-IsPolicyOf :
      (config : PolicyConfig) (i : Includes H) (excluded : List IndexedRouteRule)
      (exact_index prefixes excludes : R.RouteIndex) (path : String)
      → compile_includes H config.includes ≡ ok i
      → compile_excludes H config.excludes ≡ ok excluded
      → compile_rules H R i.exact_rules ≡ ok exact_index
      → compile_rules H R i.prefixes ≡ ok prefixes
      → compile_rules H R excluded ≡ ok excludes
      → IsPolicyOf config
          (record {
            case_limit = config.case_limit;
            includes_all = is_empty config.includes;
            exact_index = exact_index;
            exact_paths = i.exact_paths;
            prefixes = prefixes;
            excludes = excludes;
          })
          path
  compiled-IsPolicyOf config i excluded exact_index prefixes excludes path made left a b c =
      let (rules, names, below) = compile_includes-AreIncludes H config.includes i made in
      let shut = compile_excludes-eq H config.excludes excluded left in
      let exact_made : compile_rules H R (exact_indexed config.includes) ≡ ok exact_index =
        subst (λ xs. compile_rules H R xs ≡ ok exact_index) rules a in
      let prefix_made : compile_rules H R (prefix_indexed config.includes) ≡ ok prefixes =
        subst (λ xs. compile_rules H R xs ≡ ok prefixes) below b in
      let exclude_made : compile_rules H R (all_indexed config.excludes) ≡ ok excludes =
        subst (λ xs. compile_rules H R xs ≡ ok excludes) shut c in
      let found =
        resolve_rules _ exact_index path exact_made (exact_indexed-rank config.includes) in
      record {
        limit = refl;
        everything = refl;
        excluded =
            matches_rules _ excludes path exclude_made (all_indexed-rank config.excludes)
            ∙ any-all_indexed R path config.excludes;
        below =
            matches_rules _ prefixes path prefix_made (prefix_indexed-rank config.includes)
            ∙ any-prefix_indexed R path config.includes;
        named = elim (exact-Answers R path config.includes 0) [
          | inl (missing, unnamed) ↦ inl (found ∙ missing, unnamed)
          | inr (k, at, named, there) ↦
              inr (k, found ∙ at ∙ ground arith, ap (λ l. get_elem? l k) names ∙ named, there)
        ];
      }

  -- A policy that `compile` returns counts a path under the name that its configuration gives
  -- (`counted_as`); in particular, where an exact include selects the path, the position that the
  -- index finds lies within `exact_paths`, so reading the pattern does not panic.
  pub api-compile_policy :
      (config : PolicyConfig) (p : CompiledPolicy H R) (path : String)
      → compile_policy H R config ≡ ok p
      → api H R p path ≡ counted_as config path
  unfolding compile_policy
  api-compile_policy config p path e =
      let e1 = >>-eq-ok (guard (not (exceeds config.case_limit i64_max)) _) _ e in
      let (i, made, e2) = >>=-eq-ok (compile_includes H config.includes) _ e1 in
      let (excluded, left, e3) = >>=-eq-ok (compile_excludes H config.excludes) _ e2 in
      let (exact_index, a, e4) = >>=-eq-ok (compile_rules H R i.exact_rules) _ e3 in
      let (prefixes, b, e5) = >>=-eq-ok (compile_rules H R i.prefixes) _ e4 in
      let (excludes, c, last) = >>=-eq-ok (compile_rules H R excluded) _ e5 in
      let v =
        compiled-IsPolicyOf config i excluded exact_index prefixes excludes path made left a b c in
      let same : ◌≡◌ {A = CompiledPolicy H R}
          (record {
            case_limit = config.case_limit;
            includes_all = is_empty config.includes;
            exact_index = exact_index;
            exact_paths = i.exact_paths;
            prefixes = prefixes;
            excludes = excludes;
          })
          p =
        cc in
      api-IsPolicyOf config p path (subst (λ q. IsPolicyOf config q path) same v)
