-- ===== src/Redis/Policy/Rules.antt =====
-- The rules that src/redis_admission/policy.rs compiles a configuration to.
use http_gateway.Prelude.{
  ℕ, suc, ◌+◌, String, ◌≡◌, refl, sym, ap, subst, ◌∙◌, ◌⊎◌, inl, inr, Bool, true, false, not, ◌&&◌,
  ◌||◌, Option, none, some, Result, ok, err, List, [], ◌∷◌, ◌++◌, arith, any, All, is_empty,
  is_some, str_eq, if◌then◌else◌, get_elem?, starts_with_char, find_index_from, Bool-cases,
}
use http_gateway.Prelude.Results.{>>=-eq-ok, >>-eq-ok}
use http_gateway.External.Http.{Http}
use http_gateway.External.Router.{Router, IndexedRouteRule}
use http_gateway.Admission.{AdmissionError}
use http_gateway.Redis.Policy.{
  MatchKind, prefix, exact, PathRule, indexed, prefix_rules, Includes, include_rule, with_exact,
  with_prefix, has_marked_segment, compile_includes, exclude_rules, compile_excludes, validate_path,
}

abbrev pub by_kind {ℓ} : {A : Type ℓ} → MatchKind → A → A → A
by_kind exact x y = x
by_kind prefix x y = y

kind-cases : (k : MatchKind) → (k ≡ exact) ⊎ (k ≡ prefix)
kind-cases exact = inl refl
kind-cases prefix = inr refl

abbrev pub rules_of_prefix : String → List IndexedRouteRule
rules_of_prefix path = elim (prefix_rules path) [ ok rules ↦ rules | err e ↦ [] ]

-- The rules for the router, of the exact paths, of the prefixes, and of both.
abbrev pub exact_indexed : List PathRule → List IndexedRouteRule
exact_indexed [] = []
exact_indexed (r ∷ rs) = by_kind r.kind (indexed r.path ∷ exact_indexed rs) (exact_indexed rs)

abbrev pub exact_names : List PathRule → List String
exact_names [] = []
exact_names (r ∷ rs) = by_kind r.kind (r.path ∷ exact_names rs) (exact_names rs)

abbrev pub prefix_indexed : List PathRule → List IndexedRouteRule
prefix_indexed [] = []
prefix_indexed (r ∷ rs) =
    by_kind r.kind (prefix_indexed rs) (rules_of_prefix r.path ++ prefix_indexed rs)

abbrev pub all_indexed : List PathRule → List IndexedRouteRule
all_indexed [] = []
all_indexed (r ∷ rs) =
    by_kind r.kind (indexed r.path ∷ all_indexed rs) (rules_of_prefix r.path ++ all_indexed rs)

any-append :
    {A : Type 0} (p : A → Bool) (xs ys : List A) → any p (xs ++ ys) ≡ (any p xs || any p ys)
any-append p [] ys = refl
any-append p (x ∷ xs) ys = ground (arith, any-append p xs ys)

All-append : {A : Type 0} (P : A → Type 0) (xs ys : List A) → All P xs → All P ys → All P (xs ++ ys)
All-append P [] ys h k = k
All-append P (x ∷ xs) ys h k = (h.0, All-append P xs ys h.1 k)

abbrev pub HasNoRank : IndexedRouteRule → Type 0
HasNoRank r = r.rank ≡ 0

rules_of_prefix-rank : (path : String) → All HasNoRank (rules_of_prefix path)
unfolding prefix_rules
rules_of_prefix-rank path =
    elim (Bool-cases (not (starts_with_char b'/' path) || has_marked_segment true path)) [
      | inl bad ↦ rw (bad, rules_of_prefix) tt
      | inr good ↦ rw (good, rules_of_prefix) (refl, (refl, tt))
    ]

pub exact_indexed-rank : (rs : List PathRule) → All HasNoRank (exact_indexed rs)
exact_indexed-rank [] = tt
exact_indexed-rank (r ∷ rs) = elim (kind-cases r.kind) [
  | inl e ↦ rw e (refl, exact_indexed-rank rs)
  | inr e ↦ rw e (exact_indexed-rank rs)
]

pub prefix_indexed-rank : (rs : List PathRule) → All HasNoRank (prefix_indexed rs)
prefix_indexed-rank [] = tt
prefix_indexed-rank (r ∷ rs) = elim (kind-cases r.kind) [
  | inl e ↦ rw e (prefix_indexed-rank rs)
  | inr e ↦ rw e (All-append HasNoRank _ _ (rules_of_prefix-rank r.path) (prefix_indexed-rank rs))
]

pub all_indexed-rank : (rs : List PathRule) → All HasNoRank (all_indexed rs)
all_indexed-rank [] = tt
all_indexed-rank (r ∷ rs) = elim (kind-cases r.kind) [
  | inl e ↦ rw e (refl, all_indexed-rank rs)
  | inr e ↦ rw e (All-append HasNoRank _ _ (rules_of_prefix-rank r.path) (all_indexed-rank rs))
]

rules_of_ok :
    (path : String) (rules : List IndexedRouteRule)
    → prefix_rules path ≡ ok rules
    → rules_of_prefix path ≡ rules
rules_of_ok path rules e = rw (e, rules_of_prefix) refl

ok-injective : {E A : Type 0} (a b : A) → ◌≡◌ {A = Result E A} (ok a) (ok b) → a ≡ b
ok-injective a b e = cc

module _ (H : Http) where
  -- What the loop over the includes leaves.
  abbrev pub AreIncludes : List PathRule → Includes H → Type 0
  AreIncludes rs i =
      (i.exact_rules ≡ exact_indexed rs)
      × (i.exact_paths ≡ exact_names rs)
      × (i.prefixes ≡ prefix_indexed rs)

  include_step :
      (r : PathRule) (rs : List PathRule) (rest i : Includes H) (add : Includes H → Includes H)
      → include_rule H r.kind r.path ≡ ok add
      → ◌≡◌ {A = Result AdmissionError (Includes H)} (ok (add rest)) (ok i)
      → AreIncludes rs rest
      → AreIncludes (r ∷ rs) i
  include_step r rs rest i add made same h =
      let eq : add rest ≡ i = cc in
      subst (AreIncludes (r ∷ rs)) eq (elim (kind-cases r.kind) [
        | inl k ↦
            let this : with_exact H r.path ≡ add = ok-injective _ _ (rw k at made) in
            subst (λ f. AreIncludes (r ∷ rs) (f rest)) this
              (rw k (ap (◌∷◌ (indexed r.path)) h.0, ap (◌∷◌ r.path) h.1, h.2))
        | inr k ↦
            let (rules, below, e) = >>=-eq-ok _ _ (rw (k, include_rule) at made) in
            let this : with_prefix H rules ≡ add = ok-injective _ _ e in
            subst (λ f. AreIncludes (r ∷ rs) (f rest)) this
              (rw (k, rules_of_ok r.path rules below) (h.0, h.1, ap (λ xs. rules ++ xs) h.2))
      ])

  pub compile_includes-AreIncludes :
      (rs : List PathRule) (i : Includes H) → compile_includes H rs ≡ ok i → AreIncludes rs i
  unfolding compile_includes
  compile_includes-AreIncludes [] i e = ground arith
  compile_includes-AreIncludes (r ∷ rs) i e =
      let e1 = >>-eq-ok (validate_path H r.path) _ e in
      let (add, made, e2) = >>=-eq-ok (include_rule H r.kind r.path) _ e1 in
      let (rest, found, e3) = >>=-eq-ok _ _ e2 in
      include_step r rs rest i add made e3 (compile_includes-AreIncludes rs rest found)

  exclude_step :
      (r : PathRule) (rs : List PathRule) (first rest rules : List IndexedRouteRule)
      → exclude_rules H r.kind r.path ≡ ok first
      → ◌≡◌ {A = Result AdmissionError (List IndexedRouteRule)} (ok (first ++ rest)) (ok rules)
      → rest ≡ all_indexed rs
      → rules ≡ all_indexed (r ∷ rs)
  exclude_step r rs first rest rules below same h =
      let eq : rules ≡ first ++ rest = cc in
      eq ∙ elim (kind-cases r.kind) [
        | inl k ↦
            let this : first ≡ indexed r.path ∷ [] = sym (ok-injective _ _ (rw k at below)) in
            rw (k, this, h) refl
        | inr k ↦ rw (k, rules_of_ok r.path first (rw k at below), h) refl
      ]

  pub compile_excludes-eq :
      (rs : List PathRule) (rules : List IndexedRouteRule)
      → compile_excludes H rs ≡ ok rules
      → rules ≡ all_indexed rs
  unfolding compile_excludes
  compile_excludes-eq [] rules e = ground arith
  compile_excludes-eq (r ∷ rs) rules e =
      let e1 = >>-eq-ok (validate_path H r.path) _ e in
      let (first, below, e2) = >>=-eq-ok (exclude_rules H r.kind r.path) _ e1 in
      let (rest, found, e3) = >>=-eq-ok _ _ e2 in
      exclude_step r rs first rest rules below e3 (compile_excludes-eq rs rest found)

module _ (R : Router) where
  abbrev pub rule_covers : String → IndexedRouteRule → Bool
  rule_covers path r =
      (is_empty r.methods || any (str_eq "GET") r.methods) && R.path_matches r.path path

  -- A rule of the policy selects a path: an exact rule by its own pattern, a prefix by its two.
  abbrev pub covers : String → PathRule → Bool
  covers path r =
      by_kind r.kind (R.path_matches r.path path) (any (rule_covers path) (rules_of_prefix r.path))

  abbrev pub is_exact : PathRule → Bool
  is_exact r = by_kind r.kind true false

  abbrev pub is_prefix_for : String → PathRule → Bool
  is_prefix_for path r = not (is_exact r) && covers path r

  -- The pattern of the first exact rule that selects the path.
  abbrev pub first_exact : String → List PathRule → Option String
  first_exact path [] = none
  first_exact path (r ∷ rs) =
      let rest = first_exact path rs in if is_exact r && covers path r then some r.path else rest

  pub any-prefix_indexed :
      (path : String) (rs : List PathRule)
      → any (rule_covers path) (prefix_indexed rs) ≡ any (is_prefix_for path) rs
  any-prefix_indexed path [] = refl
  any-prefix_indexed path (r ∷ rs) = elim (kind-cases r.kind) [
    | inl k ↦ rw k (any-prefix_indexed path rs)
    | inr k ↦ rw k (
        any-append (rule_covers path) (rules_of_prefix r.path) (prefix_indexed rs)
        ∙ ap (λ b. any (rule_covers path) (rules_of_prefix r.path) || b)
            (any-prefix_indexed path rs))
  ]

  pub any-all_indexed :
      (path : String) (rs : List PathRule)
      → any (rule_covers path) (all_indexed rs) ≡ any (covers path) rs
  any-all_indexed path [] = refl
  any-all_indexed path (r ∷ rs) = elim (kind-cases r.kind) [
    | inl k ↦ rw k (ap (λ b. R.path_matches r.path path || b) (any-all_indexed path rs))
    | inr k ↦ rw k (
        any-append (rule_covers path) (rules_of_prefix r.path) (all_indexed rs)
        ∙ ap (λ b. any (rule_covers path) (rules_of_prefix r.path) || b) (any-all_indexed path rs))
  ]

  -- The answer of the exact index, read in the list of its paths.
  abbrev pub Answers : String → List PathRule → ℕ → Type 0
  Answers path rs n =
      ((find_index_from n (rule_covers path) (exact_indexed rs) ≡ none)
        × (first_exact path rs ≡ none))
      ⊎ ((k : ℕ) × (find_index_from n (rule_covers path) (exact_indexed rs) ≡ some (n + k))
          × (get_elem? (exact_names rs) k ≡ first_exact path rs)
          × (is_some (first_exact path rs) ≡ true))

  pub exact-Answers : (path : String) (rs : List PathRule) (n : ℕ) → Answers path rs n
  exact-Answers path [] n = inl (refl, refl)
  exact-Answers path (r ∷ rs) n = elim (kind-cases r.kind) [
    | inr k ↦ rw k (exact-Answers path rs n)
    | inl k ↦ elim (Bool-cases (R.path_matches r.path path)) [
      | inl hit ↦ rw (k, hit) (inr (0, ground arith, refl, refl))
      | inr miss ↦
          rw (k, miss)
            (elim (exact-Answers path rs (suc n)) [
              | inl (a, b) ↦ inl (a, b)
              | inr (i, a, b, c) ↦ inr (suc i, a ∙ ground arith, b, c)
            ])
    ]
  ]
