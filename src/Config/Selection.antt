-- ===== src/Config/Selection.antt =====
-- Which route src/config.rs selects for a request.
use http_gateway.Prelude.{
  ℕ, zero, suc, String, ◌+◌, ◌≡◌, refl, sym, ◌∙◌, subst, inl, inr, Bool, true, ◌&&◌, ◌||◌, none,
  some, ok, List, [], ◌∷◌, map, arith, if◌then◌else◌, any, All, is_empty, is_some, str_eq,
  get_elem?, find_index, find_index_from, Bool-cases,
}
use mathlib.Core.Option.{some-injective}
use http_gateway.External.Http.{Http}
use http_gateway.External.Router.{Router}
use http_gateway.Config.{
  RouteRule, ExclusionRule, RoutesConfig, admits, RouteTable, compile, is_excluded, select,
}
use http_gateway.Config.Compilation.{indexed_routes, indexed_exclusions, IsValidRoute, compile_iff}

module _ {ℓ κ} {A : Type ℓ} {B : Type κ} where
  find_index_from-map :
      (n : ℕ) (p : B → Bool) (f : A → B) (xs : List A)
      → find_index_from n p (map f xs) ≡ find_index_from n (λ x. p (f x)) xs
  find_index_from-map n p f [] = refl
  find_index_from-map n p f (x ∷ xs) = elim (Bool-cases (p (f x))) [
    | inl t ↦ rw t refl
    | inr t ↦ rw t (find_index_from-map (suc n) p f xs)
  ]

module _ {ℓ} {A : Type ℓ} where
  get_elem?-map {κ} :
      {B : Type κ} (f : A → B) (xs : List A) (i : ℕ) {x : A}
      → get_elem? xs i ≡ some x
      → get_elem? (map f xs) i ≡ some (f x)
  get_elem?-map f [] i e = cc
  get_elem?-map f (y ∷ xs) zero e = ground arith
  get_elem?-map f (y ∷ xs) (suc i) e = get_elem?-map f xs i e

  All-get_elem? {κ} :
      (P : A → Type κ) (xs : List A) (i : ℕ) {x : A} → All P xs → get_elem? xs i ≡ some x → P x
  All-get_elem? P [] i h e = cc
  All-get_elem? P (y ∷ xs) zero h e = subst P (some-injective _ _ e) h.0
  All-get_elem? P (y ∷ xs) (suc i) h e = All-get_elem? P xs i h.1 e

module _ {ℓ} {A : Type ℓ} (p : A → Bool) where
  pub is_some-find_index_from : (n : ℕ) (xs : List A) → is_some (find_index_from n p xs) ≡ any p xs
  is_some-find_index_from n [] = refl
  is_some-find_index_from n (x ∷ xs) = ground (arith, is_some-find_index_from (suc n) xs)

  -- The position that is found holds an element that passes.
  find_index_from_lem :
      (n j : ℕ) (xs : List A)
      → find_index_from n p xs ≡ some j
      → (i : ℕ) × (x : A) × (j ≡ n + i) × (get_elem? xs i ≡ some x) × (p x ≡ true)
  find_index_from_lem n j [] e = cc
  find_index_from_lem n j (x ∷ xs) e = elim (Bool-cases (p x)) [
    | inl t ↦ (0, x, ground arith, refl, t)
    | inr t ↦
        let (i, y, eq, found, passes) = find_index_from_lem (suc n) j xs (ground arith) in
        (suc i, y, omega arith, found, passes)
  ]

module _ (H : Http) (R : Router) where
  -- A rule of the configuration selects a request.
  abbrev pub selects : List String → String → String → String → Bool
  selects methods path m p = (is_empty methods || any (str_eq m) methods) && R.path_matches path p

  indexed_routes_rank : (rs : List RouteRule) → All (λ r. r.rank ≡ 0) (indexed_routes rs)
  indexed_routes_rank [] = tt
  indexed_routes_rank (r ∷ rs) = (refl, indexed_routes_rank rs)

  indexed_exclusions_rank :
      (rs : List ExclusionRule) → All (λ r. r.rank ≡ 0) (indexed_exclusions rs)
  indexed_exclusions_rank [] = tt
  indexed_exclusions_rank (r ∷ rs) = (refl, indexed_exclusions_rank rs)

  pub is_excluded-compile :
      (c : RoutesConfig) (t : RouteTable H R) (m p : String)
      → compile H R c ≡ ok t
      → is_excluded H R t m p ≡ any (λ e. selects e.methods e.path m p) c.exclude
  unfolding is_excluded
  is_excluded-compile c t m p e =
      let v = (compile_iff H R c t).0 e in
      rw
        (
          R.matches-resolve,
          R.resolve-compile_index _ t.exclusions m p v.excluded (indexed_exclusions_rank c.exclude),
        )
        (rw find_index_from-map (is_some-find_index_from _ 0 c.exclude))

  -- Of a compiled table `select` answers as the configuration reads: nothing where an exclusion
  -- selects the request, otherwise the first route of the configuration that does.
  pub select-compile :
      (c : RoutesConfig) (t : RouteTable H R) (m p : String)
      → compile H R c ≡ ok t
      → select H R t m p ≡ (
          if any (λ e. selects e.methods e.path m p) c.exclude
          then none
          else find_index (λ r. selects r.methods r.path m p) c.routes)
  unfolding select
  select-compile c t m p e =
      let v = (compile_iff H R c t).0 e in
      rw
        (
          is_excluded-compile c t m p e,
          R.resolve-compile_index _ t.index m p v.routes (indexed_routes_rank c.routes),
        )
        (rw find_index_from-map refl)

  select_found :
      (c : RoutesConfig) (t : RouteTable H R) (m p : String) (id : ℕ)
      → compile H R c ≡ ok t
      → select H R t m p ≡ some id
      → find_index (λ r. selects r.methods r.path m p) c.routes ≡ some id
  select_found c t m p id e found =
      let same = select-compile c t m p e in
      elim (Bool-cases (any (λ e. selects e.methods e.path m p) c.exclude)) [
        | inl out ↦ absurd (let bad : none ≡ some id = sym (rw out at same) ∙ found in cc)
        | inr kept ↦ sym (rw kept at same) ∙ found
      ]

  -- The position that `select` answers lies within the admissions of the table, so reading the
  -- policy of the selected route does not panic; it is that route's own, and it is valid.
  pub select-admissions :
      (c : RoutesConfig) (t : RouteTable H R) (m p : String) (id : ℕ)
      → compile H R c ≡ ok t
      → select H R t m p ≡ some id
      → (r : RouteRule) × (get_elem? c.routes id ≡ some r)
        × (get_elem? t.admissions id ≡ some r.admission)
        × (selects r.methods r.path m p ≡ true)
        × (admits H r.admission ≡ true)
  select-admissions c t m p id e found =
      let v = (compile_iff H R c t).0 e in
      let chosen = select_found c t m p id e found in
      let (i, r, eq, at_i, passes) = find_index_from_lem _ 0 id c.routes chosen in
      let same : id ≡ i = omega arith in
      (
        r,
        rw same at_i,
        rw (v.admissions, same) (get_elem?-map (λ r. r.admission) c.routes i at_i),
        passes,
        (All-get_elem? (IsValidRoute H R) c.routes i v.valid_routes at_i).0,
      )
