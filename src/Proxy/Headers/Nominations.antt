-- ===== src/Proxy/Headers/Nominations.antt =====
-- Which headers `remove_hop_by_hop_headers` of src/proxy.rs removes.
use http_gateway.Prelude.{
  ℕ, String, ◌≡◌, ◌≢◌, refl, sym, ap, subst, ◌∙◌, ◌⊎◌, inl, inr, Bool, true, false, not, ◌&&◌, ◌||◌,
  some, List, [], ◌∷◌, All, any, str_eq, eq_iff, Bool-cases, arith,
}
use http_gateway.External.Http.{Http}
use http_gateway.Proxy.Headers.{
  split_comma, trim_ascii, hop_by_hop, nominated, remove_hop_by_hop_headers, upgrade_header,
}
use http_gateway.Proxy.Headers.Laws.{ends_here, get_all-remove_hop_by_hop_headers}
use http_gateway.Proxy.Headers.Tokens.{joined, HasNoComma, split_comma-joined, split_comma-Parts}
use http_gateway.Proxy.Headers.Trimming.{IsTrimmed, trim_ascii_unique, trim_ascii-IsTrimmed}
use http_gateway.Proxy.Headers.Somewhere.{
  Some, Some-mono, any-Some, Some-any, Some-flat_map, flat_map-Some, Some-filter_map, Some-const,
}

module _ (H : Http) where
  open H use {Headers, HeaderValue, get_all}

  -- A header value nominates a name: one of its comma-separated parts is the name with blanks around it.
  abbrev pub Nominates : String → HeaderValue → Type 0
  Nominates n v =
      (first : List ℕ) × (parts : List (List ℕ)) × All HasNoComma (first ∷ parts)
      × (joined first parts ≡ H.value_as_bytes v)
      × Some (λ part. (core : List ℕ) × IsTrimmed part core × (H.name_from_bytes core ≡ some n))
          (first ∷ parts)

  -- The headers that end at this hop.
  abbrev pub EndsHere : Headers → (preserve_upgrade : Bool) → String → Type 0
  EndsHere h preserve_upgrade n =
      (Some (Nominates n) (get_all h "connection") × (preserve_upgrade ≡ true → n ≢ "upgrade"))
      ⊎ Some (λ m. m ≡ n)
          ("keep-alive" ∷ "proxy-authenticate" ∷ "proxy-authorization" ∷ "te" ∷ "trailer"
            ∷ "transfer-encoding" ∷ [])
      ⊎ ((preserve_upgrade ≡ false) × ((n ≡ "connection") ⊎ (n ≡ "upgrade")))

  -- A name among the parts that the code reads.
  abbrev IsRead : String → List ℕ → Type 0
  IsRead n part = (m : String) × (H.name_from_bytes (trim_ascii part) ≡ some m) × (m ≡ n)

  Nominates-IsRead :
      (n : String) (v : HeaderValue)
      → Nominates n v
      → Some (IsRead n) (split_comma (H.value_as_bytes v))
  Nominates-IsRead n v (first, parts, free, again, s) =
      subst (λ bytes. Some (IsRead n) (split_comma bytes)) again
        (subst (Some (IsRead n)) (sym (split_comma-joined first parts free)) (
          Some-mono _ (IsRead n) (first ∷ parts)
            (λ part (core, t, e).
              (n, ap H.name_from_bytes (trim_ascii_unique part core t) ∙ e, refl))
            s))

  IsRead-Nominates :
      (n : String) (v : HeaderValue)
      → Some (IsRead n) (split_comma (H.value_as_bytes v))
      → Nominates n v
  IsRead-Nominates n v s =
      let p = split_comma-Parts (H.value_as_bytes v) in
      (
        p.first,
        p.parts,
        p.free,
        p.again,
        Some-mono (IsRead n) _ (p.first ∷ p.parts)
            (λ part (m, e, same). (trim_ascii part, trim_ascii-IsTrimmed part, e ∙ ap some same))
            (subst (Some (IsRead n)) p.given s),
      )

  nominated-Nominates :
      (h : Headers) (n : String)
      → Some (λ m. m ≡ n) (nominated H h)
      → Some (Nominates n) (get_all h "connection")
  unfolding nominated
  nominated-Nominates h n s =
      Some-mono _ (Nominates n) (get_all h "connection") (IsRead-Nominates n) (
        Some-flat_map (IsRead n) (λ v. split_comma (H.value_as_bytes v)) (get_all h "connection")
          ((Some-filter_map (λ m. m ≡ n) (λ name. H.name_from_bytes (trim_ascii name)) _).0 s))

  Nominates-nominated :
      (h : Headers) (n : String)
      → Some (Nominates n) (get_all h "connection")
      → Some (λ m. m ≡ n) (nominated H h)
  unfolding nominated
  Nominates-nominated h n s =
      (Some-filter_map (λ m. m ≡ n) (λ name. H.name_from_bytes (trim_ascii name)) _).1 (
        flat_map-Some (IsRead n) (λ v. split_comma (H.value_as_bytes v)) (get_all h "connection")
          (Some-mono (Nominates n) _ (get_all h "connection") (Nominates-IsRead n) s))

  -- Whether a nominated name is removed.
  abbrev drops : Bool → String → String → Bool
  drops p n m = (not p || not (str_eq m upgrade_header)) && str_eq m n

  drops-true : (p : Bool) (n m : String) → drops p n m ≡ true → (m ≡ n) × (p ≡ true → n ≢ "upgrade")
  drops-true p n m e =
      let same : m ≡ n = (eq_iff m n).0 (ground (arith, e)) in
      (
        same,
        λ kept u.
            let up : str_eq m "upgrade" ≡ true = (eq_iff m "upgrade").1 (same ∙ u) in
            ground (arith, e, kept, up),
      )

  true-drops : (p : Bool) (n m : String) → m ≡ n → (p ≡ true → n ≢ "upgrade") → drops p n m ≡ true
  true-drops p n m same f =
      let equal : str_eq m n ≡ true = (eq_iff m n).1 same in
      elim (Bool-cases p) [
        | inr out ↦ ground (arith, out, equal)
        | inl kept ↦ elim (Bool-cases (str_eq m "upgrade")) [
          | inl up ↦ absurd (f kept (sym same ∙ (eq_iff m "upgrade").0 up))
          | inr other ↦ ground (arith, other, equal)
        ]
      ]

  any-str_eq-Some :
      (xs : List String) (n : String) → any (λ m. str_eq m n) xs ≡ true → Some (λ m. m ≡ n) xs
  any-str_eq-Some xs n e =
      Some-mono _ (λ m. m ≡ n) xs (λ m. (eq_iff m n).0) (any-Some (λ m. str_eq m n) xs e)

  nominated-EndsHere :
      (h : Headers) (p : Bool) (n : String)
      → any (drops p n) (nominated H h) ≡ true
      → EndsHere h p n
  nominated-EndsHere h p n e =
      let s =
        Some-mono _ (λ m. (m ≡ n) × (p ≡ true → n ≢ "upgrade")) (nominated H h) (drops-true p n)
          (any-Some (drops p n) (nominated H h) e) in
      inl (
        nominated-Nominates h n (Some-mono _ (λ m. m ≡ n) (nominated H h) (λ m d. d.0) s),
        Some-const (nominated H h)
            (Some-mono _ (λ m. p ≡ true → n ≢ "upgrade") (nominated H h) (λ m d. d.1) s),
      )

  ends_here-EndsHere :
      (h : Headers) (p : Bool) (n : String) → ends_here H h p n ≡ true → EndsHere h p n
  unfolding ends_here
  ends_here-EndsHere h p n e = elim (Bool-cases (any (drops p n) (nominated H h))) [
    | inl a ↦ nominated-EndsHere h p n a
    | inr not_a ↦ elim (Bool-cases (any (λ m. str_eq m n) hop_by_hop)) [
      | inl b ↦ inr (inl (any-str_eq-Some hop_by_hop n b))
      | inr not_b ↦ elim (Bool-cases (str_eq "connection" n)) [
        | inl c ↦ inr (inr (ground (arith, e, not_a, not_b), inl (sym ((eq_iff _ _).0 c))))
        | inr not_c ↦ inr (
            inr (
              ground (arith, e, not_a, not_b),
              inr (sym ((eq_iff "upgrade" n).0 (ground (arith, e, not_a, not_b, not_c)))),
            ))
      ]
    ]
  ]

  EndsHere-ends_here :
      (h : Headers) (p : Bool) (n : String) → EndsHere h p n → ends_here H h p n ≡ true
  unfolding ends_here
  EndsHere-ends_here h p n (inl (s, f)) =
      let a : any (drops p n) (nominated H h) ≡ true = Some-any (drops p n) (nominated H h) (
        Some-mono (λ m. m ≡ n) _ (nominated H h) (λ m same. true-drops p n m same f)
          (Nominates-nominated h n s)) in
      rw a refl
  EndsHere-ends_here h p n (inr (inl s)) =
      let b : any (λ m. str_eq m n) hop_by_hop ≡ true =
        Some-any (λ m. str_eq m n) hop_by_hop
          (Some-mono (λ m. m ≡ n) _ hop_by_hop (λ m. (eq_iff m n).1) s) in
      ground (arith, b)
  EndsHere-ends_here h p n (inr (inr (out, inl c))) =
      let equal : str_eq "connection" n ≡ true = (eq_iff "connection" n).1 (sym c) in
      ground (arith, out, equal)
  EndsHere-ends_here h p n (inr (inr (out, inr u))) =
      let equal : str_eq "upgrade" n ≡ true = (eq_iff "upgrade" n).1 (sym u) in
      ground (arith, out, equal)

  -- `remove_hop_by_hop_headers` removes exactly the headers that end at this hop: those whose name is
  -- a comma-separated part of a value of `Connection`, blanks around it aside (but `Upgrade`, where the
  -- upgrade is kept); the six of a fixed list; and, where no upgrade is kept, `Connection` and
  -- `Upgrade`. Every other header keeps all its values.
  pub remove_hop_by_hop_headers-EndsHere :
      (h : Headers) (p : Bool) (n : String)
      → (EndsHere h p n → get_all (remove_hop_by_hop_headers H h p) n ≡ [])
        × (¬ EndsHere h p n → get_all (remove_hop_by_hop_headers H h p) n ≡ get_all h n)
  remove_hop_by_hop_headers-EndsHere h p n = (
    λ ends. get_all-remove_hop_by_hop_headers H h p n ∙ rw (EndsHere-ends_here h p n ends) refl,
    λ stays. elim (Bool-cases (ends_here H h p n)) [
      | inl ends ↦ absurd (stays (ends_here-EndsHere h p n ends))
      | inr other ↦ get_all-remove_hop_by_hop_headers H h p n ∙ rw other refl
    ],
  )
