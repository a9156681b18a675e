-- ===== src/Proxy/Headers/Laws.antt =====
-- What is left of a request's headers after the header rules of src/proxy.rs.
use Prim.Native.String
use text.Mathlib.TextPositions.{eq_refl}
use http_gateway.Prelude.{
  String, ◌≡◌, refl, Bool, true, false, not, ◌&&◌, ◌||◌, none, some, List, [], ◌∷◌, arith, str_eq,
  if◌then◌else◌, any, Bool-cases, Option-cases, inl, inr, ◌⊎◌, eq_iff,
}
use http_gateway.External.Http.{Http}
use http_gateway.Proxy.Headers.{
  connection_header, upgrade_header, x_forwarded_for, hop_by_hop, nominated, remove_nominated,
  remove_all, remove_hop_by_hop_headers, insert_text, append_forwarded_for,
}

module _ (H : Http) where
  open H use {Headers, HeaderValue, get_all, insert, remove}

  -- The header names that end at this hop.
  unfoldable pub ends_here : Headers → Bool → String → Bool
  ends_here h preserve_upgrade n =
      any (λ m. (not preserve_upgrade || not (str_eq m upgrade_header)) && str_eq m n)
        (nominated H h)
      || any (λ m. str_eq m n) hop_by_hop
      || (not preserve_upgrade && (str_eq connection_header n || str_eq upgrade_header n))

  get_all-remove_nominated :
      (p : Bool) (names : List String) (h : Headers) (n : String)
      → get_all (remove_nominated H p names h) n ≡ (
          if any (λ m. (not p || not (str_eq m upgrade_header)) && str_eq m n) names
          then []
          else get_all h n)
  unfolding remove_nominated
  get_all-remove_nominated p [] h n = refl
  get_all-remove_nominated p (m ∷ names) h n = ground (
    arith,
    get_all-remove_nominated p names h n,
    get_all-remove_nominated p names (remove h m) n,
    H.get_all-remove h m n,
  )

  get_all-remove_all :
      (names : List String) (h : Headers) (n : String)
      → get_all (remove_all H names h) n ≡ (if any (λ m. str_eq m n) names then [] else get_all h n)
  unfolding remove_all
  get_all-remove_all [] h n = refl
  get_all-remove_all (m ∷ names) h n =
      ground (arith, get_all-remove_all names (remove h m) n, H.get_all-remove h m n)

  -- `remove_hop_by_hop_headers` removes the headers of which `ends_here` holds, and no other.
  pub get_all-remove_hop_by_hop_headers :
      (h : Headers) (p : Bool) (n : String)
      → get_all (remove_hop_by_hop_headers H h p) n ≡ (if ends_here h p n then [] else get_all h n)
  unfolding remove_hop_by_hop_headers ends_here
  get_all-remove_hop_by_hop_headers h p n =
      let few = remove_nominated H p (nominated H h) h in
      let fewer = remove_all H hop_by_hop few in
      ground (
        arith,
        get_all-remove_nominated p (nominated H h) h n,
        get_all-remove_all hop_by_hop few n,
        H.get_all-remove fewer connection_header n,
        H.get_all-remove (remove fewer connection_header) upgrade_header n,
      )

  -- The values of `X-Forwarded-For` after a hop, from those before it: one value, the first
  -- readable one with the address behind it; the address alone where there was none or the first
  -- is not readable.
  abbrev pub text_value : String → List HeaderValue → List HeaderValue
  text_value text otherwise = elim (H.value_from_str text) [ none ↦ otherwise | some v ↦ v ∷ [] ]

  unfoldable pub forwarded : List HeaderValue → String → List HeaderValue
  forwarded [] address = text_value address []
  forwarded (v ∷ vs) address = elim (H.value_to_str v) [
    | none ↦ text_value address []
    | some text ↦ text_value (String.◌++◌ text (String.◌++◌ ", " address)) (v ∷ vs)
  ]

  get_all-insert_text :
      (h : Headers) (n text m : String)
      → get_all (insert_text H h n text) m
        ≡ (if str_eq n m then text_value text (get_all h n) else get_all h m)
  get_all-insert_text h n text m = elim (Option-cases (H.value_from_str text)) [
    | inl bad ↦ rw (bad, insert_text, text_value) (unchanged (Bool-cases (str_eq n m)))
    | inr (v, good) ↦ rw (good, insert_text, text_value) (H.get_all-insert h n m v)
  ]
    where
      unchanged :
          ((str_eq n m ≡ true) ⊎ (str_eq n m ≡ false))
          → get_all h m ≡ (if str_eq n m then get_all h n else get_all h m)
      unchanged (inl e) = rw (e, (eq_iff n m).0 e) refl
      unchanged (inr e) = rw e refl

  append_by_values :
      (h : Headers) (a n : String) (vs : List HeaderValue)
      → get_all h x_forwarded_for ≡ vs
      → get_all (append_forwarded_for H h a) n
        ≡ (if str_eq x_forwarded_for n then forwarded vs a else get_all h n)
  unfolding append_forwarded_for forwarded
  append_by_values h a n [] e =
      rw (e, append_forwarded_for) (rw (get_all-insert_text h x_forwarded_for a n) (ground arith))
  append_by_values h a n (v ∷ vs) e = elim (Option-cases (H.value_to_str v)) [
    | inl bad ↦
        rw (e, append_forwarded_for, bad, forwarded)
          (ground (
            arith,
            get_all-insert_text (remove h x_forwarded_for) x_forwarded_for a n,
            H.get_all-remove h x_forwarded_for n,
            H.get_all-remove h x_forwarded_for x_forwarded_for,
            eq_refl x_forwarded_for,
          ))
    | inr (text, good) ↦
        rw (e, append_forwarded_for, good, forwarded)
          (ground (
            arith,
            get_all-insert_text h x_forwarded_for (String.◌++◌ text (String.◌++◌ ", " a)) n,
          ))
  ]

  -- After `append_forwarded_for` the header `X-Forwarded-For` has the values that `forwarded`
  -- gives: one value at most where it was absent or its first value is not readable, and of
  -- several values only the first is carried on. No other header changes.
  pub get_all-append_forwarded_for :
      (h : Headers) (a n : String)
      → get_all (append_forwarded_for H h a) n ≡ (
          if str_eq x_forwarded_for n then forwarded (get_all h x_forwarded_for) a else get_all h n)
  get_all-append_forwarded_for h a n = append_by_values h a n _ refl
