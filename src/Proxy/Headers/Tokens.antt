-- ===== src/Proxy/Headers/Tokens.antt =====
-- The comma-separated tokens of a header value, as `split_comma` of src/proxy.rs splits it.
use http_gateway.Prelude.{
  ℕ, ◌≡◌, ◌≢◌, refl, ap, ◌∙◌, inl, inr, List, [], ◌∷◌, ◌++◌, All, ◌==◌, arith, Bool-cases,
}
use http_gateway.Proxy.Headers.{split_comma}

-- The parts of a value, one at least, with commas between them.
abbrev pub joined : List ℕ → List (List ℕ) → List ℕ
joined first [] = first
joined first (next ∷ parts) = first ++ 44 ∷ joined next parts

abbrev pub HasNoComma : List ℕ → Type 0
HasNoComma part = All (λ b. b ≢ 44) part

split_comma-cons :
    (b : ℕ) (bs : List ℕ) (part : List ℕ) (parts : List (List ℕ))
    → b ≢ 44
    → split_comma bs ≡ part ∷ parts
    → split_comma (b ∷ bs) ≡ (b ∷ part) ∷ parts
unfolding split_comma
split_comma-cons b bs part parts ne e = elim (Bool-cases (b == 44)) [
  | inl same ↦ absurd (ne (ground (arith, same)))
  | inr other ↦ rw (split_comma, other, e) refl
]

split_comma-last : (part : List ℕ) → HasNoComma part → split_comma part ≡ part ∷ []
unfolding split_comma
split_comma-last [] h = refl
split_comma-last (b ∷ bs) h = split_comma-cons b bs bs [] h.0 (split_comma-last bs h.1)

split_comma-append :
    (part value : List ℕ)
    → HasNoComma part
    → split_comma (part ++ 44 ∷ value) ≡ part ∷ split_comma value
unfolding split_comma
split_comma-append [] value h = refl
split_comma-append (b ∷ bs) value h =
    split_comma-cons b (bs ++ 44 ∷ value) bs (split_comma value) h.0
      (split_comma-append bs value h.1)

pub split_comma-joined :
    (first : List ℕ) (parts : List (List ℕ))
    → All HasNoComma (first ∷ parts)
    → split_comma (joined first parts) ≡ first ∷ parts
split_comma-joined first [] h = split_comma-last first h.0
split_comma-joined first (next ∷ parts) h =
    split_comma-append first (joined next parts) h.0
    ∙ ap (λ l. first ∷ l) (split_comma-joined next parts h.1)

-- `split_comma` gives parts without a comma, which make the value again.
pub record Parts (value : List ℕ) : Type 0 where
  pub first : List ℕ
  pub parts : List (List ℕ)
  pub given : split_comma value ≡ first ∷ parts
  pub again : joined first parts ≡ value
  pub free : All HasNoComma (first ∷ parts)

longer :
    (b : ℕ) (first : List ℕ) (parts : List (List ℕ))
    → joined (b ∷ first) parts ≡ b ∷ joined first parts
longer b first [] = refl
longer b first (next ∷ parts) = refl

pub split_comma-Parts : (value : List ℕ) → Parts value
unfolding split_comma
split_comma-Parts [] = record {
  first = [];
  parts = [];
  given = refl;
  again = refl;
  free = (tt, tt);
}
split_comma-Parts (b ∷ bs) =
    let p = split_comma-Parts bs in
    elim (Bool-cases (b == 44)) [
      | inl same ↦ record {
        first = [];
        parts = p.first ∷ p.parts;
        given = rw (split_comma, same, p.given) refl;
        again = ap (λ l. 44 ∷ l) p.again ∙ ap (λ c. c ∷ bs) (ground (arith, same));
        free = (tt, p.free);
      }
      | inr other ↦ record {
        first = b ∷ p.first;
        parts = p.parts;
        given = rw (split_comma, other, p.given) refl;
        again = longer b p.first p.parts ∙ ap (λ l. b ∷ l) p.again;
        free = ((λ e. ground (arith, other, e), p.free.0), p.free.1);
      }
    ]
