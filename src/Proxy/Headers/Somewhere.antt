-- ===== src/Proxy/Headers/Somewhere.antt =====
-- Lists with an element that satisfies a predicate.
use mathlib.Core.List.{flat_map, filter_map}
use http_gateway.Prelude.{
  ◌≡◌, refl, sym, subst, ◌⊎◌, inl, inr, ◌↔◌, Bool, true, Option, none, some, List, [], ◌∷◌, ◌++◌,
  any, Bool-cases, Option-cases, arith,
}
use mathlib.Core.Option.{some-injective}

-- Some element satisfies `P`.
abbrev pub Some : {A : Type 0} → (A → Type 0) → List A → Type 0
Some P [] = ⊥
Some P (x ∷ xs) = P x ⊎ Some P xs

pub Some-mono :
    {A : Type 0} (P Q : A → Type 0) (xs : List A) → ((x : A) → P x → Q x) → Some P xs → Some Q xs
Some-mono P Q [] f s = s
Some-mono P Q (x ∷ xs) f (inl p) = inl (f x p)
Some-mono P Q (x ∷ xs) f (inr s) = inr (Some-mono P Q xs f s)

pub any-Some :
    {A : Type 0} (p : A → Bool) (xs : List A) → any p xs ≡ true → Some (λ x. p x ≡ true) xs
any-Some p [] e = cc
any-Some p (x ∷ xs) e = elim (Bool-cases (p x)) [
  | inl here ↦ inl here
  | inr not_here ↦ inr (any-Some p xs (ground (arith, not_here, e)))
]

pub Some-any :
    {A : Type 0} (p : A → Bool) (xs : List A) → Some (λ x. p x ≡ true) xs → any p xs ≡ true
Some-any p [] s = absurd s
Some-any p (x ∷ xs) (inl h) = ground (arith, h)
Some-any p (x ∷ xs) (inr s) = ground (arith, Some-any p xs s)

pub Some-append :
    {A : Type 0} (P : A → Type 0) (xs ys : List A) → Some P (xs ++ ys) → Some P xs ⊎ Some P ys
Some-append P [] ys s = inr s
Some-append P (x ∷ xs) ys (inl p) = inl (inl p)
Some-append P (x ∷ xs) ys (inr s) = elim (Some-append P xs ys s) [
  | inl l ↦ inl (inr l)
  | inr r ↦ inr r
]

pub append-Some :
    {A : Type 0} (P : A → Type 0) (xs ys : List A) → Some P xs ⊎ Some P ys → Some P (xs ++ ys)
append-Some P [] ys (inl s) = absurd s
append-Some P [] ys (inr s) = s
append-Some P (x ∷ xs) ys (inl (inl p)) = inl p
append-Some P (x ∷ xs) ys (inl (inr s)) = inr (append-Some P xs ys (inl s))
append-Some P (x ∷ xs) ys (inr s) = inr (append-Some P xs ys (inr s))

pub Some-flat_map :
    {A B : Type 0} (P : B → Type 0) (f : A → List B) (xs : List A)
    → Some P (flat_map f xs)
    → Some (λ x. Some P (f x)) xs
unfolding flat_map
Some-flat_map P f [] s = s
Some-flat_map P f (x ∷ xs) s = elim (Some-append P (f x) (flat_map f xs) s) [
  | inl l ↦ inl l
  | inr r ↦ inr (Some-flat_map P f xs r)
]

pub flat_map-Some :
    {A B : Type 0} (P : B → Type 0) (f : A → List B) (xs : List A)
    → Some (λ x. Some P (f x)) xs
    → Some P (flat_map f xs)
unfolding flat_map
flat_map-Some P f [] s = s
flat_map-Some P f (x ∷ xs) (inl s) = append-Some P (f x) (flat_map f xs) (inl s)
flat_map-Some P f (x ∷ xs) (inr s) =
    append-Some P (f x) (flat_map f xs) (inr (flat_map-Some P f xs s))

none_ne_some : {A : Type 0} {a : A} → none ≡ some a → ⊥
none_ne_some e = cc

pub Some-filter_map :
    {A B : Type 0} (P : B → Type 0) (f : A → Option B) (xs : List A)
    → Some P (filter_map f xs) ↔ Some (λ x. (y : B) × (f x ≡ some y) × P y) xs
unfolding filter_map
Some-filter_map P f [] = (λ s. s, λ s. s)
Some-filter_map P f (x ∷ xs) = elim (Option-cases (f x)) [
  | inl skipped ↦
      rw (skipped, filter_map)
        (
          λ s. inr ((Some-filter_map P f xs).0 s),
          λ h. elim h [
            | inl (y, e, p) ↦ absurd (none_ne_some e)
            | inr s ↦ (Some-filter_map P f xs).1 s
          ],
        )
  | inr (y, found) ↦
      rw (found, filter_map)
        (
          λ h. elim h [ inl p ↦ inl (y, refl, p) | inr s ↦ inr ((Some-filter_map P f xs).0 s) ],
          λ h. elim h [
            | inl (z, e, p) ↦ inl (subst P (sym (some-injective _ _ e)) p)
            | inr s ↦ inr ((Some-filter_map P f xs).1 s)
          ],
        )
]

pub Some-const : {A K : Type 0} (xs : List A) → Some (λ x. K) xs → K
Some-const [] s = absurd s
Some-const (x ∷ xs) (inl k) = k
Some-const (x ∷ xs) (inr s) = Some-const xs s
