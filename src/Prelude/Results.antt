-- ===== src/Prelude/Results.antt =====
-- `Result` as a monad: the operator `?` of the source.
use http_gateway.Prelude.Tests.{Result, ok, err}
use mathlib.Core.Option.{Option, none, some}
use mathlib.Core.Path.{◌≡◌, refl}

-- `Option::ok_or`, or `map_err` to one error.
abbrev pub or_err {ℓ κ} : {A : Type ℓ} {E : Type κ} → Option A → E → Result E A
or_err none e = err e
or_err (some a) e = ok a

module _ {ℓ κ} {E : Type ℓ} {B : Type κ} where
  infixl 5 ◌>>=◌ ◌>>◌
  abbrev pub ◌>>=◌ {μ} : {A : Type μ} → Result E A → (A → Result E B) → Result E B
  err failure >>= next = err failure
  ok value >>= next = next value

  abbrev pub ◌>>◌ : Result E (Unit {0}) → Result E B → Result E B
  err failure >> rest = err failure
  ok value >> rest = rest

  -- A successful chain has a successful first step.
  pub >>=-eq-ok {μ} :
      {A : Type μ} (first : Result E A) (next : A → Result E B) {last : B}
      → (first >>= next) ≡ ok last
      → (value : A) × (first ≡ ok value) × (next value ≡ ok last)
  >>=-eq-ok (err failure) next e = cc
  >>=-eq-ok (ok value) next e = (value, refl, e)

  pub >>-eq-ok :
      (first : Result E (Unit {0})) (rest : Result E B) {last : B}
      → (first >> rest) ≡ ok last
      → rest ≡ ok last
  >>-eq-ok (err failure) rest e = cc
  >>-eq-ok (ok u) rest e = e
