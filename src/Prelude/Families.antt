-- ===== src/Prelude/Families.antt =====
-- A family of processes, by number, and the change of one of them.
use Prim.Native.Nat.{ℕ}
use mathlib.Core.Path.{◌≡◌, subst}
use mathlib.Core.Logic.{◌≢◌, inl, inr}
use native.Mathlib.Omega.{arith}
use http_gateway.Prelude.Tests.{◌==◌, if◌then◌else◌, Bool-cases}

module _ {A : Type 0} where
  abbrev pub update : (ℕ → A) → ℕ → A → ℕ → A
  update f i x j = if j == i then x else f j

  pub update-all :
      (P : ℕ → A → Type 0) (f : ℕ → A) (i : ℕ) (x : A)
      → ((j : ℕ) → j ≢ i → P j (f j))
      → P i x
      → (j : ℕ) → P j (update f i x j)
  update-all P f i x others own_case j = elim (Bool-cases (j == i)) [
    | inr apart ↦ rw apart (others j (ground arith))
    | inl same ↦ let e : i ≡ j = ground arith in rw same (subst (λ n. P n x) e own_case)
  ]
