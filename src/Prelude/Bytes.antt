-- ===== src/Prelude/Bytes.antt =====
-- The equality test of byte strings.
use mathlib.Core.Path.{◌≡◌, refl}
use mathlib.Core.Bool.{Bool, true, false, ◌&&◌}
use mathlib.Core.List.{List, [], ◌∷◌}
use native.Mathlib.Omega.{arith}
use Prim.Native.Nat.{ℕ}
use http_gateway.Prelude.Tests.{◌==◌}

abbrev pub bytes_eq : List ℕ → List ℕ → Bool
bytes_eq [] [] = true
bytes_eq [] (b ∷ bs) = false
bytes_eq (a ∷ aa) [] = false
bytes_eq (a ∷ aa) (b ∷ bs) = a == b && bytes_eq aa bs

pub bytes_eq_lem : (xs ys : List ℕ) → bytes_eq xs ys ≡ true → xs ≡ ys
bytes_eq_lem [] [] e = refl
bytes_eq_lem [] (y ∷ ys) e = cc
bytes_eq_lem (x ∷ xs) [] e = cc
bytes_eq_lem (x ∷ xs) (y ∷ ys) e = ground (arith, bytes_eq_lem xs ys)

pub bytes_eq_self : (xs : List ℕ) → bytes_eq xs xs ≡ true
bytes_eq_self [] = refl
bytes_eq_self (x ∷ xs) = ground (arith, bytes_eq_self xs)
