-- ===== src/Effects/Interpretation.antt =====
-- A program of one kind of effects as a program of another: each effect is a program of its own.
use mathlib.Core.List.{append-nil, append_assoc}
use http_gateway.Prelude.{◌≡◌, refl, sym, ap, subst, ◌∙◌, List, [], ◌∷◌, ◌++◌}
use http_gateway.Effects.{Prog, ret, call, ◌>>=◌, Event, Always, Always->>=, After, Always-since}

module _ {E E' : Type 0} {R : E → Type 0} {R' : E' → Type 0} where
  abbrev pub interpret : {A : Type 0} → ((e : E) → Prog R' (R e)) → Prog R A → Prog R' A
  interpret h (ret a) = ret a
  interpret h (call e k) = h e >>= λ r. interpret h (k r)

  module _ (P : (e : E) → List (Event R') → R e → Type 0) where
    -- The events of the effects, one after the other, each as `P` says.
    abbrev pub Expands : List (Event R) → List (Event R') → Type 0
    Expands [] log' = log' ≡ []
    Expands ((e, r) ∷ log) log' =
        (first rest : List (Event R')) × P e first r × (log' ≡ first ++ rest) × Expands log rest

    Expands-append :
        (log : List (Event R)) (base : List (Event R')) (e : E) (r : R e) (first : List (Event R'))
        → Expands log base
        → P e first r
        → Expands (log ++ (e, r) ∷ []) (base ++ first)
    Expands-append [] base e r first x p =
        (first, [], p, ap (λ b. b ++ first) x ∙ sym (append-nil first), refl)
    Expands-append ((e', r') ∷ log) base e r first (f, rest, p', s, x) p = (
      f,
      rest ++ first,
      p',
      ap (λ b. b ++ first) s ∙ append_assoc f rest first,
      Expands-append log rest e r first x p,
    )

    -- A result and events that the program may have, with the effects expanded.
    abbrev pub Expanded :
        {A : Type 0} → (List (Event R) → A → Type 0) → List (Event R') → A → Type 0
    Expanded Q log' a = (log : List (Event R)) × Q log a × Expands log log'

    -- What a program does whatever its effects answer, it does with the effects expanded.
    pub Always-interpret :
        {A : Type 0} (Q : List (Event R) → A → Type 0) (h : (e : E) → Prog R' (R e)) (m : Prog R A)
        (log : List (Event R)) (base : List (Event R'))
        → ((e : E) → Always (P e) [] (h e))
        → Always Q log m
        → Expands log base
        → Always (Expanded Q) base (interpret h m)
    Always-interpret Q h (ret a) log base each q x = (log, q, x)
    Always-interpret Q h (call e k) log base each q x =
        Always->>= (After base (P e)) (Expanded Q) base (h e) (λ r. interpret h (k r))
          (Always-since base (P e) (h e) (each e))
          (λ log' r (first, s, p).
            Always-interpret Q h (k r) (log ++ (e, r) ∷ []) log' each (q r) (
              subst (Expands (log ++ (e, r) ∷ [])) (sym s) (Expands-append log base e r first x p)))
