-- ===== src/Effects.antt =====
-- What the asynchronous code awaits, as an interaction tree: a call of an effect, and what is done
-- with its answer. Whoever answers the calls may do anything in between, so a theorem over every
-- answer also covers the tasks that run while the code waits.
pub mod Interpretation
pub mod Monitors
use mathlib.Core.List.{append-nil, append_assoc}
use http_gateway.Prelude.{
  ℕ, ◌+◌, ◌-◌, ◌≤◌, ◌<◌, arith, ◌≡◌, refl, sym, subst, ◌∙◌, List, [], ◌∷◌, ◌++◌, All,
}

pub data Prog {E : Type 0} (R : E → Type 0) (A : Type 0) : Type 0 where
  ret : A → Prog R A
  call : (e : E) → (R e → Prog R A) → Prog R A

-- A call with its answer.
abbrev pub Event : {E : Type 0} (R : E → Type 0) → Type 0
Event {E} R = (e : E) × R e

module _ {E : Type 0} {R : E → Type 0} where
  infixl 5 ◌>>=◌ ◌>>◌
  abbrev pub ◌>>=◌ : {A B : Type 0} → Prog R A → (A → Prog R B) → Prog R B
  ret a >>= f = f a
  call e k >>= f = call e (λ r. k r >>= f)

  abbrev pub ◌>>◌ : {B : Type 0} → Prog R (Unit {0}) → Prog R B → Prog R B
  m >> k = m >>= λ _. k

  -- An effect by itself.
  abbrev pub perform : (e : E) → Prog R (R e)
  perform e = call e ret

  -- Whatever the answers are, `Q` holds of the events, in order, and of the result.
  abbrev pub Always :
      {A : Type 0} → (List (Event R) → A → Type 0) → List (Event R) → Prog R A → Type 0
  Always Q log (ret a) = Q log a
  Always Q log (call e k) = (r : R e) → Always Q (log ++ (e, r) ∷ []) (k r)

  -- Every call that is made, whatever was answered before it, satisfies `P`.
  abbrev pub Calls : {A : Type 0} → (E → Type 0) → Prog R A → Type 0
  Calls P (ret a) = Unit
  Calls P (call e k) = P e × ((r : R e) → Calls P (k r))

  pub Calls->>= :
      {A B : Type 0} (P : E → Type 0) (m : Prog R A) (f : A → Prog R B)
      → Calls P m
      → ((a : A) → Calls P (f a))
      → Calls P (m >>= f)
  Calls->>= P (ret a) f h k = k a
  Calls->>= P (call e g) f h k = (h.0, λ r. Calls->>= P (g r) f (h.1 r) k)

  pub Calls-mono :
      {A : Type 0} (P Q : E → Type 0) (m : Prog R A) → ((e : E) → P e → Q e) → Calls P m → Calls Q m
  Calls-mono P Q (ret a) f h = tt
  Calls-mono P Q (call e g) f h = (f e h.0, λ r. Calls-mono P Q (g r) f (h.1 r))

  pub Always->>= :
      {A B : Type 0} (P : List (Event R) → A → Type 0) (Q : List (Event R) → B → Type 0)
      (log : List (Event R)) (m : Prog R A) (f : A → Prog R B)
      → Always P log m
      → ((log' : List (Event R)) (a : A) → P log' a → Always Q log' (f a))
      → Always Q log (m >>= f)
  Always->>= P Q log (ret a) f h k = k log a h
  Always->>= P Q log (call e g) f h k = λ r. Always->>= P Q (log ++ (e, r) ∷ []) (g r) f (h r) k

  pub Always-mono :
      {A : Type 0} (P Q : List (Event R) → A → Type 0) (log : List (Event R)) (m : Prog R A)
      → ((log' : List (Event R)) (a : A) → P log' a → Q log' a)
      → Always P log m
      → Always Q log m
  Always-mono P Q log (ret a) f h = f log a h
  Always-mono P Q log (call e g) f h = λ r. Always-mono P Q (log ++ (e, r) ∷ []) (g r) f (h r)

  pub Always-all :
      {A : Type 0} (Q : List (Event R) → A → Type 0) (log : List (Event R)) (m : Prog R A)
      → ((log' : List (Event R)) (a : A) → Q log' a)
      → Always Q log m
  Always-all Q log (ret a) f = f log a
  Always-all Q log (call e g) f = λ r. Always-all Q (log ++ (e, r) ∷ []) (g r) f

  -- The events since `log` are calls that `P` allows.
  abbrev pub Since : {A : Type 0} → (E → Type 0) → List (Event R) → List (Event R) → A → Type 0
  Since P log log' a = (rest : List (Event R)) × (log' ≡ log ++ rest) × All (λ ev. P ev.0) rest

  pub Calls-Always :
      {A : Type 0} (P : E → Type 0) (log : List (Event R)) (m : Prog R A)
      → Calls P m
      → Always (Since P log) log m
  Calls-Always P log (ret a) h = ([], sym (append-nil log), tt)
  Calls-Always P log (call e g) h = λ r.
      Always-mono (Since P (log ++ (e, r) ∷ [])) (Since P log) (log ++ (e, r) ∷ []) (g r)
        (λ log' a s. ((e, r) ∷ s.0, s.1 ∙ append_assoc log ((e, r) ∷ []) s.0, (h.0, s.2)))
        (Calls-Always P (log ++ (e, r) ∷ []) (g r) (h.1 r))

  -- Whatever the answers are, there are `n` calls at most.
  abbrev pub Within : {A : Type 0} → ℕ → Prog R A → Type 0
  Within n (ret a) = Unit {0}
  Within n (call e k) = (0 < n) × ((r : R e) → Within (n - 1) (k r))

  pub Within-mono : {A : Type 0} (m n : ℕ) (p : Prog R A) → Within m p → m ≤ n → Within n p
  Within-mono m n (ret a) w e = tt
  Within-mono m n (call c k) w e =
      (omega (arith, w.0, e), λ r. Within-mono (m - 1) (n - 1) (k r) (w.1 r) (omega (arith, e)))

  pub Within->>= :
      {A B : Type 0} (m n : ℕ) (p : Prog R A) (f : A → Prog R B)
      → Within m p
      → ((a : A) → Within n (f a))
      → Within (m + n) (p >>= f)
  Within->>= m n (ret a) f w h = Within-mono n (m + n) (f a) (h a) (omega arith)
  Within->>= m n (call e k) f w h = (
    omega (arith, w.0),
    λ r.
        Within-mono (m - 1 + n) (m + n - 1) (k r >>= f) (Within->>= (m - 1) n (k r) f (w.1 r) h)
          (omega (arith, w.0)),
  )

  -- A run against answers that may depend on a state of the environment.
  module _ {S : Type 0} (answer : (e : E) → S → R e × S) where
    unfoldable pub run : {A : Type 0} → Prog R A → S → A × List (Event R)
    run (ret a) s = (a, [])
    run (call e k) s =
        let rest = run (k (answer e s).0) (answer e s).1 in (rest.0, (e, (answer e s).0) ∷ rest.1)

  -- The events since `base` satisfy `Q`.
  abbrev pub After :
      {A : Type 0} → List (Event R) → (List (Event R) → A → Type 0) → List (Event R) → A → Type 0
  After base Q log a = (rest : List (Event R)) × (log ≡ base ++ rest) × Q rest a

  pub Always-After :
      {A : Type 0} (base log : List (Event R)) (Q : List (Event R) → A → Type 0) (m : Prog R A)
      → Always Q log m
      → Always (After base Q) (base ++ log) m
  Always-After base log Q (ret a) h = (log, refl, h)
  Always-After base log Q (call e g) h = λ r.
      subst (λ l. Always (After base Q) l (g r)) (sym (append_assoc base log ((e, r) ∷ [])))
        (Always-After base (log ++ (e, r) ∷ []) Q (g r) (h r))

  pub Always-since :
      {A : Type 0} (base : List (Event R)) (Q : List (Event R) → A → Type 0) (m : Prog R A)
      → Always Q [] m
      → Always (After base Q) base m
  Always-since base Q m h =
      subst (λ l. Always (After base Q) l m) (append-nil base) (Always-After base [] Q m h)
