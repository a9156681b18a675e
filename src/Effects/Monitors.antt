-- ===== src/Effects/Monitors.antt =====
-- A protocol that the calls of a program obey: a state that every event changes, and what an event
-- requires of it.
use mathlib.Core.List.{append-nil, append_assoc}
use http_gateway.Prelude.{sym, subst, List, [], ◌∷◌, ◌++◌}
use http_gateway.Effects.{Prog, ret, call, ◌>>=◌, Event, Always}

module _ {E : Type 0} {R : E → Type 0} {S : Type 0} (Requires : S → Event R → Type 0)
    (advance : S → Event R → S) where
  -- The events obey the protocol from a state on, and end in a state that `G` allows.
  abbrev pub Obeys : (S → Type 0) → S → List (Event R) → Type 0
  Obeys G s [] = G s
  Obeys G s (ev ∷ log) = Requires s ev × Obeys G (advance s ev) log

  abbrev pub Follows : {A : Type 0} → (S → A → Type 0) → S → Prog R A → Type 0
  Follows G s (ret a) = G s a
  Follows G s (call e k) = (r : R e) → Requires s (e, r) × Follows G (advance s (e, r)) (k r)

  pub Follows->>= :
      {A B : Type 0} (F : S → A → Type 0) (G : S → B → Type 0) (s : S) (m : Prog R A)
      (f : A → Prog R B)
      → Follows F s m
      → ((s' : S) (a : A) → F s' a → Follows G s' (f a))
      → Follows G s (m >>= f)
  Follows->>= F G s (ret a) f h k = k s a h
  Follows->>= F G s (call e g) f h k =
      λ r. ((h r).0, Follows->>= F G (advance s (e, r)) (g r) f (h r).1 k)

  pub Follows-mono :
      {A : Type 0} (F G : S → A → Type 0) (s : S) (m : Prog R A)
      → ((s' : S) (a : A) → F s' a → G s' a)
      → Follows F s m
      → Follows G s m
  Follows-mono F G s (ret a) f h = f s a h
  Follows-mono F G s (call e g) f h =
      λ r. ((h r).0, Follows-mono F G (advance s (e, r)) (g r) f (h r).1)

  Follows-Obeys :
      {A : Type 0} (G : S → Type 0) (start s : S) (log : List (Event R)) (m : Prog R A)
      → ((rest : List (Event R)) → Obeys G s rest → Obeys G start (log ++ rest))
      → Follows (λ s' a. G s') s m
      → Always (λ log' a. Obeys G start log') log m
  Follows-Obeys G start s log (ret a) before h =
      subst (Obeys G start) (append-nil log) (before [] h)
  Follows-Obeys G start s log (call e k) before h = λ r.
      Follows-Obeys G start (advance s (e, r)) (log ++ (e, r) ∷ []) (k r)
        (λ rest o.
          subst (Obeys G start) (sym (append_assoc log ((e, r) ∷ []) rest))
            (before ((e, r) ∷ rest) ((h r).0, o)))
        (h r).1

  pub Follows-Always :
      {A : Type 0} (G : S → Type 0) (s : S) (m : Prog R A)
      → Follows (λ s' a. G s') s m
      → Always (λ log a. Obeys G s log) [] m
  Follows-Always G s m h = Follows-Obeys G s s [] m (λ rest o. o) h
