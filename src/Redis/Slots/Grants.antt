-- ===== src/Redis/Slots/Grants.antt =====
-- What the writer grants for the slots of src/redis_admission.rs, and how long it stays granted.
use http_gateway.Prelude.{
  ℕ, ◌+◌, ◌<◌, String, ◌≡◌, refl, sym, ap, ◌∙◌, ◌⊎◌, inl, inr, true, false, ◌&&◌, Option, none,
  some, List, [], ◌∷◌, arith, str_eq, eq_iff, is_some, ltb, All, Bool-cases,
}
use http_gateway.External.Redis.{Script, complete, renew, Writer}
use http_gateway.Redis.Scripts.{run_set, run_script}
use http_gateway.Redis.Scripts.Effects.{read-renew, read-run_set}
use http_gateway.Redis.Scripts.Ownership.{
  HeldUntil, IsTime, run_set-HeldUntil, run_script-HeldUntil, read-run_script_ne, holds_token_of,
}
use http_gateway.Redis.Slots.{Grant, is_of, retime, granted_by}

abbrev pub IsGranted : String → String → List Grant → Type 0
IsGranted key token [] = ⊥
IsGranted key token (g ∷ gs) = ((g.key ≡ key) × (g.token ≡ token)) ⊎ IsGranted key token gs

-- A grant with the token on the key that is not over.
abbrev pub IsLive : (now : ℕ) (key token : String) → List Grant → Type 0
IsLive now key token [] = ⊥
IsLive now key token (g ∷ gs) =
    ((g.key ≡ key) × (g.token ≡ token) × (now < g.until)) ⊎ IsLive now key token gs

abbrev pub Grows : List Grant → List Grant → Type 0
Grows gs gs' = (key token : String) → IsGranted key token gs → IsGranted key token gs'

pub retime-Grows :
    (now : ℕ) (key token : String) (until : ℕ) (gs : List Grant)
    → Grows gs (retime now key token until gs)
retime-Grows now key token until (g ∷ gs) k t (inl same) =
    elim (Bool-cases (is_of key token g && ltb now g.until)) [
      | inl own ↦ rw own (inl same)
      | inr apart ↦ rw apart (inl same)
    ]
retime-Grows now key token until (g ∷ gs) k t (inr later) =
    inr (retime-Grows now key token until gs k t later)
retime-Grows now key token until [] k t never = absurd never

pub granted_by-Grows :
    (W : Writer) (s : W.Store) (now : ℕ) (key token : String) (ttl : ℕ) (gs : List Grant)
    → Grows gs (granted_by W s now key token ttl gs)
granted_by-Grows W s now key token ttl gs k t h = elim (Bool-cases (is_some (W.read s now key))) [
  | inl full ↦ rw full h
  | inr free ↦ rw free (inr h)
]

module _ (W : Writer) where
  -- The writer holds the key with the token until the grant is over.
  abbrev pub IsKept : W.Store → ℕ → Grant → Type 0
  IsKept s now g = now < g.until → HeldUntil W s now g.key g.token g.until

  abbrev pub AreKept : W.Store → ℕ → List Grant → Type 0
  AreKept s now gs = All (λ g. IsKept s now g) gs

  pub later-AreKept :
      (s : W.Store) (now d : ℕ) (gs : List Grant) → AreKept s now gs → AreKept s (now + d) gs
  later-AreKept s now d [] h = tt
  later-AreKept s now d (g ∷ gs) h = (
    (λ live.
        let (end_of, found, least) = h.0 (omega (arith, live)) in
        (
          end_of,
          W.read-later s now (now + d) g.key g.token end_of found (omega arith)
              (omega (arith, live, least)),
          least,
        )),
    later-AreKept s now d gs h.1,
  )

  pub meddled-AreKept :
      (s s' : W.Store) (now : ℕ) (gs : List Grant)
      → All (λ g. W.read s' now g.key ≡ W.read s now g.key) gs
      → AreKept s now gs
      → AreKept s' now gs
  meddled-AreKept s s' now [] same h = tt
  meddled-AreKept s s' now (g ∷ gs) same h = (
    (λ live. let (end_of, found, least) = h.0 live in (end_of, same.0 ∙ found, least)),
    meddled-AreKept s s' now gs same.1 h.1,
  )

  set-AreKept :
      (s : W.Store) (now : ℕ) (key value : String) (ttl : ℕ) (gs : List Grant)
      → 0 < ttl
      → AreKept s now gs
      → AreKept (run_set W s now key value ttl).1 now gs
  set-AreKept s now key value ttl [] positive h = tt
  set-AreKept s now key value ttl (g ∷ gs) positive h = (
    (λ live. run_set-HeldUntil W s now key value ttl g.key g.token g.until positive (h.0 live)),
    set-AreKept s now key value ttl gs positive h.1,
  )

  pub granted_by-AreKept :
      (s : W.Store) (now : ℕ) (key value : String) (ttl : ℕ) (gs : List Grant)
      → 0 < ttl
      → AreKept s now gs
      → AreKept (run_set W s now key value ttl).1 now (granted_by W s now key value ttl gs)
  granted_by-AreKept s now key value ttl gs positive h =
      elim (Bool-cases (is_some (W.read s now key))) [
        | inl full ↦ rw full (set-AreKept s now key value ttl gs positive h)
        | inr free ↦
            let self : str_eq key key ≡ true = (eq_iff key key).1 refl in
            rw free (
              (λ live. (
                now + ttl,
                ground (arith, read-run_set W s now key value ttl key positive, self, free),
                omega arith,
              )),
              set-AreKept s now key value ttl gs positive h,
            )
      ]

  -- A script that is not of a grant leaves what the grant holds.
  apart-HeldUntil :
      (script : Script) (s : W.Store) (now : ℕ) (key token : String) (ttl : Option ℕ) (g : Grant)
      → IsTime W ttl
      → is_of key token g ≡ false
      → HeldUntil W s now g.key g.token g.until
      → HeldUntil W (run_script W script s now key token ttl).1 now g.key g.token g.until
  apart-HeldUntil script s now key token ttl g timed apart (end_of, found, least) =
      elim (Bool-cases (str_eq key g.key)) [
        | inr ne ↦
            (end_of, read-run_script_ne W script s now key token ttl g.key timed ne ∙ found, least)
        | inl same ↦
            let same_key : g.key ≡ key = sym ((eq_iff key g.key).0 same) in
            run_script-HeldUntil W script s now key token ttl g.key g.token g.until timed
              (λ t.
                let k : str_eq g.key key ≡ true = (eq_iff g.key key).1 same_key in
                let v : str_eq g.token token ≡ true = (eq_iff g.token token).1 (sym t) in
                absurd (ground (arith, apart, k, v)))
              (end_of, found, least)
      ]

  pub ended-AreKept :
      (s : W.Store) (now : ℕ) (key token : String) (gs : List Grant)
      → AreKept s now gs
      → AreKept (run_script W complete s now key token none).1 now (retime now key token now gs)
  ended-AreKept s now key token [] h = tt
  ended-AreKept s now key token (g ∷ gs) h =
      elim (Bool-cases (is_of key token g && ltb now g.until)) [
        | inl own ↦
            rw own ((λ live. absurd (omega (arith, live))), ended-AreKept s now key token gs h.1)
        | inr apart ↦ rw apart (
          (λ live.
              apart-HeldUntil complete s now key token none g tt (ground (arith, apart, live))
                (h.0 live)),
          ended-AreKept s now key token gs h.1,
        )
      ]

  pub prolonged-AreKept :
      (s : W.Store) (now : ℕ) (key token : String) (ttl : ℕ) (gs : List Grant)
      → 0 < ttl
      → AreKept s now gs
      → AreKept
          (run_script W renew s now key token (some ttl)).1
          now
          (retime now key token (now + ttl) gs)
  prolonged-AreKept s now key token ttl [] positive h = tt
  prolonged-AreKept s now key token ttl (g ∷ gs) positive h =
      elim (Bool-cases (is_of key token g && ltb now g.until)) [
        | inl own ↦ rw own (
          (λ live. renewed (ground (arith, own))),
          prolonged-AreKept s now key token ttl gs positive h.1,
        )
        | inr apart ↦ rw apart (
          (λ live.
              apart-HeldUntil renew s now key token (some ttl) g positive
                (ground (arith, apart, live)) (h.0 live)),
          prolonged-AreKept s now key token ttl gs positive h.1,
        )
      ]
    where
      renewed :
          (is_of key token g ≡ true) × (now < g.until)
          → HeldUntil W
              (run_script W renew s now key token (some ttl)).1
              now
              g.key
              g.token
              (now + ttl)
      renewed (own, live) =
          let (end_of, found, least) = h.0 live in
          let same_key : g.key ≡ key = (eq_iff g.key key).0 (ground (arith, own)) in
          let same_token : g.token ≡ token = (eq_iff g.token token).0 (ground (arith, own)) in
          let self : str_eq key key ≡ true = (eq_iff key key).1 refl in
          let held : W.read s now key ≡ some (token, end_of) =
            sym (ap (W.read s now) same_key) ∙ found ∙ ap (λ t. some (t, end_of)) same_token in
          let holds = holds_token_of W token end_of in
          (
            now + ttl,
            ap (W.read (run_script W renew s now key token (some ttl)).1 now) same_key
                ∙ rw (read-renew W s now key token ttl key positive, held, self, holds)
                    (ap (λ t. some (t, now + ttl)) (sym same_token)),
            omega arith,
          )
