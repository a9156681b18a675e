-- ===== src/Redis/Scripts/Ownership.antt =====
-- What the scripts of src/redis_admission.rs and the reservation leave of a key that a token holds.
use http_gateway.Prelude.{
  ℕ, ◌+◌, ◌≤◌, ◌<◌, String, ◌≡◌, ◌≢◌, refl, sym, ap, ◌∙◌, inl, inr, true, false, Option, none, some,
  arith, str_eq, eq_iff, Bool-cases, Option-cases, ok,
}
use http_gateway.External.Redis.{Script, complete, renew, Value, int, Writer, reply}
use http_gateway.Redis.Replies.{read_reserved, read_transition}
use http_gateway.Redis.Scripts.{holds_token, run_script, run_set}

module _ (W : Writer) where
  -- The key is held with the token until a time at least.
  abbrev pub HeldUntil : W.Store → ℕ → String → String → ℕ → Type 0
  HeldUntil s now key token least =
      (end : ℕ) × (W.read s now key ≡ some (token, end)) × (least ≤ end)

  -- A time to live, where one is given, is positive.
  abbrev pub IsTime : Option ℕ → Type 0
  IsTime none = Unit {0}
  IsTime (some ttl) = 0 < ttl

  -- A reservation leaves every key that is held as it is.
  pub run_set-HeldUntil :
      (s : W.Store) (now : ℕ) (key value : String) (ttl : ℕ) (k token : String) (least : ℕ)
      → 0 < ttl
      → HeldUntil s now k token least
      → HeldUntil (run_set W s now key value ttl).1 now k token least
  unfolding run_set
  run_set-HeldUntil s now key value ttl k token least positive (end, e, h) =
      elim (Bool-cases (str_eq key k)) [
        | inl same ↦
            let eq : key ≡ k = (eq_iff key k).0 same in
            (end, ground (arith, W.read-set_nx_px s now key value ttl k positive), h)
        | inr other ↦ (end, ground (arith, W.read-set_nx_px s now key value ttl k positive), h)
      ]

  -- A reservation that is granted holds its key for the whole time.
  pub run_set-granted :
      (s : W.Store) (now : ℕ) (key value : String) (ttl : ℕ)
      → 0 < ttl
      → read_reserved (reply (run_set W s now key value ttl).0) ≡ ok true
      → (W.read s now key ≡ none)
        × (W.read (run_set W s now key value ttl).1 now key ≡ some (value, now + ttl))
  unfolding run_set read_reserved
  run_set-granted s now key value ttl positive granted =
      let self : str_eq key key ≡ true = (eq_iff key key).1 refl in
      elim (Option-cases (W.read s now key)) [
        | inl free ↦ (free, ground (arith, W.read-set_nx_px s now key value ttl key positive, self))
        | inr (v, taken) ↦ absurd (ground (arith, W.set_nx_px_lem s now key value ttl positive))
      ]

  pub holds_token-eq :
      (o : Option (String × ℕ)) (token : String)
      → holds_token W o token ≡ true
      → (end : ℕ) × (o ≡ some (token, end))
  holds_token-eq none token e = cc
  holds_token-eq (some (value, end)) token e =
      let same : value ≡ token = (eq_iff value token).0 e in (end, ap (λ v. some (v, end)) same)

  pub holds_token_of : (token : String) (end : ℕ) → holds_token W (some (token, end)) token ≡ true
  holds_token_of token end = (eq_iff token token).1 refl

  -- A script runs only where the key holds its token, and leaves every other key as it is.
  pub read-run_script_ne :
      (script : Script) (s : W.Store) (now : ℕ) (key token : String) (ttl : Option ℕ) (k : String)
      → IsTime ttl
      → str_eq key k ≡ false
      → W.read (run_script W script s now key token ttl).1 now k ≡ W.read s now k
  unfolding run_script
  read-run_script_ne complete s now key token ttl k positive e =
      ground (arith, W.read-del s now key k)
  read-run_script_ne renew s now key token none k positive e = refl
  read-run_script_ne renew s now key token (some ttl) k positive e =
      elim (Bool-cases (holds_token W (W.read s now key) token)) [
        | inr no_token ↦ rw no_token refl
        | inl held ↦
            let (end, found) = holds_token-eq (W.read s now key) token held in
            rw (held, W.read-pexpire s now key token end ttl k positive found, e) refl
      ]

  run_script_shut :
      (script : Script) (s : W.Store) (now : ℕ) (key token : String) (ttl : Option ℕ)
      → holds_token W (W.read s now key) token ≡ false
      → run_script W script s now key token ttl ≡ (int 0, s)
  unfolding run_script
  run_script_shut complete s now key token ttl e = rw e refl
  run_script_shut renew s now key token none e = refl
  run_script_shut renew s now key token (some ttl) e = rw e refl

  -- A script of another token leaves a key that is held as it is.
  pub run_script-HeldUntil :
      (script : Script) (s : W.Store) (now : ℕ) (key other : String) (ttl : Option ℕ)
      (k token : String) (least : ℕ)
      → IsTime ttl
      → other ≢ token
      → HeldUntil s now k token least
      → HeldUntil (run_script W script s now key other ttl).1 now k token least
  run_script-HeldUntil script s now key other ttl k token least positive differ (end, e, h) =
      elim (Bool-cases (str_eq key k)) [
        | inr apart ↦ (end, read-run_script_ne script s now key other ttl k positive apart ∙ e, h)
        | inl same ↦ elim (Bool-cases (holds_token W (W.read s now key) other)) [
          | inr shut ↦ (
            end,
            ap (λ (x : Value × W.Store). W.read x.1 now k)
                  (run_script_shut script s now key other ttl shut)
                ∙ e,
            h,
          )
          | inl held ↦
              let (end', found) = holds_token-eq (W.read s now key) other held in
              let eq : key ≡ k = (eq_iff key k).0 same in
              let two : ◌≡◌ {A = Option (String × ℕ)} (some (other, end')) (some (token, end)) =
                sym found ∙ ap (λ x. W.read s now x) eq ∙ e in
              absurd (differ (cc))
        ]
      ]

  -- A renewal of the own token never shortens a hold that ends within its time to live.
  pub run_renew-HeldUntil :
      (s : W.Store) (now : ℕ) (key : String) (token : String) (ttl : ℕ) (k : String) (least : ℕ)
      → 0 < ttl
      → least ≤ now + ttl
      → HeldUntil s now k token least
      → HeldUntil (run_script W renew s now key token (some ttl)).1 now k token least
  unfolding run_script
  run_renew-HeldUntil s now key token ttl k least positive h (end, e, le) =
      elim (Bool-cases (holds_token W (W.read s now key) token)) [
        | inr shut ↦ rw shut (end, e, le)
        | inl held ↦
            let (end', found) = holds_token-eq (W.read s now key) token held in
            elim (Bool-cases (str_eq key k)) [
              | inl same ↦ rw held (
                now + ttl,
                rw (W.read-pexpire s now key token end' ttl k positive found, same) refl,
                h,
              )
              | inr apart ↦
                  rw held (
                    end,
                    rw (W.read-pexpire s now key token end' ttl k positive found, apart) e,
                    le,
                  )
            ]
      ]

  -- A renewal that is granted holds the key for the whole time.
  pub run_renew-granted :
      (text : String) (s : W.Store) (now : ℕ) (key token : String) (ttl : ℕ)
      → 0 < ttl
      → read_transition text (reply (run_script W renew s now key token (some ttl)).0) ≡ ok true
      → W.read (run_script W renew s now key token (some ttl)).1 now key ≡ some (token, now + ttl)
  unfolding run_script read_transition
  run_renew-granted text s now key token ttl positive granted =
      elim (Bool-cases (holds_token W (W.read s now key) token)) [
        | inr shut ↦ absurd (let bad : ok false ≡ ok true = rw shut at granted in cc)
        | inl held ↦
            let (end', found) = holds_token-eq (W.read s now key) token held in
            let self : str_eq key key ≡ true = (eq_iff key key).1 refl in
            rw (held, W.read-pexpire s now key token end' ttl key positive found, self) refl
      ]
