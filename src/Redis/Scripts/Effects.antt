-- ===== src/Redis/Scripts/Effects.antt =====
-- The answer of each script, and what it leaves of every key.
use http_gateway.Prelude.{
  ℕ, ◌+◌, ◌<◌, String, ◌≡◌, refl, inl, inr, not, ◌&&◌, Option, none, some, arith, str_eq,
  if◌then◌else◌, is_some, Bool-cases, ok,
}
use http_gateway.External.Redis.{complete, renew, Writer, reply}
use http_gateway.Redis.Replies.{read_transition, read_reserved}
use http_gateway.Redis.Scripts.{holds_token, run_script, run_set}
use http_gateway.Redis.Scripts.Ownership.{holds_token-eq}

module _ (W : Writer) (s : W.Store) (now : ℕ) (key token : String) where
  pub read_transition-complete :
      (text : String) (ttl : Option ℕ)
      → read_transition text (reply (run_script W complete s now key token ttl).0)
        ≡ ok (holds_token W (W.read s now key) token)
  unfolding run_script read_transition
  read_transition-complete text ttl = elim (Bool-cases (holds_token W (W.read s now key) token)) [
    | inl held ↦ rw held refl
    | inr shut ↦ rw shut refl
  ]

  pub read_transition-renew :
      (text : String) (ttl : ℕ)
      → read_transition text (reply (run_script W renew s now key token (some ttl)).0)
        ≡ ok (holds_token W (W.read s now key) token)
  unfolding run_script read_transition
  read_transition-renew text ttl = elim (Bool-cases (holds_token W (W.read s now key) token)) [
    | inl held ↦ rw held refl
    | inr shut ↦ rw shut refl
  ]

  pub read-complete :
      (ttl : Option ℕ) (k : String)
      → W.read (run_script W complete s now key token ttl).1 now k
        ≡ (if str_eq key k && holds_token W (W.read s now key) token then none else W.read s now k)
  unfolding run_script
  read-complete ttl k = elim (Bool-cases (holds_token W (W.read s now key) token)) [
    | inl held ↦ ground (arith, W.read-del s now key k)
    | inr shut ↦ ground arith
  ]

  pub read-renew :
      (ttl : ℕ) (k : String)
      → 0 < ttl
      → W.read (run_script W renew s now key token (some ttl)).1 now k ≡ (
          if str_eq key k && holds_token W (W.read s now key) token
          then some (token, now + ttl)
          else W.read s now k)
  unfolding run_script
  read-renew ttl k positive = elim (Bool-cases (holds_token W (W.read s now key) token)) [
    | inl held ↦
        let (end, found) = holds_token-eq W (W.read s now key) token held in
        ground (arith, W.read-pexpire s now key token end ttl k positive found)
    | inr shut ↦ ground arith
  ]

  pub read_reserved-run_set :
      (ttl : ℕ)
      → 0 < ttl
      → read_reserved (reply (run_set W s now key token ttl).0)
        ≡ ok (not (is_some (W.read s now key)))
  unfolding run_set read_reserved
  read_reserved-run_set ttl positive = ground (arith, W.set_nx_px_lem s now key token ttl positive)

  pub read-run_set :
      (ttl : ℕ) (k : String)
      → 0 < ttl
      → W.read (run_set W s now key token ttl).1 now k ≡ (
          if str_eq key k && not (is_some (W.read s now key))
          then some (token, now + ttl)
          else W.read s now k)
  unfolding run_set
  read-run_set ttl k positive = W.read-set_nx_px s now key token ttl k positive
