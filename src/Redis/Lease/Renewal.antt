-- ===== src/Redis/Lease/Renewal.antt =====
-- The validity of a gateway is renewed before it ends: src/redis_admission/lease.rs.
use http_gateway.Prelude.{
  ℕ, ◌+◌, ◌%◌, ◌≤◌, inl, inr, Bool, true, false, Option, none, some, Result, ok, err, List, [], ◌∷◌,
  arith, leb, ◌==◌, Bool-cases,
}
use http_gateway.External.Redis.{Reply}
use http_gateway.Admission.{AdmissionError}
use http_gateway.Effects.{ret, call}
use http_gateway.Redis.Lease.{
  clock, draw, clear, publish, set_owned, send, Refresh, Holder, scan_order, after_reserved, scan,
  after_renewed, keep, settle, after_release, release, after_limit, refresh,
}

-- A gateway that is valid has a slot.
abbrev pub IsBacked : (valid owned : Option ℕ) → Type 0
IsBacked none owned = Unit {0}
IsBacked (some deadline) none = ⊥
IsBacked (some deadline) (some slot) = Unit {0}

module _ (h : Holder) (since : ℕ) where
  -- The validity stems from the refresh that began at `since`.
  abbrev pub IsFresh : Option ℕ → Type 0
  IsFresh none = Unit {0}
  IsFresh (some deadline) = since + h.lease_ttl ≤ deadline

  -- What a refresh leaves from a point on, with the validity and the slot: if it ends well, a validity
  -- that it has published itself, with a slot, or none.
  unfoldable pub Renews : (valid owned : Option ℕ) → Refresh → Type 0
  Renews valid owned (ret (ok u)) = IsFresh valid × IsBacked valid owned
  Renews valid owned (ret (err e)) = Unit {0}
  Renews valid owned (call clock k) = (now : ℕ) → since ≤ now → Renews valid owned (k now)
  Renews valid owned (call draw k) = (n : ℕ) → Renews valid owned (k n)
  Renews valid owned (call clear k) = Renews none owned (k tt)
  Renews valid owned (call (publish deadline) k) =
      (since + h.lease_ttl ≤ deadline) × Renews (some deadline) owned (k tt)
  Renews valid owned (call (set_owned slot) k) = Renews valid slot (k tt)
  Renews valid owned (call (send c) k) = (r : Reply) → Renews valid owned (k r)

  after_reserved-Renews :
      (started slot : ℕ) (rest : Refresh) (o : Result AdmissionError Bool)
      → since ≤ started
      → Renews none none rest
      → Renews none (some slot) (after_reserved h started rest o)
  unfolding Renews
  after_reserved-Renews started slot rest (err e) later left = tt
  after_reserved-Renews started slot rest (ok true) later left = (omega arith, (omega arith, tt))
  after_reserved-Renews started slot rest (ok false) later left = left

  scan-Renews : (slots : List ℕ) → Renews none none (scan h slots)
  unfolding Renews scan
  scan-Renews [] = (tt, tt)
  scan-Renews (slot ∷ slots) = λ started later.
      λ r. after_reserved-Renews started slot (scan h slots) _ later (scan-Renews slots)

  after_renewed-Renews :
      (valid : Option ℕ) (started slot : ℕ) (o : Result AdmissionError Bool)
      → since ≤ started
      → Renews valid (some slot) (after_renewed h started o)
  unfolding Renews
  after_renewed-Renews valid started slot (err e) later = tt
  after_renewed-Renews valid started slot (ok true) later = (omega arith, (omega arith, tt))
  after_renewed-Renews valid started slot (ok false) later = (tt, tt)

  keep-Renews :
      (limit : ℕ) (valid owned : Option ℕ)
      → IsBacked valid owned
      → Renews valid owned (keep h limit owned)
  unfolding Renews
  keep-Renews limit none none b = λ n. scan-Renews (scan_order (n % limit) limit)
  keep-Renews limit (some deadline) none b = absurd b
  keep-Renews limit valid (some slot) b =
      λ started later. λ r. after_renewed-Renews valid started slot _ later

  settle-Renews :
      (limit : ℕ) (valid owned : Option ℕ)
      → IsBacked valid owned
      → Renews valid owned (settle h limit owned)
  unfolding Renews
  settle-Renews limit valid owned b = elim (Bool-cases (limit == 0)) [
    | inl none_left ↦ rw (none_left, settle) (tt, tt)
    | inr some_left ↦ rw (some_left, settle) (keep-Renews limit valid owned b)
  ]

  after_release-Renews :
      (limit slot : ℕ) (o : Result AdmissionError Bool)
      → Renews none (some slot) (after_release h limit o)
  unfolding Renews
  after_release-Renews limit slot (err e) = tt
  after_release-Renews limit slot (ok b) = settle-Renews limit none none tt

  release-Renews :
      (limit : ℕ) (valid owned : Option ℕ)
      → IsBacked valid owned
      → Renews valid owned (release h limit owned)
  unfolding Renews
  release-Renews limit valid none b = settle-Renews limit valid none b
  release-Renews limit valid (some slot) b = elim (Bool-cases (leb limit slot)) [
    | inl beyond ↦ rw (beyond, release) (λ r. after_release-Renews limit slot _)
    | inr within ↦ rw (within, release) (settle-Renews limit valid (some slot) b)
  ]

  after_limit-Renews :
      (valid owned : Option ℕ) (o : Result AdmissionError ℕ)
      → IsBacked valid owned
      → Renews valid owned (after_limit h owned o)
  unfolding Renews
  after_limit-Renews valid owned (err e) b = tt
  after_limit-Renews valid owned (ok limit) b = release-Renews limit valid owned b

  pub refresh-Renews :
      (valid owned : Option ℕ) → IsBacked valid owned → Renews valid owned (refresh h owned)
  unfolding Renews refresh
  refresh-Renews valid owned b = λ r. after_limit-Renews valid owned _ b
