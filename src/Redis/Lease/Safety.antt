-- ===== src/Redis/Lease/Safety.antt =====
-- Which commands and which validity a refresh of src/redis_admission/lease.rs leads to.
use http_gateway.Prelude.{
  String, ℕ, zero, suc, ◌+◌, ◌-◌, ◌%◌, ◌≤◌, ◌<◌, ◌≡◌, refl, inl, inr, Bool, true, false, Option,
  none, some, Result, ok, err, List, [], ◌∷◌, ◌++◌, arith, All, leb, ◌==◌, Bool-cases,
}
use mathlib.Core.Option.{some-injective}
use http_gateway.External.Redis.{Command, get, set_nx_px, eval, complete, renew, Reply}
use http_gateway.Admission.{AdmissionError}
use http_gateway.Effects.{ret, call}
use http_gateway.Redis.Replies.{read_reserved}
use http_gateway.Redis.Lease.{
  clock, draw, clear, publish, set_owned, send, Refresh, Holder, limit_key, gateway_key, read_limit,
  read_participation, range, scan_order, after_reserved, scan, after_renewed, keep, settle,
  after_release, release, after_limit, refresh,
}

module _ (h : Holder) (most : ℕ) where
  abbrev pub IsSlotKey : String → Type 0
  IsSlotKey key = (slot : ℕ) × (slot < most) × (key ≡ gateway_key h slot)

  -- A command that a refresh may send: it reads the limit; it takes or keeps a slot below the limit,
  -- for the whole time to live; or it gives a slot up, and then the gateway is not valid.
  abbrev pub MaySend : (valid : Option ℕ) → Command → Type 0
  MaySend valid (get key) = key ≡ limit_key h
  MaySend valid (set_nx_px key value ttl) =
      IsSlotKey key × (value ≡ h.token) × (ttl ≡ h.lease_ttl) × (0 < ttl)
  MaySend valid (eval renew key token ttl) =
      IsSlotKey key × (token ≡ h.token) × (ttl ≡ some h.lease_ttl) × (0 < h.lease_ttl)
  MaySend valid (eval complete key token ttl) = (valid ≡ none) × (token ≡ h.token) × (ttl ≡ none)
  MaySend valid c = ⊥

  -- A reply that says that the slot is held.
  abbrev pub Grants : Command → Reply → Type 0
  Grants (set_nx_px key value ttl) r = read_reserved r ≡ ok true
  Grants (eval renew key token ttl) r = read_participation r ≡ ok true
  Grants c r = ⊥

  -- A reply that the writer can give: no limit is above the greatest.
  abbrev pub IsPossible : Command → Reply → Type 0
  IsPossible (get key) r = (n : ℕ) → read_limit r ≡ ok n → n ≤ most
  IsPossible c r = Unit {0}

  -- What may happen from a point of a refresh on, with the validity, the last reading of the clock,
  -- and the deadline to which the last reply grants a slot: only such commands are sent, and the
  -- validity that is published ends within the grant.
  unfoldable pub IsSafe : (grant valid : Option ℕ) → (read : ℕ) → Refresh → Type 0
  IsSafe grant valid read (ret r) = Unit {0}
  IsSafe grant valid read (call clock k) = (now : ℕ) → read ≤ now → IsSafe grant valid now (k now)
  IsSafe grant valid read (call draw k) = (n : ℕ) → IsSafe grant valid read (k n)
  IsSafe grant valid read (call clear k) = IsSafe grant none read (k tt)
  IsSafe grant valid read (call (publish deadline) k) =
      (grant ≡ some deadline) × IsSafe grant (some deadline) read (k tt)
  IsSafe grant valid read (call (set_owned slot) k) = IsSafe grant valid read (k tt)
  IsSafe grant valid read (call (send c) k) =
      MaySend valid c
      × ((r : Reply)
          → IsPossible c r
          → Grants c r
          → IsSafe (some (read + h.lease_ttl)) valid read (k r))
      × ((r : Reply) → IsPossible c r → ¬ Grants c r → IsSafe none valid read (k r))

  range-lt : (n count : ℕ) → n + count ≤ most → All (λ slot. slot < most) (range n count)
  unfolding range
  range-lt n zero e = tt
  range-lt n (suc count) e = (omega arith, range-lt (suc n) count (omega arith))

  All-append : (P : ℕ → Type 0) (xs ys : List ℕ) → All P xs → All P ys → All P (xs ++ ys)
  All-append P [] ys a b = b
  All-append P (x ∷ xs) ys a b = (a.0, All-append P xs ys a.1 b)

  pub scan_order-lt :
      (first limit : ℕ)
      → first < limit
      → limit ≤ most
      → All (λ slot. slot < most) (scan_order first limit)
  unfolding scan_order
  scan_order-lt first limit a b =
      All-append (λ slot. slot < most) _ _ (range-lt first (limit - first) (omega arith))
        (range-lt 0 first (omega arith))

  reserved_granted-IsSafe :
      (valid : Option ℕ) (read : ℕ) (rest : Refresh) (o : Result AdmissionError Bool)
      → o ≡ ok true
      → IsSafe (some (read + h.lease_ttl)) valid read (after_reserved h read rest o)
  unfolding IsSafe
  reserved_granted-IsSafe valid read rest (ok true) e = (refl, tt)
  reserved_granted-IsSafe valid read rest (ok false) e = cc
  reserved_granted-IsSafe valid read rest (err x) e = cc

  reserved_refused-IsSafe :
      (valid : Option ℕ) (read : ℕ) (rest : Refresh) (o : Result AdmissionError Bool)
      → ¬ (o ≡ ok true)
      → IsSafe none valid read rest
      → IsSafe none valid read (after_reserved h read rest o)
  unfolding IsSafe
  reserved_refused-IsSafe valid read rest (ok true) e safe = absurd (e refl)
  reserved_refused-IsSafe valid read rest (ok false) e safe = safe
  reserved_refused-IsSafe valid read rest (err x) e safe = tt

  renewed_granted-IsSafe :
      (valid : Option ℕ) (read : ℕ) (o : Result AdmissionError Bool)
      → o ≡ ok true
      → IsSafe (some (read + h.lease_ttl)) valid read (after_renewed h read o)
  unfolding IsSafe
  renewed_granted-IsSafe valid read (ok true) e = (refl, tt)
  renewed_granted-IsSafe valid read (ok false) e = cc
  renewed_granted-IsSafe valid read (err x) e = cc

  renewed_refused-IsSafe :
      (valid : Option ℕ) (read : ℕ) (o : Result AdmissionError Bool)
      → ¬ (o ≡ ok true)
      → IsSafe none valid read (after_renewed h read o)
  unfolding IsSafe
  renewed_refused-IsSafe valid read (ok true) e = absurd (e refl)
  renewed_refused-IsSafe valid read (ok false) e = tt
  renewed_refused-IsSafe valid read (err x) e = tt

  module _ (positive_ttl : 0 < h.lease_ttl) where
    scan-IsSafe :
        (valid : Option ℕ) (read : ℕ) (slots : List ℕ)
        → All (λ slot. slot < most) slots
        → IsSafe none valid read (scan h slots)
    unfolding IsSafe scan
    scan-IsSafe valid read [] below = tt
    scan-IsSafe valid read (slot ∷ slots) below = λ now later. (
      ((slot, below.0, refl), refl, refl, positive_ttl),
      (λ r possible granted. reserved_granted-IsSafe valid now (scan h slots) _ granted),
      (λ r possible refused.
          reserved_refused-IsSafe valid now (scan h slots) _ refused
            (scan-IsSafe valid now slots below.1)),
    )

    keep-IsSafe :
        (valid : Option ℕ) (read limit : ℕ) (owned : Option ℕ)
        → 0 < limit
        → limit ≤ most
        → ((slot : ℕ) → owned ≡ some slot → slot < limit)
        → IsSafe none valid read (keep h limit owned)
    unfolding IsSafe
    keep-IsSafe valid read limit none positive bounded below = λ n.
        scan-IsSafe valid read (scan_order (n % limit) limit)
          (scan_order-lt (n % limit) limit (grind arith) bounded)
    keep-IsSafe valid read limit (some slot) positive bounded below = λ now later. (
      ((slot, omega (arith, below slot refl), refl), refl, refl, positive_ttl),
      (λ r possible granted. renewed_granted-IsSafe valid now _ granted),
      (λ r possible refused. renewed_refused-IsSafe valid now _ refused),
    )

    settle-IsSafe :
        (valid : Option ℕ) (read limit : ℕ) (owned : Option ℕ)
        → limit ≤ most
        → ((slot : ℕ) → owned ≡ some slot → slot < limit)
        → IsSafe none valid read (settle h limit owned)
    unfolding IsSafe
    settle-IsSafe valid read limit owned bounded below = elim (Bool-cases (limit == 0)) [
      | inl none_left ↦ rw (none_left, settle) tt
      | inr some_left ↦
          rw (some_left, settle) (keep-IsSafe valid read limit owned (ground arith) bounded below)
    ]

    released-IsSafe :
        (read limit : ℕ) (o : Result AdmissionError Bool)
        → limit ≤ most
        → IsSafe none none read (after_release h limit o)
    unfolding IsSafe
    released-IsSafe read limit (err x) bounded = tt
    released-IsSafe read limit (ok b) bounded =
        settle-IsSafe none read limit none bounded (λ slot e. cc)

    release-IsSafe :
        (valid : Option ℕ) (read limit : ℕ) (owned : Option ℕ)
        → limit ≤ most
        → IsSafe none valid read (release h limit owned)
    unfolding IsSafe
    release-IsSafe valid read limit none bounded =
        settle-IsSafe valid read limit none bounded (λ slot e. cc)
    release-IsSafe valid read limit (some slot) bounded = elim (Bool-cases (leb limit slot)) [
      | inl beyond ↦
          rw (beyond, release)
            (
              (refl, refl, refl),
              (λ r possible granted. absurd granted),
              (λ r possible refused. released-IsSafe read limit _ bounded),
            )
      | inr within ↦
          rw (within, release)
            (settle-IsSafe valid read limit (some slot) bounded
              (λ other e. let same : slot ≡ other = some-injective _ _ e in ground arith))
    ]

    -- A refresh is safe from the start, whatever slot it owned and whatever validity there was.
    pub refresh-IsSafe :
        (valid : Option ℕ) (read : ℕ) (owned : Option ℕ) → IsSafe none valid read (refresh h owned)
    unfolding IsSafe refresh
    refresh-IsSafe valid read owned = (
      refl,
      (λ r possible granted. absurd granted),
      (λ r possible refused. limit_read r _ refl possible),
    )
      where
        limit_read :
            (r : Reply) (o : Result AdmissionError ℕ)
            → read_limit r ≡ o
            → ((n : ℕ) → read_limit r ≡ ok n → n ≤ most)
            → IsSafe none valid read (after_limit h owned o)
        limit_read r (err x) e possible = tt
        limit_read r (ok limit) e possible =
            release-IsSafe valid read limit owned (possible limit e)
