-- ===== src/Redis/Lease/Progress.antt =====
-- A refresh of src/redis_admission/lease.rs that nothing disturbs: a standby takes a slot that is free.
use http_gateway.Prelude.{
  ℕ, zero, suc, ◌+◌, ◌-◌, ◌%◌, ◌≤◌, ◌<◌, String, ◌≡◌, refl, sym, ap, ◌∙◌, ◌⊎◌, inl, inr, Bool, true,
  false, not, ◌&&◌, Option, none, some, Result, ok, err, List, [], ◌∷◌, ◌++◌, arith, All, ltb,
  is_some, ◌==◌, if◌then◌else◌, Bool-cases, Option-cases,
}
use http_gateway.External.Redis.{reply, Writer}
use http_gateway.Admission.{AdmissionError}
use http_gateway.Effects.{ret, call}
use http_gateway.Redis.Execution.{execute, stored}
use http_gateway.Redis.Replies.{read_reserved}
use http_gateway.Redis.Scripts.{run_set}
use http_gateway.Redis.Scripts.Effects.{read_reserved-run_set, read-run_set}
use http_gateway.Redis.Scripts.Ownership.{run_set-granted}
use http_gateway.Redis.Lease.Safety.{scan_order-lt}
use http_gateway.Redis.Lease.{
  clock, draw, clear, publish, set_owned, send, Refresh, Holder, limit_key, gateway_key, read_limit,
  range, scan_order, scan, refresh, after_reserved, after_limit, keep,
}

abbrev pub IsIn : ℕ → List ℕ → Type 0
IsIn n [] = ⊥
IsIn n (x ∷ xs) = (n ≡ x) ⊎ IsIn n xs

IsIn-append : (n : ℕ) (xs ys : List ℕ) → IsIn n xs ⊎ IsIn n ys → IsIn n (xs ++ ys)
IsIn-append n [] ys (inl h) = absurd h
IsIn-append n [] ys (inr h) = h
IsIn-append n (x ∷ xs) ys (inl (inl e)) = inl e
IsIn-append n (x ∷ xs) ys (inl (inr h)) = inr (IsIn-append n xs ys (inl h))
IsIn-append n (x ∷ xs) ys (inr h) = inr (IsIn-append n xs ys (inr h))

range-IsIn : (n first count : ℕ) → first ≤ n → n < first + count → IsIn n (range first count)
unfolding range
range-IsIn n first zero low high = absurd (omega (arith, low, high))
range-IsIn n first (suc count) low high = elim (Bool-cases (n == first)) [
  | inl same ↦ inl (ground arith)
  | inr apart ↦ inr (range-IsIn n (suc first) count (ground arith) (omega (arith, high)))
]

-- A scan visits every slot below the limit, wherever it begins.
scan_order-IsIn : (n first limit : ℕ) → first < limit → n < limit → IsIn n (scan_order first limit)
unfolding scan_order
scan_order-IsIn n first limit a b =
    IsIn-append n (range first (limit - first)) (range 0 first) (elim (Bool-cases (ltb n first)) [
      | inl early ↦ inr (range-IsIn n 0 first (omega arith) (ground arith))
      | inr late ↦ inl (range-IsIn n first (limit - first) (ground arith) (omega (arith, b, a)))
    ])

module _ (W : Writer) (h : Holder) (now random : ℕ) where
  -- The writer's store, the shared deadline, and the slot of the loop.
  pub record Standing : Type 0 where
    pub store : W.Store
    pub valid : Option ℕ
    pub owned : Option ℕ

  -- A refresh with every command executed and answered at once.
  abbrev pub run_lease : Refresh → Standing → Option (Result AdmissionError (Unit {0}) × Standing)
  run_lease (ret r) s = some (r, s)
  run_lease (call clock k) s = run_lease (k now) s
  run_lease (call draw k) s = run_lease (k random) s
  run_lease (call clear k) s = run_lease (k tt) (record s { valid = none })
  run_lease (call (publish deadline) k) s = run_lease (k tt) (record s { valid = some deadline })
  run_lease (call (set_owned slot) k) s = run_lease (k tt) (record s { owned = slot })
  run_lease (call (send c) k) s = elim (execute W now c s.store) [
    | none ↦ none
    | some (v, store) ↦ run_lease (k (reply v)) (record s { store = store })
  ]

  abbrev pub IsFree : W.Store → ℕ → Type 0
  IsFree s slot = W.read s now (gateway_key h slot) ≡ none

  -- The refresh ends well; the gateway is valid for the whole time to live, and owns a slot that the
  -- writer holds with its token for as long.
  abbrev pub Takes : ℕ → Refresh → Standing → Type 0
  Takes limit m s =
      (slot : ℕ) × (store : W.Store) × (slot < limit)
      × (run_lease m s
          ≡ some (
            ok tt,
            record { store = store; valid = some (now + h.lease_ttl); owned = some slot },
          ))
      × (W.read store now (gateway_key h slot) ≡ some (h.token, now + h.lease_ttl))

  -- What the writer answers to the bid for a slot.
  abbrev answer : Standing → ℕ → Result AdmissionError Bool
  answer s n = read_reserved (reply (run_set W s.store now (gateway_key h n) h.token h.lease_ttl).0)

  answer-read :
      (s : Standing) (n : ℕ)
      → 0 < h.lease_ttl
      → answer s n ≡ ok (not (is_some (W.read s.store now (gateway_key h n))))
  answer-read s n positive =
      read_reserved-run_set W s.store now (gateway_key h n) h.token h.lease_ttl positive

  kept :
      (b : Bool) (x o : Option (String × ℕ)) {p : Option (String × ℕ)} (held : String × ℕ)
      → p ≡ some held
      → (if b && not (is_some p) then x else o) ≡ o
  kept true x o held e = rw e refl
  kept false x o held e = refl

  run_lease_taken :
      (rest : Refresh) (o : Result AdmissionError Bool) (s : Standing)
      → o ≡ ok true
      → run_lease (after_reserved h now rest o) s
        ≡ some (ok tt, record s { valid = some (now + h.lease_ttl) })
  run_lease_taken rest (ok true) s e = refl
  run_lease_taken rest (ok false) s e = cc
  run_lease_taken rest (err x) s e = cc

  run_lease_refused :
      (rest : Refresh) (o : Result AdmissionError Bool) (s : Standing)
      → o ≡ ok false
      → run_lease (after_reserved h now rest o) s ≡ run_lease rest (record s { owned = none })
  run_lease_refused rest (ok true) s e = cc
  run_lease_refused rest (ok false) s e = refl
  run_lease_refused rest (err x) s e = cc

  run_lease_if :
      (b : Bool) (x y : Refresh) (s : Standing)
      → b ≡ false
      → run_lease (if b then x else y) s ≡ run_lease y s
  run_lease_if true x y s e = cc
  run_lease_if false x y s e = refl

  run_lease_limited :
      (limit : ℕ) (o : Result AdmissionError ℕ) (s : Standing)
      → o ≡ ok limit
      → 0 < limit
      → run_lease (after_limit h none o) s
        ≡ run_lease (scan h (scan_order (random % limit) limit)) s
  run_lease_limited limit (err x) s e some_left = cc
  run_lease_limited limit (ok n) s e some_left =
      let same : n ≡ limit = ground (arith, e) in
      run_lease_if (n == 0) (call clear (λ _. ret (ok tt))) (keep h n none) s (ground arith)
      ∙ ap (λ m. run_lease (scan h (scan_order (random % m) m)) s) same

  module _ (positive : 0 < h.lease_ttl) (limit : ℕ) where
    scan-Takes :
        (slots : List ℕ) (s : Standing) (slot : ℕ)
        → All (λ n. n < limit) slots
        → IsIn slot slots
        → IsFree s.store slot
        → Takes limit (scan h slots) s
    unfolding scan
    scan-Takes [] s slot below is_in free = absurd is_in
    scan-Takes (n ∷ slots) s slot below is_in free =
        elim (Option-cases (W.read s.store now (gateway_key h n))) [
          | inl absent ↦
              let granted : answer s n ≡ ok true =
                answer-read s n positive
                ∙ ap (λ (o : Option (String × ℕ)). ok (not (is_some o))) absent in
              (
                n,
                (run_set W s.store now (gateway_key h n) h.token h.lease_ttl).1,
                below.0,
                run_lease_taken (scan h slots) (answer s n) _ granted,
                (run_set-granted W s.store now (gateway_key h n) h.token h.lease_ttl positive
                    granted).1,
              )
          | inr (held, at) ↦
              let refused : answer s n ≡ ok false =
                answer-read s n positive
                ∙ ap (λ (o : Option (String × ℕ)). ok (not (is_some o))) at in
              let later : IsIn slot slots = elim is_in [
                | inl same ↦ absurd (
                    let bad : none ≡ some held =
                      sym free ∙ ap (λ m. W.read s.store now (gateway_key h m)) same ∙ at in
                    cc)
                | inr rest ↦ rest
              ] in
              let free' : IsFree (run_set W s.store now (gateway_key h n) h.token h.lease_ttl).1
                  slot =
                read-run_set W s.store now (gateway_key h n) h.token h.lease_ttl
                  (gateway_key h slot) positive
                ∙ kept _ (some (h.token, now + h.lease_ttl))
                    (W.read s.store now (gateway_key h slot)) held at
                ∙ free in
              let (taken, store, small, done, holds) =
                scan-Takes slots
                  (record {
                    store = (run_set W s.store now (gateway_key h n) h.token h.lease_ttl).1;
                    valid = s.valid;
                    owned = none;
                  })
                  slot below.1 later free' in
              (
                taken,
                store,
                small,
                run_lease_refused (scan h slots) (answer s n) _ refused ∙ done,
                holds,
              )
        ]

    -- A standby that nothing disturbs takes a slot: where the writer has a limit and some slot below it is
    -- free, the refresh ends well; then the gateway is valid for the whole time to live, which is positive,
    -- and owns a slot below the limit, which the writer holds with its token for as long.
    pub refresh-Takes :
        (s : Standing) (slot : ℕ)
        → read_limit (reply (stored (W.read s.store now (limit_key h)))) ≡ ok limit
        → slot < limit
        → IsFree s.store slot
        → Takes limit (refresh h none) s
    unfolding refresh
    refresh-Takes s slot at below free =
        let first_small : random % limit < limit = grind arith in
        let (taken, store, small, done, holds) =
          scan-Takes (scan_order (random % limit) limit) s slot
            (scan_order-lt h limit (random % limit) limit first_small (omega arith))
            (scan_order-IsIn slot (random % limit) limit first_small below) free in
        (taken, store, small, run_lease_limited limit _ s at (omega (arith, below)) ∙ done, holds)
