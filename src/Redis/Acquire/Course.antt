-- ===== src/Redis/Acquire/Course.antt =====
-- What an acquisition of src/redis_admission.rs asks the writer for, in which order, and what it
-- makes of the replies.
use http_gateway.Prelude.{
  ℕ, String, ◌≤◌, ◌<◌, ◌≡◌, refl, sym, subst, ap, ◌∙◌, ◌≢◌, leb→le, inl, inr, Bool, true, false,
  Option, none, some, Result, ok, err, [], ◌∷◌, ◌++◌, arith, leb, str_eq, eq_iff, All, Bool-cases,
}
use mathlib.Core.List.{append-nil}
use http_gateway.External.Http.{Http}
use http_gateway.External.Router.{Router}
use http_gateway.External.Json.{Json}
use http_gateway.External.Redis.{get, hget, Reply}
use http_gateway.Admission.{AdmissionError, busy, no_recorder, not_participant, quota_exhausted}
use http_gateway.Redis.Acquire.Slot.{Log, Slot, take_slot-Slot}
use http_gateway.Effects.{Always, After, Always-After, Always->>=, Always-mono}
use http_gateway.Redis.Discovery.{LookupUnavailable, cooling_down, in_progress}
use http_gateway.Redis.Policy.{invalid}
use http_gateway.Redis.Acquire.{
  Provider, Quota, slot_key, read_count, Ask, participating, look_up, close, send, Outcome,
  read_origin, take_slot, within, after_lookup, held, guarded, acquire_by, acquire,
}

module _ (H : Http) (R : Router) (J : Json) (p : Provider) (scope : String) where
  -- The reads before a reservation: the recorder's address and, by the quota, a count that is below
  -- the limit.
  abbrev pub Checked : Option Quota → H.Uri → Log H R J p scope → Type 0
  Checked none u log =
      (r : Reply) × (read_origin H R J r ≡ ok (some u))
      × (log ≡ (send (get p.recorder_url_key), r) ∷ [])
  Checked (some (name, limit)) u log =
      (r : Reply) × (c : Reply) × (n : ℕ) × (read_origin H R J r ≡ ok (some u))
      × (read_count c ≡ ok n)
      × (n < limit)
      × (log ≡ (send (get p.recorder_url_key), r) ∷ (send (hget p.counts_key name), c) ∷ [])

  abbrev pub IsRead : Ask H R J → Type 0
  IsRead (send (get key)) = key ≡ p.recorder_url_key
  IsRead (send (hget key name)) = key ≡ p.counts_key
  IsRead _ = ⊥

  -- What happens under the guard, with the flag that its drop gets.
  pub data Held (quota : Option Quota) (log : Log H R J p scope) (d : Bool × Outcome H R J)
      : Type 0 where
    tried :
        (u : H.Uri) (reads rest : Log H R J p scope)
        → Checked quota u reads
        → Slot H R J p scope quota u rest d
        → log ≡ reads ++ rest
        → Held quota log d
    exhausted :
        (name : String) (limit n : ℕ) (r c : Reply)
        → quota ≡ some (name, limit)
        → read_count c ≡ ok n
        → limit ≤ n
        → log ≡ (send (get p.recorder_url_key), r) ∷ (send (hget p.counts_key name), c) ∷ []
        → d ≡ (true, ok quota_exhausted)
        → Held quota log d
    absent :
        (r : Reply)
        → read_origin H R J r ≡ ok none
        → log ≡ (send (get p.recorder_url_key), r) ∷ []
        → d ≡ (false, ok no_recorder)
        → Held quota log d
    unread :
        (e : AdmissionError) → All (λ ev. IsRead ev.0) log → d ≡ (false, err e) → Held quota log d

  slot_after :
      (quota : Option Quota) (u : H.Uri) (reads : Log H R J p scope)
      → Checked quota u reads
      → Always (Held quota) reads (take_slot H R J p scope quota u)
  slot_after quota u reads c =
      let Q : Log H R J p scope → Bool × Outcome H R J → Type 0 = Slot H R J p scope quota u in
      let lifted : Always (After reads Q) (reads ++ []) (take_slot H R J p scope quota u) =
        Always-After reads [] Q (take_slot H R J p scope quota u)
          (take_slot-Slot H R J p scope quota u) in
      Always-mono (After reads Q) (Held quota) reads (take_slot H R J p scope quota u)
        (λ log d s. tried u reads s.0 c s.2 s.1)
        (subst (λ l. Always (After reads Q) l (take_slot H R J p scope quota u)) (append-nil reads)
          lifted)

  within-Held :
      (name : String) (limit : ℕ) (u : H.Uri) (r c : Reply) (o : Result AdmissionError ℕ)
      → read_origin H R J r ≡ ok (some u)
      → read_count c ≡ o
      → Always
          (Held (some (name, limit)))
          ((send (get p.recorder_url_key), r) ∷ (send (hget p.counts_key name), c) ∷ [])
          (within H R J p scope (name, limit) u o)
  within-Held name limit u r c (err e) read bad = unread e (refl, (refl, tt)) refl
  within-Held name limit u r c (ok n) read count = elim (Bool-cases (leb limit n)) [
    | inl full ↦
        rw (full, within) (exhausted name limit n r c refl count (leb→le limit n full) refl refl)
    | inr room ↦
        rw (room, within)
          (slot_after (some (name, limit)) u _ (r, c, n, read, count, ground arith, refl))
  ]

  after_lookup-Held :
      (quota : Option Quota) (r : Reply) (o : Result AdmissionError (Option H.Uri))
      → read_origin H R J r ≡ o
      → Always
          (Held quota)
          ((send (get p.recorder_url_key), r) ∷ [])
          (after_lookup H R J p scope quota o)
  after_lookup-Held quota r (err e) bad = unread e (refl, tt) refl
  after_lookup-Held quota r (ok none) gone = absent r gone refl refl
  after_lookup-Held none r (ok (some u)) read = slot_after none u _ (r, read, refl)
  after_lookup-Held (some (name, limit)) r (ok (some u)) read =
      λ c. within-Held name limit u r c _ read refl

  held-Held : (quota : Option Quota) → Always (Held quota) [] (held H R J p scope quota)
  unfolding held
  held-Held quota = λ r. after_lookup-Held quota r _ refl

  -- The course of an acquisition: no command at all without participation, with keys that conflict
  -- and without the guard; under the guard one course of `Held`, and then the guard is dropped once.
  pub data Course (quota : Option Quota) (log : Log H R J p scope) (o : Outcome H R J)
      : Type 0 where
    apart : log ≡ (participating, false) ∷ [] → o ≡ ok not_participant → Course quota log o
    conflict :
        log ≡ (participating, true) ∷ []
        → slot_key p scope ≡ p.recorder_url_key
        → o ≡ err (invalid "recorder URL key conflicts with slot key")
        → Course quota log o
    cooling :
        log ≡ (participating, true) ∷ (look_up, err cooling_down) ∷ []
        → o ≡ ok no_recorder
        → Course quota log o
    checking :
        log ≡ (participating, true) ∷ (look_up, err in_progress) ∷ []
        → o ≡ ok busy
        → Course quota log o
    looked :
        (inner : Log H R J p scope) (available : Bool)
        → slot_key p scope ≢ p.recorder_url_key
        → Held quota inner (available, o)
        → log ≡ (participating, true) ∷ (look_up, ok tt) ∷ inner ++ (close available, tt) ∷ []
        → Course quota log o

  guarded-Course :
      (quota : Option Quota) (found : Result LookupUnavailable (Unit {0}))
      → slot_key p scope ≢ p.recorder_url_key
      → Always
          (Course quota)
          ((participating, true) ∷ (look_up, found) ∷ [])
          (guarded H R J p scope quota found)
  guarded-Course quota (err cooling_down) apart_keys = cooling refl refl
  guarded-Course quota (err in_progress) apart_keys = checking refl refl
  guarded-Course quota (ok u) apart_keys =
      let base : Log H R J p scope = (participating, true) ∷ (look_up, ok tt) ∷ [] in
      Always->>= (After base (Held quota)) (Course quota) base (held H R J p scope quota) _
        (Always-After base [] (Held quota) (held H R J p scope quota) (held-Held quota))
        (λ log d s.
          λ closed. looked s.0 d.0 apart_keys s.2 (ap (λ l. l ++ (close d.0, tt) ∷ []) s.1))

  not_same :
      slot_key p scope ≡ p.recorder_url_key
      → str_eq (slot_key p scope) p.recorder_url_key ≡ false
      → ⊥
  not_same same other = let bad : false ≡ true = sym other ∙ (eq_iff _ _).1 same in cc

  acquire_by-Course :
      (quota : Option Quota) (joined : Bool)
      → Always (Course quota) ((participating, joined) ∷ []) (acquire_by H R J p scope quota joined)
  acquire_by-Course quota false = apart refl refl
  acquire_by-Course quota true = elim (Bool-cases (str_eq (slot_key p scope) p.recorder_url_key)) [
    | inl same ↦ rw (same, acquire_by) (conflict refl ((eq_iff _ _).0 same) refl)
    | inr other ↦
        rw (other, acquire_by) (λ found. guarded-Course quota found (λ same. not_same same other))
  ]

  -- Whatever is answered, an acquisition goes one of the ways of `Course`. A ticket is given only for
  -- a slot that the writer reserved for it, to an origin that was read, with a quota only below the
  -- limit and after the count went up, and while the gateway still participates; the count goes up
  -- only after the reservation; the guard is dropped exactly once, and as available exactly for a
  -- ticket, a taken slot and an exhausted quota.
  pub acquire-Course :
      (quota : Option Quota) → Always (Course quota) [] (acquire H R J p scope quota)
  unfolding acquire
  acquire-Course quota = λ joined. acquire_by-Course quota joined
