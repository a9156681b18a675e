-- ===== src/Redis/Acquire/Taking.antt =====
-- An acquisition of src/redis_admission.rs that nothing disturbs, with the guard of
-- src/redis_admission/discovery.rs: every command is executed and answered at once.
use http_gateway.Prelude.{
  ℕ, ◌+◌, ◌<◌, String, ◌≡◌, ◌≢◌, refl, ap, subst, ◌∙◌, inl, inr, Bool, true, false, not, Option,
  none, some, Result, ok, err, arith, is_some, str_eq, eq_iff, if◌then◌else◌, Bool-cases,
}
use http_gateway.External.Http.{Http}
use http_gateway.External.Router.{Router}
use http_gateway.External.Json.{Json}
use http_gateway.External.Redis.{reply, Writer}
use http_gateway.Messages.{AdmissionTicket}
use http_gateway.Admission.{AdmissionError, AcquireOutcome, acquired, busy}
use http_gateway.Effects.{Prog, ret, call, ◌>>=◌}
use http_gateway.Redis.Discovery.{LookupUnavailable, RecorderDiscovery, try_lookup, drop_lookup}
use http_gateway.Redis.Execution.{execute, stored}
use http_gateway.Redis.Policy.{CompiledPolicy}
use http_gateway.Redis.Scripts.{run_set}
use http_gateway.Redis.Scripts.Effects.{read_reserved-run_set, read-run_set}
use http_gateway.Redis.Acquire.{
  Provider, slot_key, token_of, Told, participating, look_up, snapshot, draw, close, send, Outcome,
  read_origin, after_reserve, slot_ticket, reserve, take_slot, after_lookup, held, guarded,
  acquire_by, acquire, try_acquire,
}

-- The writer's keys, and the guard.
pub record Standing (W : Writer) : Type 0 where
  pub store : W.Store
  pub discovery : RecorderDiscovery

-- A ticket for a free slot, busy for one that is taken.
abbrev pub won : {H : Http} → AdmissionTicket H → Bool → AcquireOutcome H
won t true = acquired t
won t false = busy

abbrev pub is_free : (W : Writer) → Provider → (now : ℕ) (scope : String) → W.Store → Bool
is_free W p now scope s = not (is_some (W.read s now (slot_key p scope)))

module _ (H : Http) (R : Router) (J : Json) (W : Writer) (p : Provider) (now : ℕ) (random : ℕ × ℕ)
    (policy : Option (CompiledPolicy H R)) where
  -- What `try_lookup` gives, with the guard after it.
  abbrev look :
      RecorderDiscovery
      → Result LookupUnavailable RecorderDiscovery
      → Result LookupUnavailable (Unit {0}) × RecorderDiscovery
  look d (ok d') = (ok tt, d')
  look d (err e) = (err e, d)

  abbrev pub run_ask : {A : Type 0} → Prog (Told H R J) A → Standing W → Option (A × Standing W)
  run_ask (ret a) s = some (a, s)
  run_ask (call participating k) s = run_ask (k true) s
  run_ask (call look_up k) s =
      let found = look s.discovery (try_lookup now s.discovery) in
      run_ask (k found.0) (record s { discovery = found.1 })
  run_ask (call snapshot k) s = run_ask (k policy) s
  run_ask (call draw k) s = run_ask (k random) s
  run_ask (call (close available) k) s =
      run_ask (k tt) (record s { discovery = drop_lookup now available s.discovery })
  run_ask (call (send c) k) s = elim (execute W now c s.store) [
    | none ↦ none
    | some (v, store) ↦ run_ask (k (reply v)) (record s { store = store })
  ]

  module _ (scope : String) (u : H.Uri) (t : AdmissionTicket H)
      (made : slot_ticket H R J scope u random ≡ ok t) (positive : 0 < p.ttl_ms) where
    -- What follows the part under the guard.
    abbrev release : Bool × Outcome H R J → Prog (Told H R J) (Outcome H R J)
    release d = call (close d.0) (λ _. ret d.1)

    abbrev after_set : W.Store → W.Store
    after_set s = (run_set W s now (slot_key p scope) (token_of random) p.ttl_ms).1

    -- It ends with the outcome for the slot, and the guard is dropped as available.
    abbrev Ended : Prog (Told H R J) (Outcome H R J) → Standing W → Bool → W.Store → Type 0
    Ended m s b store =
        run_ask m s
        ≡ some
            (ok (won t b), record { store = store; discovery = drop_lookup now true s.discovery })

    after_reserve-Ended :
        (s : Standing W) (b : Bool) (o : Result AdmissionError Bool)
        → o ≡ ok b
        → Ended (after_reserve H R J p none t o >>= release) s b s.store
    after_reserve-Ended s true (ok true) e = refl
    after_reserve-Ended s false (ok false) e = refl
    after_reserve-Ended s true (ok false) e = cc
    after_reserve-Ended s false (ok true) e = cc
    after_reserve-Ended s b (err x) e = cc

    reserve-Ended :
        (s : Standing W) (o : Result AdmissionError (AdmissionTicket H))
        → o ≡ ok t
        → Ended
            (reserve H R J p scope none random o >>= release)
            s
            (is_free W p now scope s.store)
            (after_set s.store)
    reserve-Ended s (err x) e = cc
    reserve-Ended s (ok ticket) e =
        let same : t ≡ ticket = cc in
        subst
          (λ x.
            Ended (reserve H R J p scope none random (ok x) >>= release) s
              (is_free W p now scope s.store) (after_set s.store))
          same
          (after_reserve-Ended (record s { store = after_set s.store })
            (is_free W p now scope s.store) _
            (read_reserved-run_set W s.store now (slot_key p scope) (token_of random) p.ttl_ms
              positive))

    after_lookup-Ended :
        (s : Standing W) (o : Result AdmissionError (Option H.Uri))
        → o ≡ ok (some u)
        → Ended
            (after_lookup H R J p scope none o >>= release)
            s
            (is_free W p now scope s.store)
            (after_set s.store)
    unfolding take_slot
    after_lookup-Ended s (err x) e = cc
    after_lookup-Ended s (ok none) e = cc
    after_lookup-Ended s (ok (some v)) e =
        let same : u ≡ v = cc in
        subst
          (λ x.
            Ended (after_lookup H R J p scope none (ok (some x)) >>= release) s
              (is_free W p now scope s.store) (after_set s.store))
          same (reserve-Ended s _ made)

    found_guard :
        (s : Standing W) (d : RecorderDiscovery)
        → read_origin H R J (reply (stored (W.read s.store now p.recorder_url_key))) ≡ ok (some u)
        → (f : Result LookupUnavailable RecorderDiscovery) → f ≡ ok d
        → run_ask
            (guarded H R J p scope none (look s.discovery f).0)
            (record s { discovery = (look s.discovery f).1 })
          ≡ some (
            ok (won t (is_free W p now scope s.store)),
            record { store = after_set s.store; discovery = drop_lookup now true d },
          )
    unfolding held
    found_guard s d read (err x) e = cc
    found_guard s d read (ok d') e =
        let same : d ≡ d' = cc in
        subst
          (λ x.
            run_ask (guarded H R J p scope none (ok tt)) (record s { discovery = x })
            ≡ some (
              ok (won t (is_free W p now scope s.store)),
              record { store = after_set s.store; discovery = drop_lookup now true d },
            ))
          same (after_lookup-Ended (record s { discovery = d }) _ read)

    -- With the guard free, a recorder's address published, and a ticket that can be built for it, an
    -- acquisition that participates and that nothing disturbs ends: with the ticket, whose token then holds
    -- the slot for the whole time to live, where the slot is free; busy, and with the slot as it was, where it
    -- is taken. Either way nothing checks afterwards and no cooldown runs, so the guard is free again at once.
    pub try_acquire-Ends :
        (s : Standing W) (d : RecorderDiscovery)
        → try_lookup now s.discovery ≡ ok d
        → slot_key p scope ≢ p.recorder_url_key
        → read_origin H R J (reply (stored (W.read s.store now p.recorder_url_key))) ≡ ok (some u)
        → (store : W.Store) × (run_ask (try_acquire H R J p scope) s
            ≡ some (
              ok (won t (is_free W p now scope s.store)),
              record { store = store; discovery = record { retry_after = none; checking = false } },
            ))
          × (W.read store now (slot_key p scope) ≡ (
              if is_free W p now scope s.store
              then some (token_of random, now + p.ttl_ms)
              else W.read s.store now (slot_key p scope)))
    unfolding try_acquire acquire drop_lookup
    try_acquire-Ends s d free apart read =
        let other : str_eq (slot_key p scope) p.recorder_url_key ≡ false =
          elim (Bool-cases (str_eq (slot_key p scope) p.recorder_url_key)) [
            | inl same ↦ absurd (apart ((eq_iff _ _).0 same))
            | inr ne ↦ ne
          ] in
        let looks : acquire_by H R J p scope none true ≡ call look_up (guarded H R J p scope none) =
          rw (other, acquire_by) refl in
        let self : str_eq (slot_key p scope) (slot_key p scope) ≡ true = (eq_iff _ _).1 refl in
        (
          after_set s.store,
          ap (λ m. run_ask m s) looks ∙ found_guard s d read (try_lookup now s.discovery) free,
          ground (
            arith,
            read-run_set W s.store now (slot_key p scope) (token_of random) p.ttl_ms
                (slot_key p scope) positive,
            self,
          ),
        )
