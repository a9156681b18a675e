-- ===== src/Redis/Receiver/Ownership.antt =====
-- What `complete`, `renew` and `owns` of src/redis_admission.rs do to the writer's keys.
use http_gateway.Prelude.{
  ℕ, ◌+◌, ◌<◌, String, ◌≡◌, refl, sym, ap, ◌∙◌, inl, inr, Bool, true, false, ◌&&◌, Option, none,
  some, str_eq, eq_iff, Bool-cases, ok, bytes_eq, bytes_eq_lem, bytes_eq_self, if◌then◌else◌,
}
use http_gateway.External.Http.{Http}
use http_gateway.External.Redis.{complete, renew, Writer, reply}
use http_gateway.Messages.{AdmissionTicket}
use http_gateway.Admission.{ticket_scope, ticket_token}
use http_gateway.Redis.Acquire.{Provider, slot_key}
use http_gateway.Redis.Execution.{Sent, stored, run_sent}
use http_gateway.Redis.Receiver.{with_texts, read_owner, complete_ticket, renew_ticket, owns}
use http_gateway.Redis.Scripts.{holds_token, run_script}
use http_gateway.Redis.Scripts.Effects.{
  read_transition-complete, read_transition-renew, read-complete, read-renew,
}
use http_gateway.Redis.Utf8.Encoding.{as_bytes, as_bytes-injective}

as_bytes_eq : (a b : String) → bytes_eq (as_bytes a) (as_bytes b) ≡ str_eq a b
as_bytes_eq a b = elim (Bool-cases (str_eq a b)) [
  | inl same ↦ let e : a ≡ b = (eq_iff a b).0 same in rw (same, e) (bytes_eq_self (as_bytes b))
  | inr apart ↦ elim (Bool-cases (bytes_eq (as_bytes a) (as_bytes b))) [
    | inr other ↦ rw (other, apart) refl
    | inl same ↦
        let e : a ≡ b = as_bytes-injective a b (bytes_eq_lem _ _ same) in
        absurd (let bad : true ≡ false = sym ((eq_iff a b).1 e) ∙ apart in cc)
  ]
]

with_texts_eq :
    (o o' : Option String) (scope token : String) (f : String → String → Sent Bool)
    → o ≡ some scope
    → o' ≡ some token
    → with_texts o o' f ≡ some (f scope token)
with_texts_eq o o' scope token f a b = rw (a, b) refl

module _ (H : Http) (W : Writer) (p : Provider) (ticket : AdmissionTicket H) where
  -- Whether the slot of a scope holds the token.
  abbrev pub is_owned : W.Store → ℕ → String → String → Bool
  is_owned s now scope token = holds_token W (W.read s now (slot_key p scope)) token

  owned_stored :
      (o : Option (String × ℕ)) (token : String)
      → read_owner token (reply (stored o)) ≡ ok (holds_token W o token)
  unfolding read_owner
  owned_stored none token = refl
  owned_stored (some (value, end)) token = rw (as_bytes_eq value token) refl

  -- For a ticket whose scope and token are texts, `owns` answers whether the writer holds the slot with the ticket's token, and changes nothing.
  pub owns_lem :
      (s : W.Store) (now : ℕ) (scope token : String)
      → ticket_scope H ticket ≡ some scope
      → ticket_token H ticket ≡ some token
      → (m : Sent Bool) × (owns H p ticket ≡ some m)
        × (run_sent W now m s ≡ some (ok (is_owned s now scope token), s))
  unfolding owns
  owns_lem s now scope token a b = (
    _,
    with_texts_eq _ _ scope token _ a b,
    ap (λ r. some (r, s)) (owned_stored (W.read s now (slot_key p scope)) token),
  )

  -- For a ticket whose scope and token are texts, `complete` answers whether the writer held the slot with the ticket's token; then the slot is free
  -- after it, and every other key, and the slot of another token, are as they were.
  pub complete_ticket_lem :
      (s : W.Store) (now : ℕ) (scope token : String)
      → ticket_scope H ticket ≡ some scope
      → ticket_token H ticket ≡ some token
      → (m : Sent Bool) × (complete_ticket H p ticket ≡ some m)
        × ((s' : W.Store) × (run_sent W now m s ≡ some (ok (is_owned s now scope token), s'))
            × ((k : String)
                → W.read s' now k ≡ (
                    if str_eq (slot_key p scope) k && is_owned s now scope token
                    then none
                    else W.read s now k)))
  unfolding complete_ticket
  complete_ticket_lem s now scope token a b = (
    _,
    with_texts_eq _ _ scope token _ a b,
    (
      _,
      ap (λ r. some (r, (run_script W complete s now (slot_key p scope) token none).1))
          (read_transition-complete W s now (slot_key p scope) token _ none),
      read-complete W s now (slot_key p scope) token none,
    ),
  )

  -- For a ticket whose scope and token are texts, and a positive time to live, `renew` answers whether the writer held the slot with the ticket's token; then it holds it for the
  -- provider's whole time to live from now on. It never creates the slot, and every other key, and the
  -- slot of another token, are as they were.
  pub renew_ticket_lem :
      (s : W.Store) (now : ℕ) (scope token : String)
      → 0 < p.ttl_ms
      → ticket_scope H ticket ≡ some scope
      → ticket_token H ticket ≡ some token
      → (m : Sent Bool) × (renew_ticket H p ticket ≡ some m)
        × ((s' : W.Store) × (run_sent W now m s ≡ some (ok (is_owned s now scope token), s'))
            × ((k : String)
                → W.read s' now k ≡ (
                    if str_eq (slot_key p scope) k && is_owned s now scope token
                    then some (token, now + p.ttl_ms)
                    else W.read s now k)))
  unfolding renew_ticket
  renew_ticket_lem s now scope token positive a b = (
    _,
    with_texts_eq _ _ scope token _ a b,
    (
      _,
      ap (λ r. some (r, (run_script W renew s now (slot_key p scope) token (some p.ttl_ms)).1))
          (read_transition-renew W s now (slot_key p scope) token _ p.ttl_ms),
      (λ k. read-renew W s now (slot_key p scope) token p.ttl_ms k positive),
    ),
  )
