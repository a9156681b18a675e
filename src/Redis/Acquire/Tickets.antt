-- ===== src/Redis/Acquire/Tickets.antt =====
-- The tickets that the Redis provider of src/redis_admission.rs gives out.
use http_gateway.Prelude.{
  ℕ, String, ◌≡◌, ap, ◌∙◌, subst, Bool, true, Option, some, ok, [], arith, is_some,
}
use http_gateway.Prelude.Results.{>>=-eq-ok}
use http_gateway.External.Http.{Http}
use http_gateway.External.Router.{Router}
use http_gateway.External.Json.{Json}
use http_gateway.Messages.{AdmissionTicket}
use http_gateway.Admission.{acquired, with_origin, ticket_scope, ticket_token}
use http_gateway.Admission.Tickets.{ticket_scope-new_ticket}
use http_gateway.Effects.{Always, Always-mono}
use http_gateway.Redis.Acquire.{Provider, Quota, Outcome, token_of, acquire, slot_ticket}
use http_gateway.Redis.Acquire.Slot.{Log, Slot, granted, taken, unbuilt, refused, lost}
use http_gateway.Redis.Acquire.Course.{
  Held, tried, exhausted, absent, unread, Course, apart, conflict, cooling, checking, looked,
  acquire-Course,
}

module _ (H : Http) (R : Router) (J : Json) (p : Provider) (scope : String) where
  with_origin-eq :
      (k t : AdmissionTicket H) (u : H.Uri)
      → with_origin H k u ≡ ok t
      → (t.scope ≡ k.scope)
        × (t.token ≡ k.token)
        × (t.origin ≡ some u)
        × (is_some (H.uri_authority u) ≡ true)
  unfolding with_origin
  with_origin-eq k t u e = ground arith

  -- The ticket is for the scope, and leads to an origin with an address.
  pub record IsOffered (t : AdmissionTicket H) : Type 0 where
    pub scope_text : ticket_scope H t ≡ some scope
    pub random : ℕ × ℕ
    pub token_text : ticket_token H t ≡ some (token_of random)
    pub origin : H.Uri
    pub leads_to : t.origin ≡ some origin
    pub has_address : is_some (H.uri_authority origin) ≡ true

  -- The ticket carries the token of the numbers that were drawn.
  pub ticket_token-slot_ticket :
      (u : H.Uri) (random : ℕ × ℕ) (t : AdmissionTicket H)
      → slot_ticket H R J scope u random ≡ ok t
      → ticket_token H t ≡ some (token_of random)
  ticket_token-slot_ticket u random t e =
      let (k, made, given) = >>=-eq-ok _ _ e in
      let (same_scope, same_token, leads, address) = with_origin-eq k t u given in
      ap H.value_to_str same_token ∙ (ticket_scope-new_ticket H scope (token_of random) k made).1

  slot_ticket-IsOffered :
      (u : H.Uri) (random : ℕ × ℕ) (t : AdmissionTicket H)
      → slot_ticket H R J scope u random ≡ ok t
      → IsOffered t
  slot_ticket-IsOffered u random t e =
      let (k, made, given) = >>=-eq-ok _ _ e in
      let (same_scope, same_token, leads, address) = with_origin-eq k t u given in
      let texts = ticket_scope-new_ticket H scope (token_of random) k made in
      record {
        scope_text = ap H.value_to_str same_scope ∙ texts.0;
        random = random;
        token_text = ticket_token-slot_ticket u random t e;
        origin = u;
        leads_to = leads;
        has_address = address;
      }

  abbrev Offers : Outcome H R J → Type 0
  Offers o = (t : AdmissionTicket H) → o ≡ ok (acquired t) → IsOffered t

  Slot-Offers :
      (quota : Option Quota) (u : H.Uri) (log : Log H R J p scope) (available : Bool)
      (o : Outcome H R J)
      → Slot H R J p scope quota u log (available, o)
      → Offers o
  Slot-Offers quota u log available o (granted random ticket r rest made free c e d) t q =
      let same : ticket ≡ t = cc in
      subst IsOffered same (slot_ticket-IsOffered u random ticket made)
  Slot-Offers quota u log available o (taken random r full e d) t q = cc
  Slot-Offers quota u log available o (unbuilt random x bad e d) t q = cc
  Slot-Offers quota u log available o (refused random r x bad e d) t q = cc
  Slot-Offers quota u log available o (lost random r x rest free steps e d) t q = cc

  Held-Offers :
      (quota : Option Quota) (log : Log H R J p scope) (available : Bool) (o : Outcome H R J)
      → Held H R J p scope quota log (available, o)
      → Offers o
  Held-Offers quota log available o (tried u reads rest c s e) t q =
      Slot-Offers quota u rest available o s t q
  Held-Offers quota log available o (exhausted name limit n r c a b h e d) t q = cc
  Held-Offers quota log available o (absent r gone e d) t q = cc
  Held-Offers quota log available o (unread x reads d) t q = cc

  Course-Offers :
      (quota : Option Quota) (log : Log H R J p scope) (o : Outcome H R J)
      → Course H R J p scope quota log o
      → Offers o
  Course-Offers quota log o (apart e d) t q = cc
  Course-Offers quota log o (conflict e k d) t q = cc
  Course-Offers quota log o (cooling e d) t q = cc
  Course-Offers quota log o (checking e d) t q = cc
  Course-Offers quota log o (looked inner available k h e) t q =
      Held-Offers quota inner available o h t q

  -- Whatever is answered, a ticket that an acquisition gives has the scope that was asked for, a token
  -- of two drawn numbers, and an origin with an address.
  acquire-Offers :
      (quota : Option Quota) → Always (λ log o. Offers o) [] (acquire H R J p scope quota)
  acquire-Offers quota =
      Always-mono (Course H R J p scope quota) (λ log o. Offers o) [] (acquire H R J p scope quota)
        (λ log o c. Course-Offers quota log o c) (acquire-Course H R J p scope quota)
