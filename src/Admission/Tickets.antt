-- ===== src/Admission/Tickets.antt =====
-- Tickets of src/admission.rs: what `new` accepts, and their way through request headers.
use http_gateway.Prelude.{
  String, ◌≡◌, refl, sym, ◌∙◌, ◌≢◌, ◌⊎◌, inl, inr, true, false, Option, none, some, Result, ok, err,
  List, [], ◌∷◌, arith, str_eq, is_empty_str, trim, is_ascii, Option-cases, Result-cases,
}
use http_gateway.External.Http.{Http}
use http_gateway.Messages.{AdmissionTicket, Request}
use http_gateway.Admission.{
  admission_scope_header, admission_token_header, AdmissionError, invalid_ticket, new_ticket,
  ticket_scope, ticket_token, from_headers, ticket_of_values, attach,
}

module _ (H : Http) where
  open H use {get_all, value_from_str, value_to_str}

  -- What `new` checks before it builds the two header values.
  abbrev pub IsTicketText : String → Type 0
  IsTicketText s = (is_empty_str (trim s) ≡ false) × (is_ascii s ≡ true)

  pub record IsTicketOf (s t : String) (k : AdmissionTicket H) : Type 0 where
    pub scope_text : IsTicketText s
    pub token_text : IsTicketText t
    pub scope_value : value_from_str s ≡ some k.scope
    pub token_value : value_from_str t ≡ some k.token
    pub no_origin : k.origin ≡ none

  pub new_ticket-IsTicketOf :
      (s t : String) (k : AdmissionTicket H) → new_ticket H s t ≡ ok k → IsTicketOf s t k
  unfolding new_ticket
  new_ticket-IsTicketOf s t k e = ground arith

  pub new_ticket_of_IsTicketOf :
      (s t : String) (k : AdmissionTicket H) → IsTicketOf s t k → new_ticket H s t ≡ ok k
  unfolding new_ticket
  new_ticket_of_IsTicketOf s t k v = ground arith

  pub ticket_scope-new_ticket :
      (s t : String) (k : AdmissionTicket H)
      → new_ticket H s t ≡ ok k
      → (ticket_scope H k ≡ some s) × (ticket_token H k ≡ some t)
  ticket_scope-new_ticket s t k e =
      let v = new_ticket-IsTicketOf s t k e in
      (
        H.value_to_str-value_from_str s k.scope v.scope_value v.scope_text.1,
        H.value_to_str-value_from_str t k.token v.token_value v.token_text.1,
      )

  pub get_all-attach_scope :
      (k : AdmissionTicket H) (r : Request H)
      → get_all (attach H k r).headers admission_scope_header ≡ k.scope ∷ []
  unfolding attach
  get_all-attach_scope k r = rw (H.get_all-insert, H.get_all-insert) refl

  pub get_all-attach_token :
      (k : AdmissionTicket H) (r : Request H)
      → get_all (attach H k r).headers admission_token_header ≡ k.token ∷ []
  unfolding attach
  get_all-attach_token k r = rw (H.get_all-insert) refl

  pub get_all-attach_ne :
      (k : AdmissionTicket H) (r : Request H) (n : String)
      → str_eq admission_scope_header n ≡ false
      → str_eq admission_token_header n ≡ false
      → get_all (attach H k r).headers n ≡ get_all r.headers n
  unfolding attach
  get_all-attach_ne k r n a b = rw (H.get_all-insert, b, H.get_all-insert, a) refl

  ticket_of_values_lem :
      (s t : String) (k : AdmissionTicket H) (v w : H.HeaderValue)
      → new_ticket H s t ≡ ok k
      → value_to_str v ≡ some s
      → value_to_str w ≡ some t
      → ticket_of_values H (v ∷ []) (w ∷ []) ≡ ok (some k)
  unfolding ticket_of_values
  ticket_of_values_lem s t k v w e a b = rw (a, b, e) refl

  -- A ticket that `new` made, whatever origin it was given since, is read back from the headers
  -- of every request that it was attached to, without the origin; `scope()` and `token()` of it
  -- do not panic, and give the texts it was made from.
  pub from_headers-attach :
      (s t : String) (k k' : AdmissionTicket H) (r : Request H)
      → new_ticket H s t ≡ ok k
      → k'.scope ≡ k.scope
      → k'.token ≡ k.token
      → (from_headers H (attach H k' r).headers ≡ ok (some k))
        × (ticket_scope H k' ≡ some s)
        × (ticket_token H k' ≡ some t)
  unfolding from_headers
  from_headers-attach s t k k' r e es et =
      let (a, b) = ticket_scope-new_ticket s t k e in
      let a' : ticket_scope H k' ≡ some s = rw es a in
      let b' : ticket_token H k' ≡ some t = rw et b in
      (
        rw (from_headers, get_all-attach_scope k' r, get_all-attach_token k' r)
            (ticket_of_values_lem s t k k'.scope k'.token e a' b'),
        a',
        b',
      )

  -- What `from_headers` answers on the values of the two headers.
  abbrev pub Reads :
      List H.HeaderValue
      → List H.HeaderValue
      → Result AdmissionError (Option (AdmissionTicket H))
      → Type 0
  Reads scopes tokens r =
      ((scopes ≡ []) × (tokens ≡ []) × (r ≡ ok none))
      ⊎ ((k : AdmissionTicket H) × (v w : H.HeaderValue) × (scopes ≡ v ∷ [])
          × (tokens ≡ w ∷ [])
          × (r ≡ ok (some k))
          × (ticket_scope H k ≡ value_to_str v)
          × (ticket_token H k ≡ value_to_str w))
      ⊎ (((scopes ≢ []) ⊎ (tokens ≢ [])) × (r ≡ err invalid_ticket))

  new_ticket_error :
      (s t : String) (e : AdmissionError) → new_ticket H s t ≡ err e → e ≡ invalid_ticket
  unfolding new_ticket
  new_ticket_error s t e h = ground arith

  single-Reads :
      (v w : H.HeaderValue) → Reads (v ∷ []) (w ∷ []) (ticket_of_values H (v ∷ []) (w ∷ []))
  unfolding ticket_of_values
  single-Reads v w = elim (Option-cases (value_to_str v)) [
    | inl bad ↦ inr (inr (inl (λ e. cc), rw bad refl))
    | inr (s, a) ↦ elim (Option-cases (value_to_str w)) [
      | inl bad ↦ inr (inr (inl (λ e. cc), rw (a, bad) refl))
      | inr (t, b) ↦ elim (Result-cases (new_ticket H s t)) [
        | inl (k, e) ↦
            let (c, d) = ticket_scope-new_ticket s t k e in
            inr (inl (k, v, w, refl, refl, rw (a, b, e) refl, c ∙ sym a, d ∙ sym b))
        | inr (x, e) ↦ inr (inr (inl (λ e'. cc), rw (a, b, e, new_ticket_error s t x e) refl))
      ]
    ]
  ]

  ticket_of_values-Reads :
      (scopes tokens : List H.HeaderValue) → Reads scopes tokens (ticket_of_values H scopes tokens)
  unfolding ticket_of_values
  ticket_of_values-Reads [] [] = inl (refl, refl, refl)
  ticket_of_values-Reads (v ∷ []) (w ∷ []) = single-Reads v w
  ticket_of_values-Reads (v ∷ []) [] = inr (inr (inl (λ e. cc), refl))
  ticket_of_values-Reads (v ∷ []) (w ∷ x ∷ ws) = inr (inr (inl (λ e. cc), ground arith))
  ticket_of_values-Reads (v ∷ u ∷ vs) [] = inr (inr (inl (λ e. cc), refl))
  ticket_of_values-Reads (v ∷ u ∷ vs) (w ∷ ws) = inr (inr (inl (λ e. cc), ground arith))
  ticket_of_values-Reads [] (w ∷ ws) = inr (inr (inr (λ e. cc), refl))

  -- `from_headers` finds no ticket where neither header occurs, reads one only where each of the
  -- two occurs exactly once, with the scope and the token that they hold, and in every other case,
  -- so also on a repeated header, fails with `InvalidTicket`.
  pub from_headers-Reads :
      (h : H.Headers)
      → Reads
          (get_all h admission_scope_header)
          (get_all h admission_token_header)
          (from_headers H h)
  unfolding from_headers
  from_headers-Reads h = ticket_of_values-Reads _ _
