-- ===== src/Proxy/Forward/Prepared.antt =====
-- The request that src/proxy.rs prepares for an origin.
use http_gateway.Prelude.{
  String, ◌≡◌, refl, subst, ◌∙◌, inl, inr, Bool, true, false, ◌||◌, Option, none, some, ok, List,
  [], ◌∷◌, arith, str_eq, if◌then◌else◌, Result-cases,
}
use mathlib.Core.Option.{some-injective}
use http_gateway.External.Http.{Http, get, or_insert}
use http_gateway.Messages.{AdmissionTicket, FallbackProxy, Request}
use http_gateway.Admission.{attach, admission_scope_header, admission_token_header}
use http_gateway.Admission.Tickets.{get_all-attach_scope, get_all-attach_token, get_all-attach_ne}
use http_gateway.Proxy.Headers.{
  host_header, x_forwarded_host, x_forwarded_proto, x_forwarded_for, is_upgrade,
  remove_hop_by_hop_headers, append_forwarded_for,
}
use http_gateway.Proxy.Headers.Laws.{
  ends_here, forwarded, get_all-remove_hop_by_hop_headers, get_all-append_forwarded_for,
}
use http_gateway.Proxy.Forward.{
  target_authority, insert_host, or_slash, reattach, prepare_headers, prepare_request,
  without_tasks,
}

module _ (H : Http) where
  open H use {get_all}

  -- The headers whose values the hop sets itself.
  abbrev pub is_set_here : String → Bool
  is_set_here n =
      str_eq x_forwarded_for n
      || str_eq x_forwarded_proto n
      || str_eq x_forwarded_host n
      || str_eq admission_scope_header n
      || str_eq admission_token_header n

  -- What an origin receives for a request: its method, version and payload; the address of the
  -- ticket's origin or of the proxy; the end-to-end headers as they came, but those that this hop
  -- sets; the forwarding chain; and the values of the ticket, whatever `Connection` nominates.
  pub record IsForwarded (proxy : FallbackProxy H) (r : Request H) (peer : String) (s : Request H)
      : Type 0 where
    pub method : s.method ≡ r.method
    pub version : s.version ≡ r.version
    pub body : s.body ≡ r.body
    pub scheme : H.uri_scheme s.uri ≡ some proxy.scheme
    pub authority : H.uri_authority s.uri ≡ target_authority H proxy r
    pub end_to_end :
        (n : String)
        → is_set_here n ≡ false
        → get_all s.headers n
          ≡ (if ends_here H r.headers (is_upgrade H r.headers) n then [] else get_all r.headers n)
    pub forwarded_for :
        get_all s.headers x_forwarded_for
        ≡ forwarded H
            (if ends_here H r.headers (is_upgrade H r.headers) x_forwarded_for
              then []
              else get_all r.headers x_forwarded_for)
            peer
    pub ticket_values :
        (t : AdmissionTicket H)
        → r.ticket ≡ some t
        → (get_all s.headers admission_scope_header ≡ t.scope ∷ [])
          × (get_all s.headers admission_token_header ≡ t.token ∷ [])
    pub no_ticket :
        r.ticket ≡ none
        → get_all r.headers admission_scope_header ≡ []
        → get_all r.headers admission_token_header ≡ []
        → (get_all s.headers admission_scope_header ≡ [])
          × (get_all s.headers admission_token_header ≡ [])

  get_all-or_insert_ne :
      (h : H.Headers) (n m : String) (v : H.HeaderValue)
      → str_eq n m ≡ false
      → get_all (or_insert H h n v) m ≡ get_all h m
  get_all-or_insert_ne h n m v e = ground (arith, H.get_all-insert h n m v)

  get_all-insert_host :
      (h : H.Headers) (host : Option H.HeaderValue) (n : String)
      → str_eq x_forwarded_host n ≡ false
      → get_all (insert_host H h host) n ≡ get_all h n
  get_all-insert_host h none n e = refl
  get_all-insert_host h (some host) n e = get_all-or_insert_ne h x_forwarded_host n host e

  get_all-prepare_headers :
      (h : H.Headers) (peer : String) (u : Bool) (n : String)
      → str_eq x_forwarded_proto n ≡ false
      → str_eq x_forwarded_host n ≡ false
      → get_all (prepare_headers H h peer u) n ≡ (
          if str_eq x_forwarded_for n
          then forwarded H
              (if ends_here H h u x_forwarded_for then [] else get_all h x_forwarded_for)
              peer
          else if ends_here H h u n
          then []
          else get_all h n)
  unfolding prepare_headers
  get_all-prepare_headers h peer u n a b =
      let fewer = remove_hop_by_hop_headers H h u in
      let with_for = append_forwarded_for H fewer peer in
      get_all-insert_host _ (get H h host_header) n b
      ∙ get_all-or_insert_ne with_for x_forwarded_proto n _ a
      ∙ get_all-append_forwarded_for H fewer peer n
      ∙ rw
          (
            get_all-remove_hop_by_hop_headers H h u n,
            get_all-remove_hop_by_hop_headers H h u x_forwarded_for,
          )
          refl

  get_all-reattach :
      (t : Option (AdmissionTicket H)) (r : Request H) (n : String)
      → str_eq admission_scope_header n ≡ false
      → str_eq admission_token_header n ≡ false
      → get_all (reattach H t r).headers n ≡ get_all r.headers n
  get_all-reattach none r n a b = refl
  get_all-reattach (some t) r n a b = get_all-attach_ne H t r n a b

  -- The parts that a ticket leaves alone.
  reattach_rest :
      (t : Option (AdmissionTicket H)) (r : Request H)
      → let s = reattach H t r in
        (s.method ≡ r.method) × (s.version ≡ r.version) × (s.body ≡ r.body) × (s.uri ≡ r.uri)
  unfolding attach
  reattach_rest none r = (refl, refl, refl, refl)
  reattach_rest (some t) r = (refl, refl, refl, refl)

  if_nil : {A : Type 0} (b : Bool) {xs : List A} → xs ≡ [] → (if b then [] else xs) ≡ []
  if_nil true e = refl
  if_nil false e = e

  prepared_ticket :
      (t₀ : Option (AdmissionTicket H)) (q : Request H) (t : AdmissionTicket H)
      → t₀ ≡ some t
      → (get_all (reattach H t₀ q).headers admission_scope_header ≡ t.scope ∷ [])
        × (get_all (reattach H t₀ q).headers admission_token_header ≡ t.token ∷ [])
  prepared_ticket none q t e = cc
  prepared_ticket (some t') q t e =
      let same = some-injective _ _ e in
      rw same (get_all-attach_scope H t q, get_all-attach_token H t q)

  -- The request that `prepare_request` builds from an address.
  abbrev prepared : Request H → String → H.Uri → Request H
  prepared r peer u =
      reattach H r.ticket
        (record r { uri = u; headers = prepare_headers H r.headers peer (is_upgrade H r.headers) })

  scope_not_set :
      (r : Request H) (n : String)
      → is_set_here n ≡ false
      → (str_eq admission_scope_header n ≡ false)
        × (str_eq admission_token_header n ≡ false)
        × (str_eq x_forwarded_for n ≡ false)
        × (str_eq x_forwarded_proto n ≡ false)
        × (str_eq x_forwarded_host n ≡ false)
  scope_not_set r n e = ground arith

  without_ticket :
      (t : Option (AdmissionTicket H)) (q : Request H) (n : String)
      → t ≡ none
      → get_all (reattach H t q).headers n ≡ get_all q.headers n
  without_ticket none q n e = refl
  without_ticket (some t) q n e = cc

  prepared-IsForwarded :
      (proxy : FallbackProxy H) (r : Request H) (peer a : String) (u : H.Uri)
      → target_authority H proxy r ≡ some a
      → H.build_uri proxy.scheme a (or_slash H (H.uri_path_and_query r.uri)) ≡ ok u
      → IsForwarded proxy r peer (without_tasks H (prepared r peer u))
  prepared-IsForwarded proxy r peer a u target built =
      let up = is_upgrade H r.headers in
      let q : Request H = record r { uri = u; headers = prepare_headers H r.headers peer up } in
      let (same_method, same_version, same_body, same_uri) = reattach_rest r.ticket q in
      record {
        method = same_method;
        version = same_version;
        body = same_body;
        scheme = rw same_uri (H.uri_scheme-build_uri proxy.scheme a _ u built);
        authority = rw (same_uri, target) (H.uri_authority-build_uri proxy.scheme a _ u built);
        end_to_end = λ n free.
            let (ns, nt, nf, np, nh) = scope_not_set r n free in
            get_all-reattach r.ticket q n ns nt
            ∙ get_all-prepare_headers r.headers peer up n np nh
            ∙ rw nf refl;
        forwarded_for =
            get_all-reattach r.ticket q x_forwarded_for refl refl
            ∙ get_all-prepare_headers r.headers peer up x_forwarded_for refl refl;
        ticket_values = λ t e. prepared_ticket r.ticket q t e;
        no_ticket = λ e es et. (
          without_ticket r.ticket q admission_scope_header e
              ∙ get_all-prepare_headers r.headers peer up admission_scope_header refl refl
              ∙ if_nil _ es,
          without_ticket r.ticket q admission_token_header e
              ∙ get_all-prepare_headers r.headers peer up admission_token_header refl refl
              ∙ if_nil _ et,
        );
      }

  -- A request that is prepared is one that the origin may receive.
  pub prepare_request-IsForwarded :
      (proxy : FallbackProxy H) (r s : Request H) (peer a : String)
      → target_authority H proxy r ≡ some a
      → prepare_request H proxy r peer (is_upgrade H r.headers) a ≡ ok s
      → IsForwarded proxy r peer (without_tasks H s)
  unfolding prepare_request
  prepare_request-IsForwarded proxy r s peer a target e =
      elim (Result-cases (H.build_uri proxy.scheme a (or_slash H (H.uri_path_and_query r.uri)))) [
        | inr (x, bad) ↦ absurd (ground arith)
        | inl (u, built) ↦
            let same : prepared r peer u ≡ s = ground arith in
            subst (λ q. IsForwarded proxy r peer (without_tasks H q)) same
              (prepared-IsForwarded proxy r peer a u target built)
      ]
