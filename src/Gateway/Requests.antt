-- ===== src/Gateway/Requests.antt =====
-- What src/gateway.rs lets in: the requests that the service and the fallback origin receive.
use http_gateway.Prelude.{
  String, ◌≡◌, refl, sym, ap, ◌∙◌, ◌⊎◌, inl, inr, Bool, true, false, none, some, List, [], ◌∷◌,
  is_some, All,
}
use http_gateway.External.Http.{Http, GatewayResponse, response_cors_header}
use http_gateway.External.Router.{Router}
use http_gateway.Messages.{AdmissionTicket, Request}
use http_gateway.Admission.{admission_scope_header, admission_token_header, attach}
use http_gateway.Admission.Tickets.{get_all-attach_scope, get_all-attach_token, get_all-attach_ne}
use http_gateway.Effects.{Event, Always, Always-mono}
use http_gateway.Awaits.{Await, Answer, service, send}
use http_gateway.Config.{AdmissionRule, select, is_excluded}
use http_gateway.Proxy.Forward.Attempts.{Tried-All}
use http_gateway.Gateway.Building.{IsBuilt}
use http_gateway.Gateway.Course.{
  Course, unmatched, matched, admitted, declined, IsFallback, IsGoverned, handle-Course,
}
use http_gateway.Gateway.{Gateway, external_service, sanitize, preflight_of, selected, handle}

module _ (H : Http) (R : Router) where
  open H use {get_all}

  -- The request carries no admission of its own.
  abbrev pub IsBare : Request H → Type 0
  IsBare s =
      (get_all s.headers admission_scope_header ≡ [])
      × (get_all s.headers admission_token_header ≡ [])

  -- The request carries exactly the ticket of its extensions.
  abbrev pub CarriesTicket : Request H → Type 0
  CarriesTicket s =
      (t : AdmissionTicket H) × (s.ticket ≡ some t)
      × (get_all s.headers admission_scope_header ≡ t.scope ∷ [])
      × (get_all s.headers admission_token_header ≡ t.token ∷ [])

  -- What may leave the gateway: to the origin, requests without admission; to the service, requests
  -- without admission or with a ticket that a provider gave, and without response metadata.
  abbrev pub IsClean : Await H → Type 0
  IsClean (send s) = IsBare s
  IsClean (service q) = (IsBare q ⊎ CarriesTicket q) × (get_all q.headers response_cors_header ≡ [])
  IsClean _ = Unit {0}

  sanitize-IsBare : (r : Request H) → IsBare (sanitize H R r)
  unfolding sanitize
  sanitize-IsBare r = (
    rw (H.get_all-remove, H.get_all-remove, H.get_all-remove) refl,
    rw (H.get_all-remove, H.get_all-remove) refl,
  )

  sanitize-metadata : (r : Request H) → get_all (sanitize H R r).headers response_cors_header ≡ []
  unfolding sanitize
  sanitize-metadata r = rw (H.get_all-remove) refl

  module _ (g : Gateway H R) (r : Request H) (peer : String) where
    fallback-IsClean :
        (log : List (Event (Answer H))) (response : GatewayResponse H)
        → IsFallback H R g (sanitize H R r) peer log response
        → All (λ ev. IsClean ev.0) log
    unfolding sanitize
    fallback-IsClean log response (x, d, e) =
        Tried-All H IsClean g.fallback d.message peer log d.result
          (λ s f.
            f.no_ticket d.same.ticket
              (ap (λ h. get_all h admission_scope_header) d.same.headers ∙ (sanitize-IsBare r).0)
              (ap (λ h. get_all h admission_token_header) d.same.headers ∙ (sanitize-IsBare r).1))
          (λ u handle z. tt) d.tried

    Course-IsClean :
        (log : List (Event (Answer H))) (response : GatewayResponse H)
        → Course H R g (sanitize H R r) peer log response
        → All (λ ev. IsClean ev.0) log
    Course-IsClean log response (unmatched e s f) = fallback-IsClean log response f
    Course-IsClean log response (matched x e s q d) =
        rw q ((inl (sanitize-IsBare r), sanitize-metadata r), tt)
    Course-IsClean log response (admitted rule global p t x e k s q d) = rw q (
      tt,
      (
        (
          inr (
            t,
            attached t,
            get_all-attach_scope H t (sanitize H R r),
            get_all-attach_token H t (sanitize H R r),
          ),
          get_all-attach_ne H t (sanitize H R r) response_cors_header refl refl
              ∙ sanitize-metadata r,
        ),
        tt,
      ),
    )
      where
        attached : (t : AdmissionTicket H) → (attach H t (sanitize H R r)).ticket ≡ some t
        attached t = unfold attach in refl
    Course-IsClean log response (declined rule global p a rest e k o q f) =
        rw q (tt, fallback-IsClean rest response f)

  -- Whatever a client sends and whatever is answered, at a gateway that `IsBuilt` and for a request
  -- that CORS does not answer as a preflight, the fallback origin receives no admission header; the
  -- service receives none either, or exactly the ticket of the request; and the service receives no
  -- response metadata.
  pub handle-IsClean :
      (g : Gateway H R) (r : Request H) (peer : String)
      → IsBuilt H R g
      → preflight_of H R g.cors (sanitize H R r) ≡ none
      → Always
          (λ log response. All (λ ev. IsClean ev.0) log)
          []
          (handle H R g (external_service H) r peer)
  handle-IsClean g r peer b e =
      Always-mono (Course H R g (sanitize H R r) peer)
        (λ log response. All (λ ev. IsClean ev.0) log) [] (handle H R g (external_service H) r peer)
        (Course-IsClean g r peer) (handle-Course H R g b peer r e)

  -- No policy governs what an exclusion selects, and no route is selected for it.
  excluded-open :
      (g : Gateway H R) (r : Request H) (rule : AdmissionRule) (global : Bool)
      → is_excluded H R g.routes r.method (H.uri_path r.uri) ≡ true
      → selected H R g r ≡ none
      → IsGoverned H R g r (some (rule, global))
      → ⊥
  excluded-open g r rule true x s (within, by) = cc
  excluded-open g r rule false x s (free, id, picked, found) = cc

  excluded-IsFallback :
      (g : Gateway H R) (r : Request H) (peer : String)
      → is_excluded H R g.routes r.method (H.uri_path r.uri) ≡ true
      → selected H R g r ≡ none
      → (log : List (Event (Answer H))) (response : GatewayResponse H)
      → Course H R g r peer log response
      → IsFallback H R g r peer log response
  excluded-IsFallback g r peer x n log response (unmatched e s f) = f
  excluded-IsFallback g r peer x n log response (matched y e s q d) =
      absurd (let bad : true ≡ false = sym s ∙ ap is_some n in cc)
  excluded-IsFallback g r peer x n log response (admitted rule global p t y e k s q d) =
      absurd (excluded-open g r rule global x n e)
  excluded-IsFallback g r peer x n log response (declined rule global p a rest e k o q f) =
      absurd (excluded-open g r rule global x n e)

  -- At a gateway that `IsBuilt`, a request that an exclusion selects and that CORS does not answer as a
  -- preflight never asks a provider and never reaches the selected service, whatever routes and global
  -- policy there are: it is tried once at the fallback origin, and `publish` makes the response from
  -- the result.
  pub handle_excluded :
      (g : Gateway H R) (r : Request H) (peer : String)
      → IsBuilt H R g
      → preflight_of H R g.cors (sanitize H R r) ≡ none
      → is_excluded H R g.routes r.method (H.uri_path r.uri) ≡ true
      → Always
          (IsFallback H R g (sanitize H R r) peer)
          []
          (handle H R g (external_service H) r peer)
  unfolding sanitize select
  handle_excluded g r peer b e x =
      Always-mono (Course H R g (sanitize H R r) peer) (IsFallback H R g (sanitize H R r) peer) []
        (handle H R g (external_service H) r peer)
        (excluded-IsFallback g (sanitize H R r) peer x (rw (select, x) refl))
        (handle-Course H R g b peer r e)
