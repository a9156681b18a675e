-- ===== src/Admitting/Reservations.antt =====
-- Which requests a service of src/gateway.rs receives, by what the writer of src/redis_admission.rs was
-- asked and answered.
use http_gateway.Prelude.{
  String, ◌≡◌, ◌≢◌, if◌then◌else◌, refl, sym, ap, subst, ◌∙◌, inl, inr, Bool, true, false, Option,
  none, some, ok, List, [], ◌∷◌, ◌++◌, is_some, All, Option-cases,
}
use mathlib.Core.Option.{some-injective}
use http_gateway.External.Http.{Http, GatewayResponse}
use http_gateway.External.Router.{Router}
use http_gateway.External.Json.{Json}
use http_gateway.Messages.{AdmissionTicket, Request}
use http_gateway.Admission.{acquired, ticket_scope, ProviderRef, get_provider}
use http_gateway.Effects.{Event, Always, Always-mono}
use http_gateway.Effects.Interpretation.{Expands, Expanded, Always-interpret}
use http_gateway.Awaits.{
  AcquireCall, Await, Answer, acquire, service, collect, send as send_request, spawn_tunnel, panic,
}
use http_gateway.Config.{AdmissionRule}
use http_gateway.Proxy.Forward.Attempts.{Tried-All}
use http_gateway.Gateway.{
  Gateway, external_service, sanitize, preflight_of, selected, publish, cors_origin, handle,
}
use http_gateway.Gateway.Building.{IsBuilt}
use http_gateway.Gateway.Course.{
  Course as RequestWay, unmatched, matched, admitted, declined, IsFallback, IsGoverned, asked_for,
  admitted_request, handle-Course,
}
use http_gateway.Redis.Acquire.{Provider, Told, Outcome, try_acquire}
use http_gateway.Redis.Acquire.Course.{Course, acquire-Course}
use http_gateway.Redis.Acquire.Requests.{RequestCourse, try_acquire_request-Course}
use http_gateway.Redis.Acquire.Granting.{GrantedFor, Grants, Course-Granted, RequestCourse-Grants}
use http_gateway.Admitting.{other, Heard, acquisition, answer_by, handle_admitting}
use http_gateway.Admitting.Cuts.{lifted, Cut, ended, late, cut_off-Cut}

module _ (H : Http) (R : Router) (J : Json) (provider_of : ProviderRef → Provider) where
  -- How an acquisition goes that ends in time, by the path of the request, if it is given.
  abbrev pub Goes :
      Provider → String → Option String → List (Event (Told H R J)) → Outcome H R J → Type 0
  Goes p scope none inner o = Course H R J p scope none inner o
  Goes p scope (some path) inner o = RequestCourse H R J p scope path inner o

  Goes-Grants :
      (p : Provider) (scope : String) (path : Option String) (inner : List (Event (Told H R J)))
      (o : Outcome H R J)
      → Goes p scope path inner o
      → Grants H R J p scope path inner o
  Goes-Grants p scope none inner o h = Course-Granted H R J p scope none inner o h
  Goes-Grants p scope (some path) inner o h = RequestCourse-Grants H R J p scope path inner o h

  -- An acquisition goes its way, or is cut off; all else is as it was asked.
  abbrev Answers : (e : Await H) → List (Event (Heard H R J)) → Answer H e → Type 0
  Answers (acquire c) log a =
      Cut H R J c.provider (Goes (provider_of c.provider) c.scope c.path) log a
  Answers (service r) log a = log ≡ (other (service r), a) ∷ []
  Answers (send_request r) log a = log ≡ (other (send_request r), a) ∷ []
  Answers (collect b) log a = log ≡ (other (collect b), a) ∷ []
  Answers (spawn_tunnel u d r) log a = log ≡ (other (spawn_tunnel u d r), a) ∷ []
  Answers panic log a = ⊥

  acquisition-Goes :
      (c : AcquireCall H)
      → Always (Goes (provider_of c.provider) c.scope c.path) [] (acquisition H R J provider_of c)
  unfolding try_acquire
  acquisition-Goes c = elim (Option-cases c.path) [
    | inl plain ↦ rw plain (acquire-Course H R J (provider_of c.provider) c.scope none)
    | inr (path, requested) ↦
        rw requested (try_acquire_request-Course H R J (provider_of c.provider) c.scope path)
  ]

  answer_by-Answers : (e : Await H) → Always (Answers e) [] (answer_by H R J provider_of e)
  answer_by-Answers (acquire c) =
      cut_off-Cut H R J c.provider (Goes (provider_of c.provider) c.scope c.path) false []
        (acquisition H R J provider_of c) (acquisition-Goes c)
  answer_by-Answers (service r) = λ a. refl
  answer_by-Answers (send_request r) = λ a. refl
  answer_by-Answers (collect b) = λ a. refl
  answer_by-Answers (spawn_tunnel u d r) = λ a. refl
  answer_by-Answers panic = λ never. absurd never

  -- The events that are no acquisition, as those of the handling.
  abbrev pub others : List (Event (Answer H)) → List (Event (Heard H R J))
  others [] = []
  others ((e, a) ∷ es) = (other e, a) ∷ others es

  abbrev IsOther : Await H → Type 0
  IsOther (acquire c) = ⊥
  IsOther panic = ⊥
  IsOther _ = Unit {0}

  Expands-others :
      (es : List (Event (Answer H))) (log : List (Event (Heard H R J)))
      → All (λ ev. IsOther ev.0) es
      → Expands Answers es log
      → log ≡ others es
  Expands-others [] log o x = x
  Expands-others ((service q, a) ∷ es) log o (first, rest, p, s, x) =
      s
      ∙ ap (λ f. f ++ rest) p
      ∙ ap (λ l. (other (service q), a) ∷ l) (Expands-others es rest o.1 x)
  Expands-others ((send_request q, a) ∷ es) log o (first, rest, p, s, x) =
      s
      ∙ ap (λ f. f ++ rest) p
      ∙ ap (λ l. (other (send_request q), a) ∷ l) (Expands-others es rest o.1 x)
  Expands-others ((collect b, a) ∷ es) log o (first, rest, p, s, x) =
      s
      ∙ ap (λ f. f ++ rest) p
      ∙ ap (λ l. (other (collect b), a) ∷ l) (Expands-others es rest o.1 x)
  Expands-others ((spawn_tunnel u d q, a) ∷ es) log o (first, rest, p, s, x) =
      s
      ∙ ap (λ f. f ++ rest) p
      ∙ ap (λ l. (other (spawn_tunnel u d q), a) ∷ l) (Expands-others es rest o.1 x)
  Expands-others ((acquire c, a) ∷ es) log o x = absurd o.0
  Expands-others ((panic, a) ∷ es) log o x = absurd o.0

  -- An acquisition that gives no ticket of its scope: it goes its way to another outcome, or it is cut
  -- off.
  abbrev pub IsDeclined : ProviderRef → String → Option String → List (Event (Heard H R J)) → Type 0
  IsDeclined p scope path asked =
      (a : Option (Outcome H R J)) × Cut H R J p (Goes (provider_of p) scope path) asked a
      × ((t : AdmissionTicket H) → a ≡ some (ok (acquired t)) → ticket_scope H t ≢ some scope)

  module _ (g : Gateway H R) (r : Request H) (peer : String) where
    abbrev path_if : Bool → Option String
    path_if global = if global then some (H.uri_path r.uri) else none

    abbrev published : GatewayResponse H → GatewayResponse H
    published x = publish H R g (cors_origin H R g.cors r) x

    -- The ways that a sanitized request goes, by the events of its handling and its response.
    pub data Way (log : List (Event (Heard H R J))) (response : GatewayResponse H) : Type 0 where
      -- No policy, and no route selected: the fallback.
      unselected :
          (es : List (Event (Answer H)))
          → IsGoverned H R g r none
          → selected H R g r ≡ none
          → log ≡ others es
          → IsFallback H R g r peer es response
          → Way log response
      -- No policy, and a route selected: the service alone.
      plain :
          (x : GatewayResponse H)
          → IsGoverned H R g r none
          → is_some (selected H R g r) ≡ true
          → log ≡ (other (service r), x) ∷ []
          → response ≡ published x
          → Way log response
      -- A policy, and the writer granted a ticket: the service gets that ticket.
      reserved :
          (rule : AdmissionRule) (global : Bool) (p : ProviderRef) (t : AdmissionTicket H)
          (inner : List (Event (Told H R J))) (x : GatewayResponse H)
          → IsGoverned H R g r (some (rule, global))
          → get_provider g.admission rule.provider ≡ some p
          → GrantedFor H R J (provider_of p) rule.scope (path_if global) t inner
          → log ≡ lifted H R J p inner ++ (other (service (admitted_request H R g t r)), x) ∷ []
          → response ≡ published x
          → Way log response
      -- A policy, and its provider gave no ticket: the fallback, after what that provider was asked.
      turned_down :
          (rule : AdmissionRule) (global : Bool) (p : ProviderRef)
          (asked : List (Event (Heard H R J))) (es : List (Event (Answer H)))
          → IsGoverned H R g r (some (rule, global))
          → get_provider g.admission rule.provider ≡ some p
          → IsDeclined p rule.scope (path_if global) asked
          → log ≡ asked ++ others es
          → IsFallback H R g r peer es response
          → Way log response

    fallback-others :
        (es : List (Event (Answer H))) (log : List (Event (Heard H R J)))
        (response : GatewayResponse H)
        → IsFallback H R g r peer es response
        → Expands Answers es log
        → log ≡ others es
    fallback-others es log response (x, d, e) h =
        Expands-others es log
          (Tried-All H IsOther g.fallback d.message peer es d.result (λ s f. tt) (λ u b z. tt)
            d.tried)
          h

    granted_way :
        (rule : AdmissionRule) (global : Bool) (p : ProviderRef) (t : AdmissionTicket H)
        (x response : GatewayResponse H) (first rest log : List (Event (Heard H R J)))
        → IsGoverned H R g r (some (rule, global))
        → get_provider g.admission rule.provider ≡ some p
        → Answers (acquire (asked_for H R rule global r p)) first (some (ok (acquired t)))
        → rest ≡ (other (service (admitted_request H R g t r)), x) ∷ []
        → log ≡ first ++ rest
        → response ≡ published x
        → Way log response
    granted_way rule global p t x response first rest log e k (ended inner a q l d) y s done =
        reserved rule global p t inner x e k
          (Goes-Grants (provider_of p) rule.scope (path_if global) inner a q t
            (sym (some-injective _ _ d)))
          (s ∙ ap (λ f. f ++ rest) l ∙ ap (λ f. lifted H R J p inner ++ f) y) done
    granted_way rule global p t x response first rest log e k (late inner c drop l h d) y s done =
        cc

    Course-Way :
        (log : List (Event (Answer H))) (log' : List (Event (Heard H R J)))
        (response : GatewayResponse H)
        → RequestWay H R g r peer log response
        → Expands Answers log log'
        → Way log' response
    Course-Way log log' response (unmatched e s f) x =
        unselected log e s (fallback-others log log' response f x) f
    Course-Way log log' response (matched y e s q d) x =
        plain y e s
          (Expands-others ((service r, y) ∷ []) log' (tt, tt)
            (subst (λ l. Expands Answers l log') q x))
          d
    Course-Way log log' response (admitted rule global p t y e k s q d) x =
        let (first, rest, a, split, later) = subst (λ l. Expands Answers l log') q x in
        granted_way rule global p t y response first rest log' e k a
          (Expands-others ((service (admitted_request H R g t r), y) ∷ []) rest (tt, tt) later)
          split d
    Course-Way log log' response (declined rule global p a es e k o q f) x =
        let (first, rest, c, split, later) = subst (λ l. Expands Answers l log') q x in
        turned_down rule global p first es e k (a, c, o)
          (split ∙ ap (λ l. first ++ l) (fallback-others es rest response f later)) f

  -- At a gateway that `IsBuilt`, whose providers are Redis providers and of whose service nothing is known,
  -- whatever is answered and wherever the time of an acquisition is over, a request that CORS does not
  -- answer as a preflight goes one of the ways of `Way`. The service gets a request without a policy; or
  -- with the ticket whose slot the writer reserved, under the ticket's token, for that very request and
  -- scope, and for a global policy only as the loaded policy counts its path. Every other request is
  -- tried once at the fallback origin: after the acquisition at the provider of the policy that applies
  -- has ended with no such ticket or was cut off, or at once where there is no policy and no route.
  pub handle_admitting-Way :
      (g : Gateway H R) (r : Request H) (peer : String)
      → IsBuilt H R g
      → preflight_of H R g.cors (sanitize H R r) ≡ none
      → Always
          (Way g (sanitize H R r) peer)
          []
          (handle_admitting H R J provider_of g (external_service H) r peer)
  unfolding handle_admitting
  handle_admitting-Way g r peer b e =
      Always-mono (Expanded Answers (RequestWay H R g (sanitize H R r) peer))
        (Way g (sanitize H R r) peer) []
        (handle_admitting H R J provider_of g (external_service H) r peer)
        (λ log' response x. Course-Way g (sanitize H R r) peer x.0 log' response x.1 x.2)
        (Always-interpret Answers (RequestWay H R g (sanitize H R r) peer)
          (answer_by H R J provider_of) (handle H R g (external_service H) r peer) [] []
          answer_by-Answers (handle-Course H R g b peer r e) refl)
