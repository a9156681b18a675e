-- ===== src/Redis/Acquire/Granting.antt =====
-- What has happened when an acquisition of src/redis_admission.rs gives a ticket.
use http_gateway.Prelude.{
  ℕ, String, ◌≡◌, sym, ap, subst, ◌∙◌, Bool, true, Option, none, some, ok, [], ◌∷◌, ◌++◌,
}
use http_gateway.External.Http.{Http}
use http_gateway.External.Router.{Router}
use http_gateway.External.Json.{Json}
use http_gateway.External.Redis.{Reply}
use http_gateway.Messages.{AdmissionTicket}
use http_gateway.Admission.{acquired}
use http_gateway.Effects.{Always, Always-mono}
use http_gateway.Redis.Replies.{read_reserved}
use http_gateway.Redis.Policy.{CompiledPolicy}
use http_gateway.Redis.Acquire.{
  Provider, Quota, participating, look_up, snapshot, draw, close, Outcome, slot_ticket, acquire,
  try_acquire, try_acquire_request,
}
use http_gateway.Redis.Acquire.Slot.{
  Log, Slot, granted, taken, unbuilt, refused, lost, set_slot, Confirmed,
}
use http_gateway.Redis.Acquire.Course.{
  Held, tried, exhausted, absent, unread, Checked, Course, apart, conflict, cooling, checking,
  looked, acquire-Course,
}
use http_gateway.Redis.Acquire.Requests.{
  IsCounted, RequestCourse, outside, ineligible, eligible, try_acquire_request-Course,
}

module _ (H : Http) (R : Router) (J : Json) (p : Provider) (scope : String) where
  -- A ticket and all that was asked for it: the gateway participates and gets the guard, reads the
  -- recorder's origin and the count, reserves the slot with the ticket's token, counts, and still
  -- participates when it drops the guard as available.
  pub record Granted (quota : Option Quota) (t : AdmissionTicket H) (log : Log H R J p scope)
      : Type 0 where
    pub origin : H.Uri
    pub random : ℕ × ℕ
    pub answer : Reply
    pub reads : Log H R J p scope
    pub rest : Log H R J p scope
    pub made : slot_ticket H R J scope origin random ≡ ok t
    pub checked : Checked H R J p scope quota origin reads
    pub was_set : read_reserved answer ≡ ok true
    pub confirmed : Confirmed H R J p scope quota rest
    pub order :
        log
        ≡ (participating, true)
            ∷ (look_up, ok tt)
            ∷ (reads ++ (draw, random) ∷ (set_slot H R J p scope random, answer) ∷ rest)
          ++ (close true, tt) ∷ []

  Slot-Granted :
      (quota : Option Quota) (u : H.Uri) (reads inner : Log H R J p scope) (available : Bool)
      (o : Outcome H R J) (t : AdmissionTicket H)
      → Checked H R J p scope quota u reads
      → Slot H R J p scope quota u inner (available, o)
      → o ≡ ok (acquired t)
      → Granted quota t (
          (participating, true) ∷ (look_up, ok tt) ∷ (reads ++ inner) ++ (close available, tt) ∷ [])
  Slot-Granted quota u reads inner available o t checked
        (granted random ticket r rest made free c e d) q =
      record {
        origin = u;
        random = random;
        answer = r;
        reads = reads;
        rest = rest;
        made = made ∙ ap ok (let same : ticket ≡ t = cc in same);
        checked = checked;
        was_set = free;
        confirmed = c;
        order =
            ap
              (λ l.
                (participating, true) ∷ (look_up, ok tt) ∷ (reads ++ l)
                ++ (close available, tt) ∷ [])
              e
            ∙ ap
                (λ b.
                  (participating, true)
                    ∷ (look_up, ok tt)
                    ∷ (reads ++ (draw, random) ∷ (set_slot H R J p scope random, r) ∷ rest)
                  ++ (close b, tt) ∷ [])
                (ap (λ x. x.0) d);
      }
  Slot-Granted quota u reads inner available o t checked (taken random r full e d) q = cc
  Slot-Granted quota u reads inner available o t checked (unbuilt random x bad e d) q = cc
  Slot-Granted quota u reads inner available o t checked (refused random r x bad e d) q = cc
  Slot-Granted quota u reads inner available o t checked (lost random r x rest free steps e d) q =
      cc

  Held-Granted :
      (quota : Option Quota) (inner : Log H R J p scope) (available : Bool) (o : Outcome H R J)
      (t : AdmissionTicket H)
      → Held H R J p scope quota inner (available, o)
      → o ≡ ok (acquired t)
      → Granted quota t
          ((participating, true) ∷ (look_up, ok tt) ∷ inner ++ (close available, tt) ∷ [])
  Held-Granted quota inner available o t (tried u reads rest c s e) q =
      subst
        (λ l.
          Granted quota t
            ((participating, true) ∷ (look_up, ok tt) ∷ l ++ (close available, tt) ∷ []))
        (sym e) (Slot-Granted quota u reads rest available o t c s q)
  Held-Granted quota inner available o t (exhausted name limit n r c a b h e d) q = cc
  Held-Granted quota inner available o t (absent r gone e d) q = cc
  Held-Granted quota inner available o t (unread x reads d) q = cc

  pub Course-Granted :
      (quota : Option Quota) (log : Log H R J p scope) (o : Outcome H R J)
      → Course H R J p scope quota log o
      → (t : AdmissionTicket H) → o ≡ ok (acquired t)
      → Granted quota t log
  Course-Granted quota log o (apart e d) t q = cc
  Course-Granted quota log o (conflict e k d) t q = cc
  Course-Granted quota log o (cooling e d) t q = cc
  Course-Granted quota log o (checking e d) t q = cc
  Course-Granted quota log o (looked inner available k h e) t q =
      subst (Granted quota t) (sym e) (Held-Granted quota inner available o t h q)

  -- By the path of the request, if it is given: then the loaded policy says whether and how it is counted.
  abbrev pub GrantedFor : Option String → AdmissionTicket H → Log H R J p scope → Type 0
  GrantedFor none t log = Granted none t log
  GrantedFor (some path) t log =
      (policy : Option (CompiledPolicy H R)) × (quota : Option Quota) × (rest : Log H R J p scope)
      × IsCounted H R J path policy quota
      × Granted quota t rest
      × (log ≡ (participating, true) ∷ (snapshot, policy) ∷ rest)

  abbrev pub Grants : Option String → Log H R J p scope → Outcome H R J → Type 0
  Grants path log o = (t : AdmissionTicket H) → o ≡ ok (acquired t) → GrantedFor path t log

  pub RequestCourse-Grants :
      (path : String) (log : Log H R J p scope) (o : Outcome H R J)
      → RequestCourse H R J p scope path log o
      → Grants (some path) log o
  RequestCourse-Grants path log o (outside e d) t q = cc
  RequestCourse-Grants path log o (ineligible policy x e d) t q = cc
  RequestCourse-Grants path log o (eligible policy quota rest counted c e) t q =
      (policy, quota, rest, counted, Course-Granted quota rest o c t q, e)

  pub try_acquire-Grants : Always (Grants none) [] (try_acquire H R J p scope)
  unfolding try_acquire
  try_acquire-Grants =
      Always-mono (Course H R J p scope none) (Grants none) [] (acquire H R J p scope none)
        (λ log o c. Course-Granted none log o c) (acquire-Course H R J p scope none)

  pub try_acquire_request-Grants :
      (path : String) → Always (Grants (some path)) [] (try_acquire_request H R J p scope path)
  try_acquire_request-Grants path =
      Always-mono (RequestCourse H R J p scope path) (Grants (some path)) []
        (try_acquire_request H R J p scope path) (RequestCourse-Grants path)
        (try_acquire_request-Course H R J p scope path)
