-- ===== src/Admitting/Protocol.antt =====
-- The guard of a recorder lookup through the handling of a request, with the acquisition of
-- src/redis_admission.rs under the timeout of src/gateway.rs.
use http_gateway.Prelude.{
  ◌≡◌, refl, sym, ap, subst, ◌⊎◌, inl, inr, String, Bool, true, false, Option, none, some, ok, err,
  [], Option-cases,
}
use http_gateway.External.Http.{Http}
use http_gateway.External.Router.{Router}
use http_gateway.External.Json.{Json}
use http_gateway.External.Redis.{Command, Reply, reply, nil}
use http_gateway.Messages.{Request}
use http_gateway.Admission.{ProviderRef}
use http_gateway.Effects.{Prog, ret, call, Event, Always}
use http_gateway.Effects.Interpretation.{interpret}
use http_gateway.Effects.Monitors.{Obeys, Follows, Follows->>=, Follows-Always}
use http_gateway.Awaits.{
  AcquireCall, Await, Answer, acquire, service, collect, send as send_request, spawn_tunnel, panic,
}
use http_gateway.Gateway.{MatchedService, Gateway, handle}
use http_gateway.Redis.Acquire.{Provider, Told, participating, look_up, snapshot, draw, close, send}
use http_gateway.Redis.Acquire.Guarding.{
  Requires as Asks, advance as advance_held, try_acquire-Returns, try_acquire_request-Returns,
}
use http_gateway.Admitting.{
  ask, other, Heard, drop_guard, is_held_after, on_time, cut_off, answer_by, handle_admitting,
}

-- No guard is held; the guard of a provider is held; or its acquisition is cut off and must drop it.
pub data Guard : Type 0 where
  free : Guard
  taken over : ProviderRef → Guard

abbrev guard_of : ProviderRef → Bool → Guard
guard_of p true = taken p
guard_of p false = free

module _ (H : Http) (R : Router) (J : Json) where
  -- Nothing but an acquisition is waited for while a guard is held, and commands are sent and tokens drawn
  -- only while that of their provider is. It is dropped as available only before the time is over.
  abbrev pub Requires : Guard → Event (Heard H R J) → Type 0
  Requires g (ask p participating, b) = (g ≡ free) ⊎ (g ≡ taken p)
  Requires g (ask p look_up, r) = g ≡ free
  Requires g (ask p snapshot, s) = g ≡ free
  Requires g (ask p draw, n) = g ≡ taken p
  Requires g (ask p (send c), a) = g ≡ taken p
  Requires g (ask p (close true), u) = g ≡ taken p
  Requires g (ask p (close false), u) = (g ≡ taken p) ⊎ (g ≡ over p)
  Requires g (other e, a) = g ≡ free

  abbrev pub advance : Guard → Event (Heard H R J) → Guard
  advance g (ask p look_up, ok u) = taken p
  advance g (ask p look_up, err e) = g
  advance g (ask p (send c), none) = over p
  advance g (ask p (send c), some r) = g
  advance g (ask p (close available), u) = free
  advance g (ask p participating, b) = g
  advance g (ask p snapshot, s) = g
  advance g (ask p draw, n) = g
  advance g (other e, a) = g

  abbrev IsFree : {A : Type 0} → Guard → A → Type 0
  IsFree g a = g ≡ free

  participating-Requires :
      (p : ProviderRef) (held : Bool) (b : Bool)
      → Requires (guard_of p held) (ask p participating, b)
  participating-Requires p true b = inr refl
  participating-Requires p false b = inl refl

  close-Requires :
      (p : ProviderRef) (available : Bool) → Requires (taken p) (ask p (close available), tt)
  close-Requires p true = refl
  close-Requires p false = inl refl

  looked_up :
      (p : ProviderRef) (held : Bool) (r : Told H R J look_up)
      → advance (guard_of p held) (ask p look_up, r) ≡ guard_of p (is_held_after H R J held r)
  looked_up p held (ok u) = refl
  looked_up p held (err e) = refl

  -- Both ways to say what a lookup leaves.
  is_held_after-advance :
      (held : Bool) (r : Told H R J look_up)
      → advance_held H R J held (look_up, r) ≡ is_held_after H R J held r
  is_held_after-advance held (ok u) = refl
  is_held_after-advance held (err e) = refl

  sent-Follows :
      {A : Type 0} (p : ProviderRef) (held : Bool) (c : Command)
      (f : Reply → Prog (Heard H R J) (Option A))
      → held ≡ true
      → ((r : Reply) → Follows (Requires) (advance) IsFree (guard_of p held) (f r))
      → (a : Option Reply)
      → Follows
          (Requires)
          (advance)
          IsFree
          (advance (guard_of p held) (ask p (send c), a))
          (on_time H R J (drop_guard H R J p held) f a)
  sent-Follows p true c f e h none = λ u. (inr refl, refl)
  sent-Follows p false c f e h none = cc
  sent-Follows p held c f e h (some r) = h r

  cut_off-Follows :
      {A : Type 0} (p : ProviderRef) (held : Bool) (m : Prog (Told H R J) A)
      → Follows (Asks H R J) (advance_held H R J) (λ s a. s ≡ false) held m
      → Follows Requires advance IsFree (guard_of p held) (cut_off H R J p held m)
  unfolding cut_off
  cut_off-Follows p held (ret a) h = ap (guard_of p) h
  cut_off-Follows p held (call participating k) h =
      λ b. (participating-Requires p held b, cut_off-Follows p held (k b) (h b).1)
  cut_off-Follows p held (call look_up k) h = λ r. (
    ap (guard_of p) (h r).0,
    subst
        (λ g.
          Follows Requires advance IsFree g (cut_off H R J p (is_held_after H R J held r) (k r)))
        (sym (looked_up p held r))
        (cut_off-Follows p (is_held_after H R J held r) (k r) (
          subst (λ s. Follows (Asks H R J) (advance_held H R J) (λ s' a. s' ≡ false) s (k r))
            (is_held_after-advance held r) (h r).1)),
  )
  cut_off-Follows p held (call snapshot k) h =
      λ s. (ap (guard_of p) (h s).0, cut_off-Follows p held (k s) (h s).1)
  cut_off-Follows p held (call draw k) h =
      λ n. (ap (guard_of p) (h n).0, cut_off-Follows p held (k n) (h n).1)
  cut_off-Follows p held (call (close available) k) h = λ u. (
    subst (λ s. Requires (guard_of p s) (ask p (close available), tt)) (sym (h tt).0)
        (close-Requires p available),
    cut_off-Follows p false (k u) (h u).1,
  )
  cut_off-Follows p held (call (send c) k) h = λ a. (
    ap (guard_of p) (h (reply nil)).0,
    sent-Follows p held c (λ r. cut_off H R J p held (k r)) (h (reply nil)).0
        (λ r. cut_off-Follows p held (k r) (h r).1) a,
  )

  module _ (provider_of : ProviderRef → Provider) where
    acquire-Follows :
        (c : AcquireCall H)
        → Follows Requires advance IsFree free (answer_by H R J provider_of (acquire c))
    acquire-Follows c = elim (Option-cases c.path) [
      | inl plain ↦ rw plain (
          cut_off-Follows c.provider false _
            (try_acquire-Returns H R J (provider_of c.provider) c.scope))
      | inr (path, requested) ↦ rw requested (
          cut_off-Follows c.provider false _
            (try_acquire_request-Returns H R J (provider_of c.provider) c.scope path))
    ]

    answer_by-Follows :
        (e : Await H) → Follows Requires advance IsFree free (answer_by H R J provider_of e)
    answer_by-Follows (acquire c) = acquire-Follows c
    answer_by-Follows (service r) = λ a. (refl, refl)
    answer_by-Follows (send_request r) = λ a. (refl, refl)
    answer_by-Follows (collect b) = λ a. (refl, refl)
    answer_by-Follows (spawn_tunnel u d r) = λ a. (refl, refl)
    answer_by-Follows panic = λ a. (refl, refl)

    interpret-Follows :
        {A : Type 0} (m : Prog (Answer H) A)
        → Follows Requires advance IsFree free (interpret (answer_by H R J provider_of) m)
    interpret-Follows (ret a) = refl
    interpret-Follows (call e k) =
        Follows->>= Requires advance IsFree IsFree free (answer_by H R J provider_of e) _
          (answer_by-Follows e)
          (λ g a open_to.
            subst
              (λ s.
                Follows Requires advance IsFree s (interpret (answer_by H R J provider_of) (k a)))
              (sym open_to) (interpret-Follows (k a)))

    -- With Redis providers and any service, whatever is answered and wherever the time of an acquisition
    -- is over, the handling of a request obeys the protocol of the guard: it takes the guard of a
    -- provider at most once at a time, sends the writer commands only while it holds it, drops it before
    -- anything is dispatched, at once and as unavailable when the time is over, and holds none at its end.
    pub handle_admitting-Obeys :
        (g : Gateway H R) (matched : MatchedService H) (r : Request H) (peer : String)
        → Always
            (λ log response. Obeys Requires advance (λ s. s ≡ free) free log)
            []
            (handle_admitting H R J provider_of g matched r peer)
    unfolding handle_admitting
    handle_admitting-Obeys g matched r peer =
        Follows-Always Requires advance (λ s. s ≡ free) free
          (interpret (answer_by H R J provider_of) (handle H R g matched r peer))
          (interpret-Follows (handle H R g matched r peer))
