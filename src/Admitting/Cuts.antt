-- ===== src/Admitting/Cuts.antt =====
-- What an acquisition of src/redis_admission.rs does under the timeout of src/gateway.rs.
use mathlib.Core.List.{append_assoc}
use http_gateway.Prelude.{
  ◌≡◌, refl, ap, subst, Bool, true, false, Option, none, some, List, [], ◌∷◌, ◌++◌, ◌⊎◌, inl, inr,
}
use http_gateway.External.Http.{Http}
use http_gateway.External.Router.{Router}
use http_gateway.External.Json.{Json}
use http_gateway.External.Redis.{Command, Reply}
use http_gateway.Admission.{ProviderRef}
use http_gateway.Effects.{Prog, ret, call, Event, Always}
use http_gateway.Redis.Acquire.{Ask, Told, participating, look_up, snapshot, draw, close, send}
use http_gateway.Admitting.{ask, Heard, drop_guard, is_held_after, on_time, cut_off}

module _ (H : Http) (R : Router) (J : Json) (p : ProviderRef) where
  -- An answer in time.
  abbrev pub in_time : (e : Ask H R J) → Told H R J e → Heard H R J (ask p e)
  in_time participating b = b
  in_time look_up r = r
  in_time snapshot s = s
  in_time draw n = n
  in_time (close available) u = u
  in_time (send c) r = some r

  -- The events of an acquisition, as those of the handling.
  abbrev pub lifted : List (Event (Told H R J)) → List (Event (Heard H R J))
  lifted [] = []
  lifted ((e, r) ∷ log) = (ask p e, in_time e r) ∷ lifted log

  lifted-append :
      (log : List (Event (Told H R J))) (e : Ask H R J) (r : Told H R J e)
      → lifted (log ++ (e, r) ∷ []) ≡ lifted log ++ (ask p e, in_time e r) ∷ []
  lifted-append [] e r = refl
  lifted-append ((e', r') ∷ log) e r =
      ap (λ l. (ask p e', in_time e' r') ∷ l) (lifted-append log e r)

  -- The guard of a lookup is dropped as unavailable, or it is not held.
  abbrev IsDropping : List (Event (Heard H R J)) → Type 0
  IsDropping rest = (rest ≡ []) ⊎ (rest ≡ (ask p (close false), tt) ∷ [])

  -- How it ends: in time, and then as it does without a timeout; or without a result,
  -- after a command that has no reply in time.
  pub data Cut {A : Type 0} (Q : List (Event (Told H R J)) → A → Type 0)
      (log : List (Event (Heard H R J))) (o : Option A) : Type 0 where
    ended :
        (inner : List (Event (Told H R J))) (a : A)
        → Q inner a
        → log ≡ lifted inner
        → o ≡ some a
        → Cut Q log o
    late :
        (inner : List (Event (Told H R J))) (c : Command) (rest : List (Event (Heard H R J)))
        → log ≡ lifted inner ++ (ask p (send c), none) ∷ rest
        → IsDropping rest
        → o ≡ none
        → Cut Q log o

  module _ {A : Type 0} (Q : List (Event (Told H R J)) → A → Type 0) where
    -- Once more event has been answered in time.
    moved :
        (log : List (Event (Told H R J))) (e : Ask H R J) (r : Told H R J e)
        (m : Prog (Heard H R J) (Option A))
        → Always (Cut Q) (lifted (log ++ (e, r) ∷ [])) m
        → Always (Cut Q) (lifted log ++ (ask p e, in_time e r) ∷ []) m
    moved log e r m h = subst (λ l. Always (Cut Q) l m) (lifted-append log e r) h

    drop_guard-Cut :
        (held : Bool) (log : List (Event (Told H R J))) (c : Command)
        → Always (Cut Q) (lifted log ++ (ask p (send c), none) ∷ []) (drop_guard H R J p held)
    drop_guard-Cut true log c = λ u.
        late log c ((ask p (close false), tt) ∷ [])
          (append_assoc (lifted log) ((ask p (send c), none) ∷ []) ((ask p (close false), tt) ∷ []))
          (inr refl) refl
    drop_guard-Cut false log c = late log c [] refl (inl refl) refl

    on_time-Cut :
        (held : Bool) (log : List (Event (Told H R J))) (c : Command)
        (f : Reply → Prog (Heard H R J) (Option A))
        → ((r : Reply) → Always (Cut Q) (lifted (log ++ (send c, r) ∷ [])) (f r))
        → (a : Option Reply)
        → Always
            (Cut Q)
            (lifted log ++ (ask p (send c), a) ∷ [])
            (on_time H R J (drop_guard H R J p held) f a)
    on_time-Cut held log c f h none = drop_guard-Cut held log c
    on_time-Cut held log c f h (some r) = moved log (send c) r (f r) (h r)

    -- What an acquisition does whatever is answered, it does when it ends in time.
    pub cut_off-Cut :
        (held : Bool) (log : List (Event (Told H R J))) (m : Prog (Told H R J) A)
        → Always Q log m
        → Always (Cut Q) (lifted log) (cut_off H R J p held m)
    unfolding cut_off
    cut_off-Cut held log (ret a) q = ended log a q refl refl
    cut_off-Cut held log (call participating k) q = λ b.
        moved log participating b _ (cut_off-Cut held (log ++ (participating, b) ∷ []) (k b) (q b))
    cut_off-Cut held log (call look_up k) q = λ r.
        moved log look_up r _
          (cut_off-Cut (is_held_after H R J held r) (log ++ (look_up, r) ∷ []) (k r) (q r))
    cut_off-Cut held log (call snapshot k) q =
        λ s. moved log snapshot s _ (cut_off-Cut held (log ++ (snapshot, s) ∷ []) (k s) (q s))
    cut_off-Cut held log (call draw k) q =
        λ n. moved log draw n _ (cut_off-Cut held (log ++ (draw, n) ∷ []) (k n) (q n))
    cut_off-Cut held log (call (close available) k) q = λ u.
        moved log (close available) u _
          (cut_off-Cut false (log ++ (close available, u) ∷ []) (k u) (q u))
    cut_off-Cut held log (call (send c) k) q =
        on_time-Cut held log c (λ r. cut_off H R J p held (k r))
          (λ r. cut_off-Cut held (log ++ (send c, r) ∷ []) (k r) (q r))
