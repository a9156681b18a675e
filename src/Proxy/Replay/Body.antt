-- ===== src/Proxy/Replay/Body.antt =====
-- `ReplayBody` of src/proxy/replay.rs: the frames of a body that is held in memory.
use mathlib.Core.List.{append-nil}
use http_gateway.Prelude.{
  ℕ, suc, ◌≡◌, refl, ◌↔◌, Bool, true, not, ◌&&◌, Option, none, some, List, [], ◌∷◌, ◌++◌,
  if◌then◌else◌, is_empty, is_some, length,
}

pub data Frame (Headers : Type 0) : Type 0 where
  frame_data : List ℕ → Frame Headers
  frame_trailers : Headers → Frame Headers

pub record ReplayBody (Headers : Type 0) : Type 0 where
  pub bytes : Option (List ℕ)
  pub trailers : Option Headers

module _ {Headers : Type 0} where
  -- `(!bytes.is_empty()).then_some(bytes)`.
  unfoldable pub replay_body : List ℕ → Option Headers → ReplayBody Headers
  replay_body bytes trailers = record {
    bytes = if not (is_empty bytes) then some bytes else none;
    trailers = trailers;
  }

  poll_trailers : ReplayBody Headers → Option (Frame Headers) × ReplayBody Headers
  poll_trailers b = elim b.trailers [
    | none ↦ (none, record b { trailers = none })
    | some trailers ↦ (some (frame_trailers trailers), record b { trailers = none })
  ]

  -- One `poll_frame`, which is always ready: the frame, and the body after it.
  unfoldable pub poll_frame : ReplayBody Headers → Option (Frame Headers) × ReplayBody Headers
  unfolding poll_trailers
  poll_frame b = elim b.bytes [
    | none ↦ poll_trailers b
    | some bytes ↦
        if not (is_empty bytes)
        then (some (frame_data bytes), record b { bytes = none })
        else poll_trailers (record b { bytes = none })
  ]

  unfoldable pub is_end_stream : ReplayBody Headers → Bool
  is_end_stream b = not (is_some b.bytes) && not (is_some b.trailers)

  -- The exact length, where one is given.
  unfoldable pub size_hint : ReplayBody Headers → Option ℕ
  size_hint b = elim b.trailers [
    | some t ↦ none
    | none ↦ some (elim b.bytes [ none ↦ 0 | some bytes ↦ length bytes ])
  ]

  -- The frames that `n` polls give.
  unfoldable pub frames : ℕ → ReplayBody Headers → List (Frame Headers)
  unfolding poll_frame
  frames ℕ.zero b = []
  frames (suc n) b = elim (poll_frame b).0 [ none ↦ [] | some f ↦ f ∷ frames n (poll_frame b).1 ]

  abbrev pub payload : List (Frame Headers) → List ℕ
  payload [] = []
  payload (frame_data d ∷ fs) = d ++ payload fs
  payload (frame_trailers t ∷ fs) = payload fs

  abbrev pub all_trailers : List (Frame Headers) → List Headers
  all_trailers [] = []
  all_trailers (frame_data d ∷ fs) = all_trailers fs
  all_trailers (frame_trailers t ∷ fs) = t ∷ all_trailers fs

  abbrev pub to_list : Option Headers → List Headers
  to_list none = []
  to_list (some t) = t ∷ []

  -- However often it is polled, at least three times, the body gives the collected bytes and
  -- trailers, each where there are some; it is at its end from the start exactly where it gives no
  -- frame; and an exact length is given exactly where there are no trailers, as the number of bytes.
  pub frames-replay_body :
      (n : ℕ) (bytes : List ℕ) (t : Option Headers)
      → let b = replay_body bytes t in
        let fs = frames (suc (suc (suc n))) b in
        (payload fs ≡ bytes)
        × (all_trailers fs ≡ to_list t)
        × ((is_end_stream b ≡ true) ↔ (fs ≡ []))
        × (size_hint b ≡ (if is_some t then none else some (length bytes)))
  unfolding frames replay_body is_end_stream size_hint
  frames-replay_body n [] none = (refl, refl, ((λ _. refl), (λ _. refl)), refl)
  frames-replay_body n [] (some t) = (refl, refl, ((λ e. cc), (λ e. cc)), refl)
  frames-replay_body n (x ∷ xs) none = (append-nil (x ∷ xs), refl, ((λ e. cc), (λ e. cc)), refl)
  frames-replay_body n (x ∷ xs) (some t) = (append-nil (x ∷ xs), refl, ((λ e. cc), (λ e. cc)), refl)
