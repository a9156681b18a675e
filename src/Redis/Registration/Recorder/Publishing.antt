-- ===== src/Redis/Registration/Recorder/Publishing.antt =====
-- What a registration of src/redis_admission/registration.rs leaves on the writer, and what a gateway
-- reads of it.
use http_gateway.Prelude.{
  ℕ, suc, ◌+◌, ◌/◌, ◌%◌, ◌≤◌, ◌<◌, String, ◌≡◌, refl, sym, ap, ◌∙◌, Bool, true, false, not, ◌&&◌,
  Option, none, some, Result, ok, List, [], ◌∷◌, ◌++◌, arith, all, is_white, is_some, str_eq,
  if◌then◌else◌, Duration, head?,
}
use http_gateway.External.Http.{Http}
use http_gateway.External.Json.{Json, JsonText}
use http_gateway.External.Redis.{Writer, complete, renew, reply, bulk_string}
use http_gateway.Admission.{AdmissionError}
use http_gateway.Redis.Execution.{run_sent, stored}
use http_gateway.Redis.Policy.{chars}
use http_gateway.Redis.Replies.{hex, read_reserved}
use http_gateway.Redis.Replies.Numbers.{digit_code, chars-append, chars-digit}
use http_gateway.Redis.Registration.{trim_white, starts_with_brace, origin}
use http_gateway.Redis.Registration.Recorder.{
  RecorderRegistration, address_of, new_registration, register_recorder, renew_recorder, unregister,
}
use http_gateway.Redis.Scripts.{holds_token, run_script, run_set}
use http_gateway.Redis.Scripts.Effects.{
  read_transition-complete, read_transition-renew, read-complete, read-renew, read_reserved-run_set,
  read-run_set,
}
use http_gateway.Redis.Scripts.Ownership.{run_set-granted}
use http_gateway.Redis.Utf8.Encoding.{as_bytes}
use http_gateway.Redis.Utf8.Decoding.{decode-as_bytes}

-- A digit is no white space, so a random owner is not blank.
is_white-digit_code : (n : ℕ) → n < 16 → is_white (digit_code n) ≡ false
unfolding is_white
is_white-digit_code n e = ground arith

all_white-append : (xs : List ℕ) (y : ℕ) → is_white y ≡ false → all is_white (xs ++ y ∷ []) ≡ false
all_white-append [] y e = ground arith
all_white-append (x ∷ xs) y e = ground (arith, all_white-append xs y e)

hex_visible : (k n : ℕ) → all is_white (chars (hex (suc k) n)) ≡ false
unfolding hex
hex_visible k n =
    rw (chars-append, chars-digit (n % 16) (omega arith))
      (all_white-append (chars (hex k (n / 16))) (digit_code (n % 16))
        (is_white-digit_code (n % 16) (omega arith)))

braced : (xs : List ℕ) → head? xs ≡ some 123 → starts_with_brace (trim_white xs) ≡ true
unfolding trim_white is_white
braced [] e = cc
braced (x ∷ xs) e = ground arith

module _ (H : Http) (J : Json) (T : JsonText J chars) (uri_to_string : H.Uri → List ℕ) where
  new_registration-value :
      (key : String) (url : H.Uri) (ttl : Duration) (random : ℕ) (g : RecorderRegistration)
      → new_registration H J T uri_to_string key url ttl random ≡ ok g
      → (T.serialize_address (address_of H J T uri_to_string url random) ≡ some g.value)
        × (0 < g.ttl_ms)
        × (g.key ≡ key)
  unfolding new_registration
  new_registration-value key url ttl random g e = ground arith

  origin-value :
      (key : String) (url : H.Uri) (ttl : Duration) (random : ℕ) (g : RecorderRegistration)
      → new_registration H J T uri_to_string key url ttl random ≡ ok g
      → H.parse_uri (uri_to_string url) ≡ some url
      → origin H J (as_bytes g.value) ≡ ok url
  unfolding origin
  origin-value key url ttl random g e shown =
      let (written, positive, same) = new_registration-value key url ttl random g e in
      let a = address_of H J T uri_to_string url random in
      let brace = braced (chars g.value) (T.head?-serialize_address a g.value written) in
      let read = T.parse_address-serialize_address a g.value written in
      rw (decode-as_bytes g.value, brace, read, hex_visible 31 random, shown) refl

  -- A recorder that registers where the key is free publishes its URL: until the time to live is over, a
  -- gateway that reads the key finds a value from which it takes that URL. The URL's text is one that is
  -- read back as the URL.
  pub register_recorder-origin :
      (W : Writer) (key : String) (url : H.Uri) (ttl : Duration) (random : ℕ)
      (g : RecorderRegistration) (s : W.Store) (now later : ℕ)
      → new_registration H J T uri_to_string key url ttl random ≡ ok g
      → H.parse_uri (uri_to_string url) ≡ some url
      → W.read s now key ≡ none
      → now ≤ later
      → later < now + g.ttl_ms
      → (s' : W.Store) × (run_sent W now (register_recorder g) s ≡ some (ok true, s'))
        × (stored (W.read s' later key) ≡ bulk_string (as_bytes g.value))
        × (origin H J (as_bytes g.value) ≡ ok url)
  unfolding register_recorder
  register_recorder-origin W key url ttl random g s now later e shown free after alive =
      let (written, positive, same) = new_registration-value key url ttl random g e in
      let free_key : W.read s now g.key ≡ none = rw same free in
      let granted : read_reserved (reply (run_set W s now g.key g.value g.ttl_ms).0) ≡ ok true =
        read_reserved-run_set W s now g.key g.value g.ttl_ms positive
        ∙ ap (λ (o : Option (String × ℕ)). ok (not (is_some o))) free_key in
      let held = (run_set-granted W s now g.key g.value g.ttl_ms positive granted).1 in
      let still =
        W.read-later (run_set W s now g.key g.value g.ttl_ms).1 now later g.key g.value
          (now + g.ttl_ms) held after alive in
      (
        (run_set W s now g.key g.value g.ttl_ms).1,
        ap (λ r. some (r, (run_set W s now g.key g.value g.ttl_ms).1)) granted,
        ap stored (ap (W.read (run_set W s now g.key g.value g.ttl_ms).1 later) (sym same) ∙ still),
        origin-value key url ttl random g e shown,
      )

module _ (W : Writer) (g : RecorderRegistration) (s : W.Store) (now : ℕ) where
  abbrev pub is_registered : Bool
  is_registered = holds_token W (W.read s now g.key) g.value

  -- An operation answers and leaves, of every key, what is given.
  abbrev pub Leaves :
      Option (Result AdmissionError Bool × W.Store) → Bool → Option (String × ℕ) → Type 0
  Leaves r answer slot =
      (s' : W.Store) × (r ≡ some (ok answer, s'))
      × ((k : String)
          → W.read s' now k ≡ (if str_eq g.key k && answer then slot else W.read s now k))

  -- With a positive time to live, registering answers whether the key was free, and takes it then; renewing and unregistering answer
  -- whether it held this registration's value, and prolong or free it then. No operation changes
  -- another key, or replaces a recorder that lives.
  pub registration_lem :
      0 < g.ttl_ms
      → Leaves
          (run_sent W now (register_recorder g) s)
          (not (is_some (W.read s now g.key)))
          (some (g.value, now + g.ttl_ms))
        × Leaves
            (run_sent W now (renew_recorder g) s)
            is_registered
            (some (g.value, now + g.ttl_ms))
        × Leaves (run_sent W now (unregister g) s) is_registered none
  unfolding register_recorder renew_recorder unregister
  registration_lem positive = (
    (
      (run_set W s now g.key g.value g.ttl_ms).1,
      ap (λ r. some (r, (run_set W s now g.key g.value g.ttl_ms).1))
          (read_reserved-run_set W s now g.key g.value g.ttl_ms positive),
      (λ k. read-run_set W s now g.key g.value g.ttl_ms k positive),
    ),
    (
      (run_script W renew s now g.key g.value (some g.ttl_ms)).1,
      ap (λ r. some (r, (run_script W renew s now g.key g.value (some g.ttl_ms)).1))
          (read_transition-renew W s now g.key g.value _ g.ttl_ms),
      (λ k. read-renew W s now g.key g.value g.ttl_ms k positive),
    ),
    (
      (run_script W complete s now g.key g.value (some g.ttl_ms)).1,
      ap (λ r. some (r, (run_script W complete s now g.key g.value (some g.ttl_ms)).1))
          (read_transition-complete W s now g.key g.value _ (some g.ttl_ms)),
      read-complete W s now g.key g.value (some g.ttl_ms),
    ),
  )
