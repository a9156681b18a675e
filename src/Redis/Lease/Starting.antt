-- ===== src/Redis/Lease/Starting.antt =====
-- Which leases start, and that the gateways that start them are set up for the participation:
-- src/redis_admission/lease.rs.
use Prim.Native.String
use http_gateway.Prelude.{
  ℕ, ◌*◌, ◌^◌, ◌≤◌, ◌<◌, String, ◌≡◌, ◌≢◌, sym, ap, ◌∙◌, Bool, List, [], ◌∷◌, ◌++◌, arith, length,
  length-append, ok, from_millis,
}
use http_gateway.Redis.Policy.{chars, i64_max}
use http_gateway.Redis.Replies.{hex}
use http_gateway.Redis.Replies.Numbers.{chars-append, length-hex, hex-injective}
use http_gateway.Redis.Lease.Configuration.{
  GatewayLeaseConfig, validate, GatewayLease, instance_name, start_lease,
}
use mathlib.Core.List.{append_assoc}

-- Texts with the same text and equally long ends have the same ends.
same_end : (aa bb xs ys : List ℕ) → length xs ≡ length ys → aa ++ xs ≡ bb ++ ys → xs ≡ ys
same_end [] [] xs ys len e = e
same_end [] (b ∷ bb) xs ys len e = absurd (omega (arith, len, ap length e, length-append bb ys))
same_end (a ∷ aa) [] xs ys len e = absurd (omega (arith, len, ap length e, length-append aa xs))
same_end (a ∷ aa) (b ∷ bb) xs ys len e = same_end aa bb xs ys len (cc)

-- The times of a lease: whole milliseconds, positive, that fit the writer's numbers; three refreshes fit
-- into its time to live.
pub record IsTimed (c : GatewayLeaseConfig) (l : GatewayLease) : Type 0 where
  pub whole : c.lease_ttl ≡ from_millis l.holder.lease_ttl
  pub positive : 0 < l.holder.lease_ttl
  pub bounded : l.holder.lease_ttl ≤ i64_max
  pub refreshes : 0 < l.refresh_interval
  pub thrice : 3 * l.refresh_interval ≤ from_millis l.holder.lease_ttl

start_lease-IsTimed :
    (prefix : String) (c : GatewayLeaseConfig) (runtime : Bool) (a b : ℕ) (l : GatewayLease)
    → start_lease prefix c runtime a b ≡ ok l
    → IsTimed c l
unfolding start_lease validate
start_lease-IsTimed prefix c runtime a b l e = record {
  whole = ground arith;
  positive = ground arith;
  bounded = ground arith;
  refreshes = ground arith;
  thrice = ground arith;
}

pub start_lease-eq :
    (prefix : String) (c : GatewayLeaseConfig) (runtime : Bool) (a b : ℕ) (l : GatewayLease)
    → start_lease prefix c runtime a b ≡ ok l
    → (l.holder.prefix ≡ prefix)
      × (l.holder.token ≡ String.◌++◌ (instance_name c.instance_id a) (String.◌++◌ ":" (hex 32 b)))
unfolding start_lease
start_lease-eq prefix c runtime a b l e = ground arith

chars_token :
    (id : String) (b : ℕ)
    → chars (String.◌++◌ id (String.◌++◌ ":" (hex 32 b)))
      ≡ chars id ++ chars ":" ++ chars (hex 32 b)
chars_token id b =
    chars-append id (String.◌++◌ ":" (hex 32 b))
    ∙ ap (λ x. chars id ++ x) (chars-append ":" (hex 32 b))
    ∙ sym (append_assoc (chars id) (chars ":") (chars (hex 32 b)))

-- Tokens with different random numbers are different, whatever the names of the gateways.
token-injective :
    (id other : String) (b c : ℕ)
    → b < 16 ^ 32
    → c < 16 ^ 32
    → String.◌++◌ id (String.◌++◌ ":" (hex 32 b)) ≡ String.◌++◌ other (String.◌++◌ ":" (hex 32 c))
    → b ≡ c
token-injective id other b c small small' e = hex-injective 32 b c small small' (
    same_end (chars id ++ chars ":") (chars other ++ chars ":") _ _
      (length-hex 32 b ∙ sym (length-hex 32 c))
      (sym (chars_token id b) ∙ ap chars e ∙ chars_token other c))

-- Two gateways that start with different random numbers of 128 bits have different tokens, whatever
-- their names and prefixes, as the participation asks of them; and the time to live of each is positive,
-- in whole milliseconds that fit the writer, and holds three of its refresh intervals.
pub start_lease-apart :
    (prefix other : String) (c d : GatewayLeaseConfig) (runtime : Bool) (a b a' b' : ℕ)
    (l k : GatewayLease)
    → start_lease prefix c runtime a b ≡ ok l
    → start_lease other d runtime a' b' ≡ ok k
    → b < 2 ^ 128
    → b' < 2 ^ 128
    → b ≢ b'
    → (l.holder.token ≢ k.holder.token) × IsTimed c l × IsTimed d k
start_lease-apart prefix other c d runtime a b a' b' l k e e' small small' differ =
    let here = start_lease-eq prefix c runtime a b l e in
    let there = start_lease-eq other d runtime a' b' k e' in
    (
      (λ same. differ (
          token-injective _ _ b b' (omega (arith, small)) (omega (arith, small'))
            (sym here.1 ∙ same ∙ there.1))),
      start_lease-IsTimed prefix c runtime a b l e,
      start_lease-IsTimed other d runtime a' b' k e',
    )
