-- ===== src/Redis/Provider/Keys.antt =====
-- The keys of a provider of src/redis_admission.rs do not conflict.
use Prim.Native.String
use mathlib.Core.List.{append_assoc}
use http_gateway.Prelude.{
  ℕ, ◌≤◌, String, ◌≡◌, ◌≢◌, refl, sym, ap, ◌∙◌, Bool, true, false, some, ok, List, [], ◌∷◌, ◌++◌,
  arith, leb, str_eq, eq_iff, Duration,
}
use http_gateway.Redis.Acquire.{Provider}
use http_gateway.Redis.Policy.{chars}
use http_gateway.Redis.Replies.{u64_max, show, show_digits}
use http_gateway.Redis.Replies.Numbers.{Reads, show_digits-Reads, chars-append}
use http_gateway.Redis.Lease.{Holder, limit_key, gateway_key}
use http_gateway.Redis.Lease.Configuration.{GatewayLeaseConfig, GatewayLease, start_lease}
use http_gateway.Redis.Lease.Starting.{start_lease-eq}
use http_gateway.Redis.Provider.{
  with_ttl, policy_key, counts_key_of, strip_prefix, drop_plus, parse_usize, slot_number,
  is_participation_key, Participant, with_gateway_limit,
}

strip_prefix-append : (xs ys : List ℕ) → strip_prefix xs (xs ++ ys) ≡ some ys
unfolding strip_prefix
strip_prefix-append [] ys = refl
strip_prefix-append (x ∷ xs) ys = ground (arith, strip_prefix-append xs ys)

drop_plus-Reads : (n : ℕ) (xs : List ℕ) → Reads n xs → drop_plus xs ≡ xs
drop_plus-Reads n [] r = refl
drop_plus-Reads n (x ∷ xs) r = ground (arith, r.all_digits)

parse_usize-Reads : (n : ℕ) (xs : List ℕ) → Reads n xs → n ≤ u64_max → parse_usize xs ≡ some n
parse_usize-Reads n xs r e =
    let fits : leb n u64_max ≡ true = ground arith in
    rw (drop_plus-Reads n xs r, r.some_digit, r.all_digits, r.worth, fits) refl

-- Every number of 64 bits is read back from its text.
parse_usize-show : (n : ℕ) → n ≤ u64_max → parse_usize (chars (show n)) ≡ some n
unfolding show
parse_usize-show n e =
    parse_usize-Reads n (chars (show_digits 20 n)) (show_digits-Reads 19 n (omega (arith, e))) e

chars-gateway_key :
    (h : Holder) (slot : ℕ)
    → chars (gateway_key h slot) ≡ chars (String.◌++◌ h.prefix ":gateway:") ++ chars (show slot)
chars-gateway_key h slot =
    chars-append h.prefix (String.◌++◌ ":gateway:" (show slot))
    ∙ ap (λ x. chars h.prefix ++ x) (chars-append ":gateway:" (show slot))
    ∙ sym (append_assoc (chars h.prefix) (chars ":gateway:") (chars (show slot)))
    ∙ ap (λ x. x ++ chars (show slot)) (sym (chars-append h.prefix ":gateway:"))

is_participation_key-gateway_key :
    (h : Holder) (slot : ℕ)
    → slot ≤ u64_max
    → is_participation_key h.prefix (gateway_key h slot) ≡ true
unfolding is_participation_key
is_participation_key-gateway_key h slot e =
    let stripped =
      strip_prefix-append (chars (String.◌++◌ h.prefix ":gateway:")) (chars (show slot)) in
    let parsed = parse_usize-show slot e in
    rw (chars-gateway_key h slot, stripped, slot_number, parsed) (ground arith)

is_participation_key-limit_key : (h : Holder) → is_participation_key h.prefix (limit_key h) ≡ true
unfolding is_participation_key
is_participation_key-limit_key h =
    let self : str_eq (limit_key h) (limit_key h) ≡ true =
      (eq_iff (limit_key h) (limit_key h)).1 refl in
    rw self refl

-- The keys that a provider with participation uses beside its address key.
pub record AreApart (p : Provider) (h : Holder) : Type 0 where
  pub policy_apart : p.recorder_url_key ≢ policy_key p.key_prefix
  pub counts_apart : p.recorder_url_key ≢ p.counts_key
  pub limit_apart : p.recorder_url_key ≢ limit_key h
  pub slots_apart : (slot : ℕ) → slot ≤ u64_max → p.recorder_url_key ≢ gateway_key h slot

with_ttl-apart :
    (prefix key : String) (ttl : Duration) (p : Provider)
    → with_ttl prefix key ttl ≡ ok p
    → (p.key_prefix ≡ prefix)
      × (p.recorder_url_key ≡ key)
      × (p.counts_key ≡ counts_key_of prefix)
      × (str_eq key (policy_key prefix) ≡ false)
      × (str_eq key (counts_key_of prefix) ≡ false)
unfolding with_ttl
with_ttl-apart prefix key ttl p e = ground arith

with_gateway_limit-eq :
    (x y : Participant) (c : GatewayLeaseConfig) (runtime : Bool) (a b : ℕ)
    → with_gateway_limit x c runtime a b ≡ ok y
    → (l : GatewayLease) × (start_lease x.provider.key_prefix c runtime a b ≡ ok l)
      × (y ≡ record x { participation = some l })
      × (is_participation_key x.provider.key_prefix x.provider.recorder_url_key ≡ false)
unfolding with_gateway_limit
with_gateway_limit-eq x y c runtime a b e = ground arith

text_apart : (s t : String) → str_eq s t ≡ false → s ≢ t
text_apart s t e same = let bad = (eq_iff s t).1 same in ground arith

-- A provider that `with_ttl` and `with_gateway_limit` accept reads the recorder's address from a key
-- that is neither that of the policy nor of the counts nor of the limit, nor the slot of any gateway
-- with a number of 64 bits.
pub with_gateway_limit-AreApart :
    (prefix key : String) (ttl : Duration) (p : Provider) (x y : Participant)
    (c : GatewayLeaseConfig) (runtime : Bool) (a b : ℕ)
    → with_ttl prefix key ttl ≡ ok p
    → x.provider ≡ p
    → with_gateway_limit x c runtime a b ≡ ok y
    → (l : GatewayLease) × (y.participation ≡ some l) × (y.provider ≡ p) × AreApart p l.holder
with_gateway_limit-AreApart prefix key ttl p x y c runtime a b built same accepted =
    let (prefix_is, key_is, counts_is, policy_no, counts_no) =
      with_ttl-apart prefix key ttl p built in
    let (l, starts, y_is, clear_of) = with_gateway_limit-eq x y c runtime a b accepted in
    let holder_prefix : l.holder.prefix ≡ p.key_prefix =
      (start_lease-eq _ c runtime a b l starts).0 ∙ ap (λ q. q.key_prefix) same in
    let none_of : is_participation_key l.holder.prefix p.recorder_url_key ≡ false =
      rw (holder_prefix, sym same) clear_of in
    (
      l,
      ap (λ z. z.participation) y_is,
      ap (λ z. z.provider) y_is ∙ same,
      record {
        policy_apart = rw (key_is, prefix_is) (text_apart key (policy_key prefix) policy_no);
        counts_apart = rw (key_is, counts_is) (text_apart key (counts_key_of prefix) counts_no);
        limit_apart = λ e.
            let bad : true ≡ false =
              sym (is_participation_key-limit_key l.holder)
              ∙ ap (is_participation_key l.holder.prefix) (sym e)
              ∙ none_of in
            cc;
        slots_apart = λ slot small e.
            let bad : true ≡ false =
              sym (is_participation_key-gateway_key l.holder slot small)
              ∙ ap (is_participation_key l.holder.prefix) (sym e)
              ∙ none_of in
            cc;
      },
    )
