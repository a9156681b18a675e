-- ===== src/Tests/Keys.antt =====
-- Concrete functions in the place of the writer: each key has a value and the end of its life.
use http_gateway.Prelude.{
  ℕ, ◌+◌, ◌≤◌, ◌<◌, String, ◌≡◌, refl, not, ◌&&◌, Option, none, some, arith, ltb, is_some, str_eq,
  if◌then◌else◌,
}
use http_gateway.External.Redis.{Writer}

abbrev pub Keys : Type 0
Keys = String → Option (String × ℕ)

abbrev pub alive : ℕ → Option (String × ℕ) → Option (String × ℕ)
alive now none = none
alive now (some (value, end)) = if ltb now end then some (value, end) else none

abbrev pub look : Keys → ℕ → String → Option (String × ℕ)
look s now key = alive now (s key)

abbrev pub put_absent : Keys → ℕ → String → String → ℕ → Keys
put_absent s now key value ttl k =
    if str_eq key k && not (is_some (look s now key)) then some (value, now + ttl) else s k

abbrev pub drop : Keys → ℕ → String → Keys
drop s now key k = if str_eq key k then none else s k

abbrev pub retime : ℕ → Option (String × ℕ) → Option (String × ℕ)
retime end none = none
retime end (some (value, old)) = some (value, end)

abbrev pub prolong : Keys → ℕ → String → ℕ → Keys
prolong s now key ttl k = if str_eq key k then retime (now + ttl) (look s now key) else s k

pub alive-later :
    (now later : ℕ) (o : Option (String × ℕ)) (value : String) (end : ℕ)
    → alive now o ≡ some (value, end)
    → now ≤ later
    → later < end
    → alive later o ≡ some (value, end)
alive-later now later none value end e le lt = cc
alive-later now later (some (v, d)) value end e le lt = ground arith

pub look-put_absent :
    (s : Keys) (now : ℕ) (key value : String) (ttl : ℕ) (k : String)
    → 0 < ttl
    → look (put_absent s now key value ttl) now k ≡ (
        if str_eq key k && not (is_some (look s now key))
        then some (value, now + ttl)
        else look s now k)
look-put_absent s now key value ttl k positive = ground arith

pub look-drop :
    (s : Keys) (now : ℕ) (key k : String)
    → look (drop s now key) now k ≡ (if str_eq key k then none else look s now k)
look-drop s now key k = ground arith

pub look-prolong :
    (s : Keys) (now : ℕ) (key value : String) (end ttl : ℕ) (k : String)
    → 0 < ttl
    → look s now key ≡ some (value, end)
    → look (prolong s now key ttl) now k
      ≡ (if str_eq key k then some (value, now + ttl) else look s now k)
look-prolong s now key value end ttl k positive e = ground arith

abbrev pub keys : Writer
keys = record {
  Store = Keys;
  read = look;
  set_nx_px =
      λ s now key value ttl. (not (is_some (look s now key)), put_absent s now key value ttl);
  del = drop;
  pexpire = prolong;
  read-later = λ s now later key value end e le lt. alive-later now later (s key) value end e le lt;
  set_nx_px_lem = λ s now key value ttl positive. refl;
  read-set_nx_px = λ s now key value ttl k positive. look-put_absent s now key value ttl k positive;
  read-del = look-drop;
  read-pexpire =
      λ s now key value end ttl k positive e. look-prolong s now key value end ttl k positive e;
}
