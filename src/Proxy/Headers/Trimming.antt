-- ===== src/Proxy/Headers/Trimming.antt =====
-- The blanks around a token of a header value, as `trim_ascii` of src/proxy.rs takes them off.
use mathlib.Core.List.{append-nil}
use http_gateway.Prelude.{
  ℕ, ◌≡◌, refl, sym, ap, subst, ◌∙◌, ◌⊎◌, inl, inr, List, [], ◌∷◌, ◌++◌, All, true, false, ◌==◌,
  arith, Bool-cases,
}
use http_gateway.Proxy.Headers.{is_blank_byte, trim_front, trim_back, trim_ascii}

-- A blank: a space or a tab.
abbrev pub IsBlank : ℕ → Type 0
IsBlank b = (b ≡ 32) ⊎ (b ≡ 9)

abbrev pub StartsBare : List ℕ → Type 0
StartsBare [] = Unit {0}
StartsBare (b ∷ bs) = ¬ IsBlank b

abbrev pub EndsBare : List ℕ → Type 0
EndsBare [] = Unit {0}
EndsBare (b ∷ []) = ¬ IsBlank b
EndsBare (b ∷ c ∷ bs) = EndsBare (c ∷ bs)

-- A token is a text with blanks around it.
pub record IsTrimmed (token core : List ℕ) : Type 0 where
  pub front : List ℕ
  pub back : List ℕ
  pub around : token ≡ front ++ (core ++ back)
  pub blank_front : All IsBlank front
  pub blank_back : All IsBlank back
  pub starts : StartsBare core
  pub ends : EndsBare core

blank_byte : (b : ℕ) → IsBlank b → is_blank_byte b ≡ true
blank_byte b (inl e) = ground (arith, e)
blank_byte b (inr e) = ground (arith, e)

byte-IsBlank : (b : ℕ) → is_blank_byte b ≡ true → IsBlank b
byte-IsBlank b e = elim (Bool-cases (b == 32)) [
  | inl s ↦ inl (ground (arith, s))
  | inr o ↦ inr (ground (arith, o, e))
]

byte_bare : (b : ℕ) → is_blank_byte b ≡ false → ¬ IsBlank b
byte_bare b e i = let bad : true ≡ false = sym (blank_byte b i) ∙ e in cc

bare_byte : (b : ℕ) → ¬ IsBlank b → is_blank_byte b ≡ false
bare_byte b h = elim (Bool-cases (is_blank_byte b)) [
  | inl e ↦ absurd (h (byte-IsBlank b e))
  | inr e ↦ e
]

trim_front-blanks :
    (front rest : List ℕ) → All IsBlank front → trim_front (front ++ rest) ≡ trim_front rest
unfolding trim_front
trim_front-blanks [] rest h = refl
trim_front-blanks (b ∷ bs) rest h =
    rw (trim_front, blank_byte b h.0) (trim_front-blanks bs rest h.1)

trim_back-blanks : (back : List ℕ) → All IsBlank back → trim_back back ≡ []
unfolding trim_back
trim_back-blanks [] h = refl
trim_back-blanks (b ∷ bs) h = rw (trim_back, trim_back-blanks bs h.1, blank_byte b h.0) refl

trim_back-core :
    (core back : List ℕ) → EndsBare core → All IsBlank back → trim_back (core ++ back) ≡ core
unfolding trim_back
trim_back-core [] back e h = trim_back-blanks back h
trim_back-core (b ∷ []) back e h = rw (trim_back, trim_back-blanks back h, bare_byte b e) refl
trim_back-core (b ∷ c ∷ bs) back e h = rw (trim_back, trim_back-core (c ∷ bs) back e h) refl

trim_front-bare : (b : ℕ) (bs : List ℕ) → ¬ IsBlank b → trim_front (b ∷ bs) ≡ b ∷ bs
unfolding trim_front
trim_front-bare b bs h = rw (trim_front, bare_byte b h) refl

trim_ascii-core :
    (core back : List ℕ)
    → StartsBare core
    → EndsBare core
    → All IsBlank back
    → trim_back (trim_front (core ++ back)) ≡ core
unfolding trim_back trim_front
trim_ascii-core [] back s e h =
    ap trim_back (ap trim_front (sym (append-nil back)) ∙ trim_front-blanks back [] h)
trim_ascii-core (b ∷ bs) back s e h =
    ap trim_back (trim_front-bare b (bs ++ back) s) ∙ trim_back-core (b ∷ bs) back e h

-- What is trimmed is the text between the blanks, and there is no other.
pub trim_ascii_unique : (token core : List ℕ) → IsTrimmed token core → trim_ascii token ≡ core
unfolding trim_ascii
trim_ascii_unique token core t =
    ap trim_ascii t.around
    ∙ ap trim_back (trim_front-blanks t.front (core ++ t.back) t.blank_front)
    ∙ trim_ascii-core core t.back t.starts t.ends t.blank_back

-- What the two loops leave of a text.
record Fronted (bytes : List ℕ) : Type 0 where
  front : List ℕ
  around : bytes ≡ front ++ trim_front bytes
  blank : All IsBlank front
  starts : StartsBare (trim_front bytes)

trim_front-Fronted : (bytes : List ℕ) → Fronted bytes
unfolding trim_front
trim_front-Fronted [] = record { front = []; around = refl; blank = tt; starts = tt }
trim_front-Fronted (b ∷ bs) = elim (Bool-cases (is_blank_byte b)) [
  | inl e ↦
      let f = trim_front-Fronted bs in
      record {
        front = b ∷ f.front;
        around = rw (trim_front, e) (ap (λ l. b ∷ l) f.around);
        blank = (byte-IsBlank b e, f.blank);
        starts = rw (trim_front, e) f.starts;
      }
  | inr e ↦ record {
    front = [];
    around = rw (trim_front, e) refl;
    blank = tt;
    starts = rw (trim_front, e) (byte_bare b e);
  }
]

record Backed (bytes : List ℕ) : Type 0 where
  back : List ℕ
  around : bytes ≡ trim_back bytes ++ back
  blank : All IsBlank back
  ends : EndsBare (trim_back bytes)
  starts : StartsBare bytes → StartsBare (trim_back bytes)

-- One byte more in front.
Backed-cons :
    (b : ℕ) (bs rest back : List ℕ)
    → trim_back bs ≡ rest
    → bs ≡ rest ++ back
    → All IsBlank back
    → EndsBare rest
    → Backed (b ∷ bs)
unfolding trim_back
Backed-cons b bs [] back t around blank ends = elim (Bool-cases (is_blank_byte b)) [
  | inl e ↦ record {
    back = b ∷ bs;
    around = rw (trim_back, t, e) refl;
    blank = (byte-IsBlank b e, subst (All IsBlank) (sym around) blank);
    ends = rw (trim_back, t, e) tt;
    starts = λ s. rw (trim_back, t, e) tt;
  }
  | inr e ↦ record {
    back = back;
    around = rw (trim_back, t, e) (ap (λ l. b ∷ l) around);
    blank = blank;
    ends = rw (trim_back, t, e) (byte_bare b e);
    starts = λ s. rw (trim_back, t, e) s;
  }
]
Backed-cons b bs (c ∷ rest) back t around blank ends = record {
  back = back;
  around = rw (trim_back, t) (ap (λ l. b ∷ l) around);
  blank = blank;
  ends = rw (trim_back, t) ends;
  starts = λ s. rw (trim_back, t) s;
}

trim_back-Backed : (bytes : List ℕ) → Backed bytes
unfolding trim_back
trim_back-Backed [] = record { back = []; around = refl; blank = tt; ends = tt; starts = λ s. s }
trim_back-Backed (b ∷ bs) =
    let d = trim_back-Backed bs in
    Backed-cons b bs (trim_back bs) d.back refl d.around d.blank d.ends

pub trim_ascii-IsTrimmed : (token : List ℕ) → IsTrimmed token (trim_ascii token)
unfolding trim_ascii
trim_ascii-IsTrimmed token =
    let f = trim_front-Fronted token in
    let d = trim_back-Backed (trim_front token) in
    record {
      front = f.front;
      back = d.back;
      around = f.around ∙ ap (λ l. f.front ++ l) d.around;
      blank_front = f.blank;
      blank_back = d.blank;
      starts = d.starts f.starts;
      ends = d.ends;
    }
