-- ===== src/Redis/Lease/Participation.antt =====
-- How many gateways participate at once: src/redis_admission/lease.rs.
use mathlib.Core.Option.{some-injective}
use http_gateway.Prelude.{
  ℕ, zero, suc, ◌≤◌, ◌<◌, String, ◌≡◌, ◌≢◌, refl, sym, ap, subst, ◌∙◌, inl, inr, true, false,
  Option, some, List, [], ◌∷◌, arith, All, length, ltb→lt, ◌==◌, if◌then◌else◌, Bool-cases,
  Option-cases,
}
use http_gateway.External.Redis.{Writer}
use http_gateway.Redis.Lease.{Holder, gateway_key, is_valid}
use http_gateway.Redis.Lease.World.{World, Reach, start}
use http_gateway.Redis.Lease.Steps.{AllGood, AreSetUp, Reach-AllGood, start-AllGood}

abbrev pub AreDistinct : List ℕ → Type 0
AreDistinct [] = Unit {0}
AreDistinct (x ∷ xs) = All (λ y. x ≢ y) xs × AreDistinct xs

unfoldable without : ℕ → List ℕ → List ℕ
without n [] = []
without n (x ∷ xs) = let rest = without n xs in if x == n then rest else x ∷ rest

without-All : (P : ℕ → Type 0) (n : ℕ) (xs : List ℕ) → All P xs → All P (without n xs)
unfolding without
without-All P n [] h = tt
without-All P n (x ∷ xs) h = elim (Bool-cases (x == n)) [
  | inl same ↦ rw same (without-All P n xs h.1)
  | inr apart ↦ rw apart (h.0, without-All P n xs h.1)
]

without-AreDistinct : (n : ℕ) (xs : List ℕ) → AreDistinct xs → AreDistinct (without n xs)
unfolding without
without-AreDistinct n [] h = tt
without-AreDistinct n (x ∷ xs) h = elim (Bool-cases (x == n)) [
  | inl same ↦ rw same (without-AreDistinct n xs h.1)
  | inr apart ↦ rw apart (without-All (λ y. x ≢ y) n xs h.0, without-AreDistinct n xs h.1)
]

without-lt : (n : ℕ) (xs : List ℕ) → All (λ x. x < suc n) xs → All (λ x. x < n) (without n xs)
unfolding without
without-lt n [] h = tt
without-lt n (x ∷ xs) h = elim (Bool-cases (x == n)) [
  | inl same ↦ rw same (without-lt n xs h.1)
  | inr apart ↦ rw apart (ground arith, without-lt n xs h.1)
]

without_absent : (n : ℕ) (xs : List ℕ) → All (λ y. n ≢ y) xs → length (without n xs) ≡ length xs
unfolding without
without_absent n [] h = refl
without_absent n (x ∷ xs) h = ground (arith, without_absent n xs h.1)

length-without : (n : ℕ) (xs : List ℕ) → AreDistinct xs → length xs ≤ suc (length (without n xs))
unfolding without
length-without n [] h = omega arith
length-without n (x ∷ xs) h = elim (Bool-cases (x == n)) [
  | inl same ↦
      let e : x ≡ n = ground arith in
      let kept = without_absent n xs (subst (λ m. All (λ y. m ≢ y) xs) e h.0) in
      rw same (omega (arith, kept))
  | inr apart ↦ rw apart (omega (arith, length-without n xs h.1))
]

-- Distinct numbers below `n` are `n` at most.
pigeonhole : (n : ℕ) (xs : List ℕ) → AreDistinct xs → All (λ x. x < n) xs → length xs ≤ n
pigeonhole zero [] d h = omega arith
pigeonhole zero (x ∷ xs) d h = absurd (omega (arith, h.0))
pigeonhole (suc n) xs d h = omega (
  arith,
  length-without n xs d,
  pigeonhole n (without n xs) (without-AreDistinct n xs d) (without-lt n xs h),
)

module _ (W : Writer) (holder : ℕ → Holder) (most : ℕ) where
  -- The gateway counts itself in: `is_participating`.
  abbrev pub Participates : World W → ℕ → Type 0
  Participates w i = is_valid w.now (w.instances i).valid ≡ true

  -- The writer holds a slot below the greatest limit with the token of the gateway.
  abbrev pub OwnsSlot : World W → ℕ → ℕ → Type 0
  OwnsSlot w i slot =
      (slot < most)
      × ((end : ℕ) × (W.read w.store w.now (gateway_key (holder i) slot)
            ≡ some ((holder i).token, end)))

  owned_slot :
      (w : World W) (i : ℕ)
      → AllGood W holder most w
      → Participates w i
      → (slot : ℕ) × OwnsSlot w i slot
  owned_slot w i all joins = elim (Option-cases (w.instances i).valid) [
    | inl never ↦ absurd (let bad : false ≡ true = rw never at joins in cc)
    | inr (deadline, e) ↦
        let before : w.now < deadline = ltb→lt w.now deadline (rw e at joins) in
        let (slot, below, (end, at, least)) = (all i).held deadline e before in
        (slot, (below, (end, at)))
  ]

  module _ (setup : AreSetUp W holder most) where
    -- Of gateways with tokens of their own and positive times to live, on a writer where no limit above
    -- `most` is read and other clients leave the keys of slots alone, a gateway counts itself in only
    -- while the writer holds a slot below `most` with that gateway's token: in every state that steps of
    -- `World` lead to from a start, so whichever commands and replies are late or lost and whichever
    -- refreshes fail or are cut off, as long as a command is executed at most once, and not after a
    -- later one of its gateway.
    pub Participates-OwnsSlot :
        {w : World W} (s : W.Store) (now i : ℕ)
        → Reach W holder most (start W s now) w
        → Participates w i
        → (slot : ℕ) × OwnsSlot w i slot
    Participates-OwnsSlot {w} s now i r joins =
        owned_slot w i
          (Reach-AllGood W holder most setup (start-AllGood W holder most setup s now) r) joins

  module _ (setup : AreSetUp W holder most)
      (prefix : (i j : ℕ) → (holder i).prefix ≡ (holder j).prefix) where
    one_owner : (w : World W) (i j slot : ℕ) → OwnsSlot w i slot → OwnsSlot w j slot → i ≡ j
    one_owner w i j slot (below, (end, at)) (below', (end', at')) = elim (Bool-cases (i == j)) [
      | inl same ↦ ground arith
      | inr apart ↦
          let keys : gateway_key (holder i) slot ≡ gateway_key (holder j) slot =
            ap (λ p. gateway_key (record (holder i) { prefix = p }) slot) (prefix i j) in
          let values : ◌≡◌ {A = Option (String × ℕ)} (some ((holder i).token, end))
              (some ((holder j).token, end')) =
            sym at ∙ ap (W.read w.store w.now) keys ∙ at' in
          absurd (
            setup.tokens i j (ground arith)
              (ap (λ (x : String × ℕ). x.0) (some-injective _ _ values)))
    ]

    owned_slots :
        (w : World W) → AllGood W holder most w → (is : List ℕ) → All (Participates w) is → List ℕ
    owned_slots w all [] join = []
    owned_slots w all (i ∷ is) join = (owned_slot w i all join.0).0 ∷ owned_slots w all is join.1

    owned_slots-lt :
        (w : World W) (all : AllGood W holder most w) (is : List ℕ) (join : All (Participates w) is)
        → All (λ slot. slot < most) (owned_slots w all is join)
    unfolding owned_slots
    owned_slots-lt w all [] join = tt
    owned_slots-lt w all (i ∷ is) join =
        ((owned_slot w i all join.0).1.0, owned_slots-lt w all is join.1)

    length-owned_slots :
        (w : World W) (all : AllGood W holder most w) (is : List ℕ) (join : All (Participates w) is)
        → length (owned_slots w all is join) ≡ length is
    unfolding owned_slots
    length-owned_slots w all [] join = refl
    length-owned_slots w all (i ∷ is) join = ap suc (length-owned_slots w all is join.1)

    owned_slots_apart :
        (w : World W) (all : AllGood W holder most w) (i slot : ℕ) (is : List ℕ)
        (join : All (Participates w) is)
        → OwnsSlot w i slot
        → All (λ j. i ≢ j) is
        → All (λ other. slot ≢ other) (owned_slots w all is join)
    unfolding owned_slots
    owned_slots_apart w all i slot [] join owns apart = tt
    owned_slots_apart w all i slot (j ∷ is) join owns apart =
        let found = owned_slot w j all join.0 in
        (
          (λ same. apart.0 (one_owner w i j slot owns (subst (OwnsSlot w j) (sym same) found.1))),
          owned_slots_apart w all i slot is join.1 owns apart.1,
        )

    owned_slots-AreDistinct :
        (w : World W) (all : AllGood W holder most w) (is : List ℕ) (join : All (Participates w) is)
        → AreDistinct is
        → AreDistinct (owned_slots w all is join)
    unfolding owned_slots
    owned_slots-AreDistinct w all [] join d = tt
    owned_slots-AreDistinct w all (i ∷ is) join d =
        let found = owned_slot w i all join.0 in
        (
          owned_slots_apart w all i found.0 is join.1 found.1 d.0,
          owned_slots-AreDistinct w all is join.1 d.1,
        )

    -- Under the conditions of `Participates-OwnsSlot`, where all gateways have one prefix, never do more
    -- than `most` different gateways count themselves in at once: the limit that is stored, while no
    -- greater one is read.
    pub length-Participates-le :
        {w : World W} (s : W.Store) (now : ℕ) (is : List ℕ)
        → Reach W holder most (start W s now) w
        → AreDistinct is
        → All (Participates w) is
        → length is ≤ most
    length-Participates-le {w} s now is r distinct join =
        let all = Reach-AllGood W holder most setup (start-AllGood W holder most setup s now) r in
        omega (
          arith,
          length-owned_slots w all is join,
          pigeonhole most (owned_slots w all is join)
              (owned_slots-AreDistinct w all is join distinct) (owned_slots-lt w all is join),
        )
