-- ===== src/Redis/Policy/Store/Order.antt =====
-- Overlapping loads of src/redis_admission/policy.rs take effect in the order in which the policy was read.
use http_gateway.Prelude.{
  update, update-all, ℕ, suc, ◌≤◌, ◌≡◌, refl, sym, ap, subst, ◌∙◌, Option, none, some, List, [],
  ◌∷◌, arith, All,
}
use mathlib.Core.Option.{some-injective}
use http_gateway.External.Http.{Http}
use http_gateway.External.Router.{Router}
use http_gateway.External.Redis.{Reply}
use http_gateway.Redis.Policy.{PolicyConfig}
use http_gateway.Redis.Policy.Store.{Snapshot, new_snapshot, read_raw, load}
use http_gateway.Redis.Policy.Store.Loading.{
  IsCompiled, valid, or_else, load-valid, load-IsCompiled, new_snapshot-IsCompiled, or_else_last,
}
use http_gateway.Redis.Policy.Store.Loaders.{
  Loader, idle, queued, sent, executed, World, Step, change, begin, lock, execute, finish, fail,
  cut, cut_holder, Reach, here, next, start,
}

abbrev HasLock : Loader → Type 0
HasLock idle = ⊥
HasLock queued = ⊥
HasLock sent = Unit {0}
HasLock (executed v) = Unit {0}

-- What a load has read is no older than what any load has taken in, and no newer than the key.
abbrev IsFresh : List (ℕ × Reply) → ℕ → Loader → Type 0
IsFresh done version idle = Unit {0}
IsFresh done version queued = Unit {0}
IsFresh done version sent = Unit {0}
IsFresh done version (executed v) = All (λ d. d.0 ≤ v) done × (v ≤ version)

-- The last first.
abbrev IsSorted : List (ℕ × Reply) → Type 0
IsSorted [] = Unit {0}
IsSorted (d ∷ ds) = All (λ e. e.0 ≤ d.0) ds × IsSorted ds

All-le_mono :
    (m n : ℕ) (ds : List (ℕ × Reply)) → m ≤ n → All (λ d. d.0 ≤ m) ds → All (λ d. d.0 ≤ n) ds
All-le_mono m n [] e h = tt
All-le_mono m n (d ∷ ds) e h = (omega (arith, h.0, e), All-le_mono m n ds e h.1)

abbrev IsPlaced : Option ℕ → List (ℕ × Reply) → ℕ → ℕ → Loader → Type 0
IsPlaced holder done version j x = (HasLock x → holder ≡ some j) × IsFresh done version x

-- A load that has not the lock is placed, whatever the others do.
IsPlaced-unlocked :
    (holder : Option ℕ) (done done' : List (ℕ × Reply)) (version j : ℕ) (x : Loader)
    → IsPlaced holder done version j x
    → (HasLock x → ⊥)
    → IsPlaced none done' version j x
IsPlaced-unlocked holder done done' version j idle p no_lock = (λ h. absurd h, tt)
IsPlaced-unlocked holder done done' version j queued p no_lock = (λ h. absurd h, tt)
IsPlaced-unlocked holder done done' version j sent p no_lock = absurd (no_lock tt)
IsPlaced-unlocked holder done done' version j (executed v) p no_lock = absurd (no_lock tt)

IsPlaced-change :
    (holder : Option ℕ) (done : List (ℕ × Reply)) (version j : ℕ) (x : Loader)
    → IsPlaced holder done version j x
    → IsPlaced holder done (suc version) j x
IsPlaced-change holder done version j idle p = p
IsPlaced-change holder done version j queued p = p
IsPlaced-change holder done version j sent p = p
IsPlaced-change holder done version j (executed v) p = (p.0, (p.1.0, omega (arith, p.1.1)))

IsPlaced-lock :
    (holder : Option ℕ) (done : List (ℕ × Reply)) (version i j : ℕ) (x : Loader)
    → holder ≡ none
    → IsPlaced holder done version j x
    → IsPlaced (some i) done version j x
IsPlaced-lock holder done version i j x e p =
    ((λ h. absurd (let bad : none ≡ some j = sym e ∙ p.0 h in cc)), p.1)

module _ (H : Http) (R : Router) (parse : List ℕ → Option PolicyConfig) (value : ℕ → Reply) where
  -- The snapshot of the first reply that is valid.
  abbrev first_valid : List (ℕ × Reply) → Option (Snapshot H R parse)
  first_valid [] = none
  first_valid ((v, r) ∷ ds) = elim (valid H R parse (some r)) [
    | some t ↦ some t
    | none ↦ first_valid ds
  ]

  -- The loads took in the replies in the order in which the writer gave them, and the snapshot is that
  -- of the newest one that is valid.
  pub record IsOrdered (w : World H R parse value) : Type 0 where
    placed : (j : ℕ) → IsPlaced w.holder w.done w.version j (w.loaders j)
    bounded : All (λ d. d.0 ≤ w.version) w.done
    compiled : IsCompiled H R parse w.snapshot
    pub sorted : IsSorted w.done
    pub read : All (λ d. d.1 ≡ value d.0) w.done
    pub taken : w.snapshot ≡ or_else H R parse (first_valid w.done) (new_snapshot H R parse)

  -- Where a load ends, the others are placed.
  released :
      (w : World H R parse value) (i : ℕ) (done : List (ℕ × Reply))
      → IsOrdered w
      → w.holder ≡ some i
      → (j : ℕ) → IsPlaced none done w.version j (update w.loaders i idle j)
  released w i done o e =
      update-all (λ j x. IsPlaced none done w.version j x) w.loaders i idle
        (λ j apart.
          IsPlaced-unlocked w.holder w.done done w.version j (w.loaders j) (o.placed j)
            (λ h. apart (some-injective _ _ (sym ((o.placed j).0 h) ∙ e))))
        (λ h. absurd h, tt)

  set_aside :
      (w : World H R parse value) (i : ℕ) (x : Loader)
      → IsOrdered w
      → IsPlaced w.holder w.done w.version i x
      → (j : ℕ) → IsPlaced w.holder w.done w.version j (update w.loaders i x j)
  set_aside w i x o p =
      update-all (λ j y. IsPlaced w.holder w.done w.version j y) w.loaders i x
        (λ j apart. o.placed j) p

  locked :
      (w : World H R parse value) (i : ℕ) (x : Loader)
      → IsOrdered w
      → w.loaders i ≡ x
      → HasLock x
      → w.holder ≡ some i
  locked w i x o e h = (o.placed i).0 (subst HasLock (sym e) h)

  Step-IsOrdered :
      {w w' : World H R parse value} → IsOrdered w → Step H R parse value w w' → IsOrdered w'
  unfolding load read_raw
  Step-IsOrdered {w} o change = record {
    placed = λ j. IsPlaced-change w.holder w.done w.version j (w.loaders j) (o.placed j);
    bounded = All-le_mono w.version (suc w.version) w.done (omega arith) o.bounded;
    compiled = o.compiled;
    sorted = o.sorted;
    read = o.read;
    taken = o.taken;
  }
  Step-IsOrdered {w} o (begin i e) = record {
    placed = set_aside w i queued o (λ h. absurd h, tt);
    bounded = o.bounded;
    compiled = o.compiled;
    sorted = o.sorted;
    read = o.read;
    taken = o.taken;
  }
  Step-IsOrdered {w} o (lock i e free) = record {
    placed =
        update-all (λ j x. IsPlaced (some i) w.done w.version j x) w.loaders i sent
          (λ j apart. IsPlaced-lock w.holder w.done w.version i j (w.loaders j) free (o.placed j))
          (λ h. refl, tt);
    bounded = o.bounded;
    compiled = o.compiled;
    sorted = o.sorted;
    read = o.read;
    taken = o.taken;
  }
  Step-IsOrdered {w} o (execute i e) = record {
    placed =
        set_aside w i (executed w.version) o
          (λ h. locked w i sent o e tt, (o.bounded, omega arith));
    bounded = o.bounded;
    compiled = o.compiled;
    sorted = o.sorted;
    read = o.read;
    taken = o.taken;
  }
  Step-IsOrdered {w} o (finish i v e) =
      let fresh : IsFresh w.done w.version (executed v) =
        subst (IsFresh w.done w.version) e (o.placed i).1 in
      record {
        placed = released w i ((v, value v) ∷ w.done) o (locked w i (executed v) o e tt);
        bounded = (fresh.1, o.bounded);
        compiled = load-IsCompiled H R parse w.snapshot (some (value v)) o.compiled;
        sorted = (fresh.0, o.sorted);
        read = (refl, o.read);
        taken =
            load-valid H R parse w.snapshot (some (value v)) o.compiled
            ∙ ap (or_else H R parse (valid H R parse (some (value v)))) o.taken
            ∙ or_else_last H R parse (valid H R parse (some (value v))) (first_valid w.done)
                (new_snapshot H R parse);
      }
  Step-IsOrdered {w} o (fail i e) = record {
    placed = released w i w.done o e;
    bounded = o.bounded;
    compiled = o.compiled;
    sorted = o.sorted;
    read = o.read;
    taken = o.taken;
  }
  Step-IsOrdered {w} o (cut i e) = record {
    placed = set_aside w i idle o (λ h. absurd h, tt);
    bounded = o.bounded;
    compiled = o.compiled;
    sorted = o.sorted;
    read = o.read;
    taken = o.taken;
  }
  Step-IsOrdered {w} o (cut_holder i e) = record {
    placed = released w i w.done o e;
    bounded = o.bounded;
    compiled = o.compiled;
    sorted = o.sorted;
    read = o.read;
    taken = o.taken;
  }

  start-IsOrdered : IsOrdered (start H R parse value)
  start-IsOrdered = record {
    placed = λ j. (λ h. absurd h, tt);
    bounded = tt;
    compiled = new_snapshot-IsCompiled H R parse;
    sorted = tt;
    read = tt;
    taken = refl;
  }

  -- However loads of one store overlap, wait, fail or are cut off while the policy changes, the replies are
  -- taken in in the order in which the writer gave them, and the snapshot is that of the newest reply
  -- taken in that is valid: an older one never wins over a newer one.
  pub Reach-IsOrdered :
      {w : World H R parse value} → Reach H R parse value (start H R parse value) w → IsOrdered w
  Reach-IsOrdered here = start-IsOrdered
  Reach-IsOrdered (next r s) = Step-IsOrdered (Reach-IsOrdered r) s
