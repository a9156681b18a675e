-- ===== src/Redis/Policy/Store/Loading.antt =====
-- What loads of src/redis_admission/policy.rs leave: the last policy that was valid.
use http_gateway.Prelude.{
  ℕ, ◌≡◌, refl, sym, ap, subst, ◌∙◌, inl, inr, true, false, ◌&&◌, Option, none, some, Result, ok,
  err, List, [], ◌∷◌, arith, is_some, bytes_eq_lem, Bool-cases, Option-cases,
}
use mathlib.Core.Option.{some-injective}
use http_gateway.External.Http.{Http}
use http_gateway.External.Router.{Router}
use http_gateway.External.Redis.{Reply}
use http_gateway.Admission.{AdmissionError, timeout}
use http_gateway.Redis.Policy.{PolicyConfig, CompiledPolicy}
use http_gateway.Redis.Policy.Store.{
  Raw, same_raw, read_raw, Snapshot, new_snapshot, publish, compile_raw, Load, load_raw, load,
  load_all,
}

same_raw-eq : (a b : Raw) → same_raw a b ≡ true → a ≡ b
same_raw-eq none none e = refl
same_raw-eq none (some b) e = cc
same_raw-eq (some a) none e = cc
same_raw-eq (some a) (some b) e = ap some (bytes_eq_lem a b e)

module _ (H : Http) (R : Router) (parse : List ℕ → Option PolicyConfig) where
  -- The policy of a snapshot is what its text compiles to.
  abbrev pub IsCompiled : Snapshot H R parse → Type 0
  IsCompiled s = (p : CompiledPolicy H R) → s.policy ≡ some p → compile_raw H R parse s.raw ≡ ok p

  -- Loading without the shortcut: the text is always compiled.
  abbrev pub reload_raw : Snapshot H R parse → Result AdmissionError Raw → Load H R parse
  reload_raw s (err e) = (err e, s)
  reload_raw s (ok raw) = publish H R parse raw s (compile_raw H R parse raw)

  abbrev pub reload : Snapshot H R parse → Option Reply → Load H R parse
  reload s none = (err timeout, s)
  reload s (some r) = reload_raw s (read_raw r)

  publish-IsCompiled :
      (raw : Raw) (s : Snapshot H R parse) (o : Result AdmissionError (CompiledPolicy H R))
      → compile_raw H R parse raw ≡ o
      → IsCompiled s
      → IsCompiled (publish H R parse raw s o).1
  publish-IsCompiled raw s (err e) same c = c
  publish-IsCompiled raw s (ok policy) same c = λ p at. same ∙ ap ok (some-injective _ _ at)

  shortcut :
      (s : Snapshot H R parse) (raw : Raw)
      → IsCompiled s
      → is_some s.policy ≡ true
      → same_raw s.raw raw ≡ true
      → publish H R parse raw s (compile_raw H R parse raw) ≡ (ok tt, s)
  shortcut s raw c loaded same = elim (Option-cases s.policy) [
    | inl never ↦ absurd (let bad : false ≡ true = rw never at loaded in cc)
    | inr (p, at) ↦
        let text : s.raw ≡ raw = same_raw-eq s.raw raw same in
        let compiled : compile_raw H R parse raw ≡ ok p = rw text at (c p at) in
        rw compiled (λ i. (ok tt, record { raw = sym text i; policy = sym at i }))
  ]

  load_raw-eq :
      (s : Snapshot H R parse) (o : Result AdmissionError Raw)
      → IsCompiled s
      → load_raw H R parse s o ≡ reload_raw s o
  load_raw-eq s (err e) c = refl
  load_raw-eq s (ok raw) c = elim (Bool-cases (is_some s.policy && same_raw s.raw raw)) [
    | inl same ↦ rw same (sym (shortcut s raw c (ground arith) (ground arith)))
    | inr other ↦ rw other refl
  ]

  load-eq :
      (s : Snapshot H R parse) (r : Option Reply) → IsCompiled s → load H R parse s r ≡ reload s r
  unfolding load
  load-eq s none c = refl
  load-eq s (some r) c = load_raw-eq s (read_raw r) c

  reload_raw-IsCompiled :
      (s : Snapshot H R parse) (o : Result AdmissionError Raw)
      → IsCompiled s
      → IsCompiled (reload_raw s o).1
  reload_raw-IsCompiled s (err e) c = c
  reload_raw-IsCompiled s (ok raw) c = publish-IsCompiled raw s (compile_raw H R parse raw) refl c

  reload-IsCompiled :
      (s : Snapshot H R parse) (r : Option Reply) → IsCompiled s → IsCompiled (reload s r).1
  reload-IsCompiled s none c = c
  reload-IsCompiled s (some r) c = reload_raw-IsCompiled s (read_raw r) c

  pub load-IsCompiled :
      (s : Snapshot H R parse) (r : Option Reply) → IsCompiled s → IsCompiled (load H R parse s r).1
  load-IsCompiled s r c =
      subst IsCompiled (ap (λ x. x.1) (sym (load-eq s r c))) (reload-IsCompiled s r c)

  load_all-IsCompiled :
      (s : Snapshot H R parse) (rs : List (Option Reply))
      → IsCompiled s
      → IsCompiled (load_all H R parse s rs)
  unfolding load_all
  load_all-IsCompiled s [] c = c
  load_all-IsCompiled s (r ∷ rs) c =
      load_all-IsCompiled (load H R parse s r).1 rs (load-IsCompiled s r c)

  pub new_snapshot-IsCompiled : IsCompiled (new_snapshot H R parse)
  new_snapshot-IsCompiled p e = cc

  -- After any loads, the next load has the result and the snapshot that it had if the text was compiled
  -- every time: that it is skipped for a text that is loaded already makes no difference.
  pub load-reload :
      (rs : List (Option Reply)) (r : Option Reply)
      → load H R parse (load_all H R parse (new_snapshot H R parse) rs) r
        ≡ reload (load_all H R parse (new_snapshot H R parse) rs) r
  load-reload rs r = load-eq _ r (load_all-IsCompiled _ rs new_snapshot-IsCompiled)

  abbrev pub compiled_of :
      Raw → Result AdmissionError (CompiledPolicy H R) → Option (Snapshot H R parse)
  compiled_of raw (err e) = none
  compiled_of raw (ok p) = some (record { raw = raw; policy = some p })

  abbrev pub valid_raw : Result AdmissionError Raw → Option (Snapshot H R parse)
  valid_raw (err e) = none
  valid_raw (ok raw) = compiled_of raw (compile_raw H R parse raw)

  -- The snapshot of a reply by itself, where it has a policy that compiles.
  abbrev pub valid : Option Reply → Option (Snapshot H R parse)
  valid none = none
  valid (some r) = valid_raw (read_raw r)

  -- The last of the replies that is valid.
  abbrev pub last_valid : List (Option Reply) → Option (Snapshot H R parse)
  last_valid [] = none
  last_valid (r ∷ rs) = elim (last_valid rs) [ some t ↦ some t | none ↦ valid r ]

  abbrev pub or_else : Option (Snapshot H R parse) → Snapshot H R parse → Snapshot H R parse
  or_else none s = s
  or_else (some t) s = t

  publish-valid :
      (s : Snapshot H R parse) (raw : Raw) (o : Result AdmissionError (CompiledPolicy H R))
      → (publish H R parse raw s o).1 ≡ or_else (compiled_of raw o) s
  publish-valid s raw (err e) = refl
  publish-valid s raw (ok p) = refl

  reload_raw-valid :
      (s : Snapshot H R parse) (o : Result AdmissionError Raw)
      → (reload_raw s o).1 ≡ or_else (valid_raw o) s
  reload_raw-valid s (err e) = refl
  reload_raw-valid s (ok raw) = publish-valid s raw (compile_raw H R parse raw)

  reload-valid : (s : Snapshot H R parse) (r : Option Reply) → (reload s r).1 ≡ or_else (valid r) s
  reload-valid s none = refl
  reload-valid s (some r) = reload_raw-valid s (read_raw r)

  -- A load takes over the snapshot of a reply that is valid.
  pub load-valid :
      (s : Snapshot H R parse) (r : Option Reply)
      → IsCompiled s
      → (load H R parse s r).1 ≡ or_else (valid r) s
  load-valid s r c = ap (λ x. x.1) (load-eq s r c) ∙ reload-valid s r

  pub or_else_last :
      (o o' : Option (Snapshot H R parse)) (s : Snapshot H R parse)
      → or_else o (or_else o' s) ≡ or_else (elim o [ some t ↦ some t | none ↦ o' ]) s
  or_else_last none o' s = refl
  or_else_last (some t) o' s = refl

  load_all-eq :
      (s : Snapshot H R parse) (rs : List (Option Reply))
      → IsCompiled s
      → load_all H R parse s rs ≡ or_else (last_valid rs) s
  unfolding load_all
  load_all-eq s [] c = refl
  load_all-eq s (r ∷ rs) c =
      load_all-eq (load H R parse s r).1 rs (load-IsCompiled s r c)
      ∙ ap (or_else (last_valid rs)) (load-valid s r c)
      ∙ or_else_last (last_valid rs) (valid r) s

  -- After any loads, the snapshot is that of the last reply whose policy is valid, and the new one where
  -- no reply had a valid policy: a load that fails, is cut off, or reads what is not valid keeps the
  -- snapshot.
  pub load_all-last_valid :
      (rs : List (Option Reply))
      → load_all H R parse (new_snapshot H R parse) rs
        ≡ or_else (last_valid rs) (new_snapshot H R parse)
  load_all-last_valid rs = load_all-eq (new_snapshot H R parse) rs new_snapshot-IsCompiled
