-- ===== src/Admission/Registration.antt =====
-- The registry of src/admission.rs: `register` and `get`.
use http_gateway.Prelude.{
  String, ◌≡◌, refl, ◌⊎◌, inl, inr, true, false, none, some, ok, err, str_eq, if◌then◌else◌,
  is_empty_str, trim, Bool-cases, Option-cases,
}
use http_gateway.Admission.{
  AdmissionRegistry, ProviderRef, empty_name, duplicate, get_provider, register,
}

-- `register` refuses a blank name and a name that is taken, and leaves the registry as it was;
-- otherwise the provider is found under its name, and every other name finds what it found before.
pub register_cases :
    (registry : AdmissionRegistry) (name : String) (provider : ProviderRef)
    → ((is_empty_str (trim name) ≡ true)
        × (register registry name provider ≡ (registry, err empty_name)))
      ⊎ ((old : ProviderRef) × (is_empty_str (trim name) ≡ false)
          × (get_provider registry name ≡ some old)
          × (register registry name provider ≡ (registry, err (duplicate name))))
      ⊎ ((is_empty_str (trim name) ≡ false)
          × (get_provider registry name ≡ none)
          × ((register registry name provider).1 ≡ ok tt)
          × ((n : String)
              → get_provider (register registry name provider).0 n
                ≡ (if str_eq name n then some provider else get_provider registry n)))
unfolding register
register_cases registry name provider = elim (Bool-cases (is_empty_str (trim name))) [
  | inl blank ↦ inl (blank, rw (register, blank) refl)
  | inr named ↦ elim (Option-cases (get_provider registry name)) [
    | inl free ↦ inr (
        inr (
          named,
          free,
          rw (register, named, free) refl,
          λ n. rw (register, named, free) (unfold get_provider in refl),
        ))
    | inr (old, taken) ↦ inr (inl (old, named, taken, rw (register, named, taken) refl))
  ]
]
