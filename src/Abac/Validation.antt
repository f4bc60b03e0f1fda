-- ===== src/Abac/Validation.antt =====
-- Policies in the old form, and their validation.
use apiserver.Base.{String, none, if◌then◌else◌, ◌==◌, ◌&&◌, ◌≡◌, inl, inr, refl, Bool-cases}
use apiserver.Abac.{PolicySpec, validate, validate_v0}

validate-validate_v0-none :
    (kind : String) (s : PolicySpec)
    → validate (record { kind = kind; spec = validate_v0 s }) ≡ none
unfolding validate validate_v0
validate-validate_v0-none kind s = elim (Bool-cases (s.user == "" && s.group == "")) [
  | inl e ↦ rw e (elim (Bool-cases (s.user == "")) [ inl u ↦ rw u refl | inr u ↦ rw u refl ])
  | inr e ↦ rw (e, e) refl
]

blank_idem :
    (t : String)
    → (if (if t == "" then "*" else t) == "" then "*" else (if t == "" then "*" else t))
      ≡ (if t == "" then "*" else t)
blank_idem t = elim (Bool-cases (t == "")) [ inl e ↦ rw e refl | inr e ↦ rw (e, e) refl ]

group_idem :
    (u g : String)
    → (let h = if u == "" && g == "" then "system:authenticated" else g in
        if u == "" && h == "" then "system:authenticated" else h)
      ≡ (if u == "" && g == "" then "system:authenticated" else g)
group_idem u g = elim (Bool-cases (u == "" && g == "")) [
  | inl e ↦ rw e (elim (Bool-cases (u == "")) [ inl f ↦ rw f refl | inr f ↦ rw f refl ])
  | inr e ↦ rw (e, e) refl
]

validate_v0_idem : (s : PolicySpec) → validate_v0 (validate_v0 s) ≡ validate_v0 s
unfolding validate_v0
validate_v0_idem s = λ i. record {
  user = s.user;
  group = group_idem s.user s.group i;
  readonly = s.readonly;
  api_group = "*";
  resource = blank_idem s.resource i;
  namespace = blank_idem s.namespace i;
  non_resource_path = s.non_resource_path;
}

-- A specification in the old form, brought up to date, names a user or a group, and bringing it up to
-- date again changes nothing.
pub validate-validate_v0 :
    (kind : String) (s : PolicySpec)
    → (validate (record { kind = kind; spec = validate_v0 s }) ≡ none)
      × (validate_v0 (validate_v0 s) ≡ validate_v0 s)
validate-validate_v0 kind s = (validate-validate_v0-none kind s, validate_v0_idem s)
