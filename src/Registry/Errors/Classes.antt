-- ===== src/Registry/Errors/Classes.antt =====
-- When a failure of a registry counts as missing content.
use ocidoc_go.Base.{
  ◌≡◌, ◌≢◌, ◌↔◌, ◌⊎◌, refl, ap, subst, inl, inr, Bool, true, ℕ, Option, none, some, arith,
}
use ocidoc_go.Registry.Errors.{
  oras_unauthorized, oras_forbidden, oras_unsupported, oras_invalid, OrasSentinel, Remote, mapped,
  status_sentinel, errdef_sentinel, or_else, classified, map_error, oras_not_found, not_found,
  same_sentinel, is, sentinel_of, wrap_error,
}

-- The status says nothing of its own about the failure.
abbrev pub Unclassified : ℕ → Type 0
Unclassified code = (code ≢ 401) × (code ≢ 403) × (code ≢ 404) × (code ≢ 405) × (code ≢ 501)

abbrev pub Missing : Remote → Type 0
Missing e =
    (e.status ≡ some 404)
    ⊎ ((e.is_not_found ≡ true) × ((code : ℕ) → e.status ≡ some code → Unclassified code))

sentinel_found :
    (s : OrasSentinel) (e : Remote)
    → (is (wrap_error (mapped s e)) not_found ≡ true) ↔ (s ≡ oras_not_found)
unfolding is wrap_error sentinel_of same_sentinel
sentinel_found oras_not_found e = (λ _. refl, λ _. refl)
sentinel_found oras_unauthorized e = (λ h. cc, λ h. cc)
sentinel_found oras_forbidden e = (λ h. cc, λ h. cc)
sentinel_found oras_unsupported e = (λ h. cc, λ h. cc)
sentinel_found oras_invalid e = (λ h. cc, λ h. cc)

status_404 : (code : ℕ) → (status_sentinel code ≡ some oras_not_found) ↔ (code ≡ 404)
unfolding status_sentinel
status_404 code = ground arith

status_none : (code : ℕ) → (status_sentinel code ≡ none) ↔ Unclassified code
unfolding status_sentinel
status_none code = ground arith

errdef_found : (e : Remote) → (errdef_sentinel e ≡ some oras_not_found) ↔ (e.is_not_found ≡ true)
unfolding errdef_sentinel
errdef_found e = ground arith

classified_found :
    (e : Remote) (o : Option OrasSentinel)
    → (is (wrap_error (classified e o)) not_found ≡ true) ↔ (o ≡ some oras_not_found)
unfolding is wrap_error
classified_found e none = (λ h. cc, λ h. cc)
classified_found e (some s) = ground (arith, sentinel_found s e)

or_else_found :
    (a b : Option OrasSentinel)
    → (or_else a b ≡ some oras_not_found)
      ↔ ((a ≡ some oras_not_found) ⊎ ((a ≡ none) × (b ≡ some oras_not_found)))
or_else_found none b = ground arith
or_else_found (some s) b = ground arith

status_missing :
    (o : Option ℕ) (found : Bool)
    → ((elim o [ none ↦ none | some code ↦ status_sentinel code ] ≡ some oras_not_found)
        ⊎ ((elim o [ none ↦ none | some code ↦ status_sentinel code ] ≡ none) × (found ≡ true)))
      ↔ ((o ≡ some 404) ⊎ ((found ≡ true) × ((code : ℕ) → o ≡ some code → Unclassified code)))
status_missing none found = (
  λ h. elim h [ inl e ↦ cc | inr (_, f) ↦ inr (f, λ code e. cc) ],
  λ h. elim h [ inl e ↦ cc | inr (f, _) ↦ inr (refl, f) ],
)
status_missing (some code) found = (
  λ h. elim h [
    | inl e ↦ inl (ap (λ c. some c) ((status_404 code).0 e))
    | inr (n, f) ↦ inr (f, λ c e. subst Unclassified (inside code c e) ((status_none code).0 n))
  ],
  λ h. elim h [
    | inl e ↦ inl ((status_404 code).1 (inside code 404 e))
    | inr (f, u) ↦ inr ((status_none code).1 (u code refl), f)
  ],
)
  where
    inside : (a b : ℕ) → Path (Option ℕ) (some a) (some b) → a ≡ b
    inside a b e = cc

-- An error of oras-go is reported as not found exactly when its status is 404, or when it has no
-- status of its own meaning and oras-go calls it not found; so never for the statuses 401 and 403.
pub not_found_iff : (e : Remote) → (is (wrap_error (map_error e)) not_found ≡ true) ↔ Missing e
unfolding map_error
not_found_iff e =
    let status : Option OrasSentinel = elim e.status [
      | none ↦ none
      | some code ↦ status_sentinel code
    ] in
    let first = classified_found e (or_else status (errdef_sentinel e)) in
    let second = or_else_found status (errdef_sentinel e) in
    let third = errdef_found e in
    let fourth = status_missing e.status e.is_not_found in
    (
      λ h.
          fourth.0
            (elim (second.0 (first.0 h)) [ inl a ↦ inl a | inr (n, f) ↦ inr (n, third.0 f) ]),
      λ h.
          first.1
            (second.1 (elim (fourth.1 h) [ inl a ↦ inl a | inr (n, f) ↦ inr (n, third.1 f) ])),
    )
