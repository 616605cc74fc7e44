-- ===== src/Spec/BundlePath/Reserved.antt =====
-- Which names `isReservedWindowsName` refuses.
use ocidoc_go.Base.{
  ◌≡◌, ◌↔◌, ◌⊎◌, inl, inr, refl, sym, ◌∙◌, ap, subst, Bool, true, false, ◌&&◌, not, none, some,
  ◌++◌, Text, codes, In, All_at, behind, behind-append, append_of_behind, has_prefix, if◌then◌else◌,
  trim_prefix, any-text_eq_iff, arith, Option-cases,
}
use ocidoc_go.Spec.BundlePath.{
  reserved_windows_names, port_suffixes, is_listed, is_port_suffix, is_reserved_windows_name,
}

-- A port name: `COM`, `LPT`, or one behind the other, and a digit.
pub data IsPortName (base : Text) : Type 0 where
  com_port : (d : Text) → In d port_suffixes → base ≡ codes "COM" ++ d → IsPortName base
  lpt_port : (d : Text) → In d port_suffixes → base ≡ codes "LPT" ++ d → IsPortName base
  com_lpt_port :
      (d : Text) → In d port_suffixes → base ≡ codes "COM" ++ (codes "LPT" ++ d) → IsPortName base

trim_none : (s p : Text) → behind s p ≡ none → trim_prefix s p ≡ s
unfolding trim_prefix
trim_none s p h = ground arith

trim_some : (s p r : Text) → behind s p ≡ some r → trim_prefix s p ≡ r
unfolding trim_prefix
trim_some s p r h = ground arith

abbrev trimmed : Text → Text
trimmed base = trim_prefix (trim_prefix base (codes "COM")) (codes "LPT")

trimmed_both :
    (base r q : Text)
    → behind base (codes "COM") ≡ some r
    → behind r (codes "LPT") ≡ some q
    → trimmed base ≡ q
trimmed_both base r q e f = rw (trim_some base (codes "COM") r e) (trim_some r (codes "LPT") q f)

trimmed_com :
    (base r : Text)
    → behind base (codes "COM") ≡ some r
    → behind r (codes "LPT") ≡ none
    → trimmed base ≡ r
trimmed_com base r e f = rw (trim_some base (codes "COM") r e) (trim_none r (codes "LPT") f)

trimmed_lpt :
    (base q : Text)
    → behind base (codes "COM") ≡ none
    → behind base (codes "LPT") ≡ some q
    → trimmed base ≡ q
trimmed_lpt base q e f = rw (trim_none base (codes "COM") e) (trim_some base (codes "LPT") q f)

no_prefix :
    (base : Text)
    → behind base (codes "COM") ≡ none
    → behind base (codes "LPT") ≡ none
    → (not (has_prefix base (codes "COM")) && not (has_prefix base (codes "LPT"))) ≡ false
    → ⊥
unfolding has_prefix
no_prefix base e f h = ground arith

IsPortName-of_trimmed :
    (base : Text)
    → (not (has_prefix base (codes "COM")) && not (has_prefix base (codes "LPT"))) ≡ false
    → In (trimmed base) port_suffixes
    → IsPortName base
IsPortName-of_trimmed base starts m = elim (Option-cases (behind base (codes "COM"))) [
  | inr (r, e) ↦ elim (Option-cases (behind r (codes "LPT"))) [
    | inr (q, f) ↦ com_lpt_port q (subst (λ t. In t port_suffixes) (trimmed_both base r q e f) m) (
        append_of_behind base (codes "COM") r e
        ∙ ap (λ t. codes "COM" ++ t) (append_of_behind r (codes "LPT") q f))
    | inl f ↦
        com_port r (subst (λ t. In t port_suffixes) (trimmed_com base r e f) m)
          (append_of_behind base (codes "COM") r e)
  ]
  | inl e ↦ elim (Option-cases (behind base (codes "LPT"))) [
    | inr (q, f) ↦
        lpt_port q (subst (λ t. In t port_suffixes) (trimmed_lpt base q e f) m)
          (append_of_behind base (codes "LPT") q f)
    | inl f ↦ absurd (no_prefix base e f starts)
  ]
]

-- A digit does not begin with `LPT`.
lpt_behind_suffix : (d : Text) → In d port_suffixes → behind d (codes "LPT") ≡ none
lpt_behind_suffix d m =
    All_at (λ t. behind t (codes "LPT") ≡ none) port_suffixes
      (
        refl,
        (refl, (refl, (refl, (refl, (refl, (refl, (refl, (refl, (refl, (refl, (refl, tt))))))))))),
      )
      m

starts_with :
    (base r p q : Text)
    → ((behind base p ≡ some r) ⊎ (behind base q ≡ some r))
    → (not (has_prefix base p) && not (has_prefix base q)) ≡ false
unfolding has_prefix
starts_with base r p q h = ground arith

trimmed_of_IsPortName :
    (base : Text)
    → IsPortName base
    → ((not (has_prefix base (codes "COM")) && not (has_prefix base (codes "LPT"))) ≡ false)
      × In (trimmed base) port_suffixes
trimmed_of_IsPortName base (com_port d m e) =
    let at : behind base (codes "COM") ≡ some d = rw e (behind-append (codes "COM") d) in
    (
      starts_with base d (codes "COM") (codes "LPT") (inl at),
      subst (λ t. In t port_suffixes) (sym (trimmed_com base d at (lpt_behind_suffix d m))) m,
    )
trimmed_of_IsPortName base (lpt_port d m e) =
    let at : behind base (codes "LPT") ≡ some d = rw e (behind-append (codes "LPT") d) in
    (
      starts_with base d (codes "COM") (codes "LPT") (inr at),
      subst (λ t. In t port_suffixes) (sym (trimmed_lpt base d (rw e refl) at)) m,
    )
trimmed_of_IsPortName base (com_lpt_port d m e) =
    let r : Text = codes "LPT" ++ d in
    let at : behind base (codes "COM") ≡ some r = rw e (behind-append (codes "COM") r) in
    (
      starts_with base r (codes "COM") (codes "LPT") (inl at),
      subst (λ t. In t port_suffixes)
          (sym (trimmed_both base r d at (behind-append (codes "LPT") d))) m,
    )

is_listed_iff : (base : Text) → (is_listed base ≡ true) ↔ In base reserved_windows_names
unfolding is_listed
is_listed_iff base = any-text_eq_iff base reserved_windows_names

is_port_suffix_iff : (t : Text) → (is_port_suffix t ≡ true) ↔ In t port_suffixes
unfolding is_port_suffix
is_port_suffix_iff t = any-text_eq_iff t port_suffixes

-- The three branches of the function.
reserved_branches :
    (listed bare port : Bool)
    → ((if listed then true else if bare then false else port) ≡ true)
      ↔ ((listed ≡ true) ⊎ ((bare ≡ false) × (port ≡ true)))
reserved_branches listed bare port = ground arith

-- A stem is refused exactly if it is one of the listed device names, or a digit behind `COM`, `LPT`
-- or `COMLPT`.
pub is_reserved_windows_name_iff :
    (base : Text)
    → (is_reserved_windows_name base ≡ true) ↔ (In base reserved_windows_names ⊎ IsPortName base)
unfolding is_reserved_windows_name
is_reserved_windows_name_iff base =
    let branches =
      reserved_branches (is_listed base)
        (not (has_prefix base (codes "COM")) && not (has_prefix base (codes "LPT")))
        (is_port_suffix (trimmed base)) in
    (
      λ h. elim (branches.0 h) [
        | inl listed ↦ inl ((is_listed_iff base).0 listed)
        | inr (starts, port) ↦
            inr (IsPortName-of_trimmed base starts ((is_port_suffix_iff (trimmed base)).0 port))
      ],
      λ h. branches.1 (elim h [
        | inl listed ↦ inl ((is_listed_iff base).1 listed)
        | inr port ↦
            let (starts, m) = trimmed_of_IsPortName base port in
            inr (starts, (is_port_suffix_iff (trimmed base)).1 m)
      ]),
    )
