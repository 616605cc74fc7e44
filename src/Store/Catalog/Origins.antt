-- ===== src/Store/Catalog/Origins.antt =====
-- Origins: nothing is lost, nothing occurs twice.
use mathlib.Core.Bool.{true≢false}
use ocidoc_go.Base.{
  All-append, ◌≡◌, ◌≢◌, ◌↔◌, ◌⊎◌, refl, sym, subst, ◌∙◌, true, false, List, [], ◌∷◌, ◌++◌, any,
  Text, text_eq, any-text_eq_iff, arith, inl, inr, Bool-cases, In, In-append, All, Pairs,
}
use ocidoc_go.Store.Catalog.{new_origins, merge_origins}

new_old :
    (o : Text) (seen added : List Text)
    → any (text_eq o) seen ≡ true
    → new_origins seen (o ∷ added) ≡ new_origins seen added
unfolding new_origins
new_old o seen added e = ground arith

new_fresh :
    (o : Text) (seen added : List Text)
    → any (text_eq o) seen ≡ false
    → new_origins seen (o ∷ added) ≡ o ∷ new_origins (o ∷ seen) added
unfolding new_origins
new_fresh o seen added e = ground arith

new_origins-In :
    (x : Text) (seen added : List Text)
    → (In x seen ⊎ In x (new_origins seen added)) ↔ (In x seen ⊎ In x added)
unfolding new_origins
new_origins-In x seen [] = (λ h. h, λ h. h)
new_origins-In x seen (o ∷ added) = elim (Bool-cases (any (text_eq o) seen)) [
  | inl old ↦
      let held : x ≡ o → In x seen =
        λ e. subst (λ t. In t seen) (sym e) ((any-text_eq_iff o seen).0 old) in
      let ih = new_origins-In x seen added in
      rw (new_old o seen added old) (
        λ h. elim (ih.0 h) [ inl a ↦ inl a | inr b ↦ inr (inr b) ],
        λ h. elim h [
          | inl a ↦ inl a
          | inr k ↦ elim k [ inl e ↦ inl (held e) | inr b ↦ ih.1 (inr b) ]
        ],
      )
  | inr fresh ↦
      let ih = new_origins-In x (o ∷ seen) added in
      rw (new_fresh o seen added fresh) (
        λ h. elim h [
          | inl a ↦ inl a
          | inr k ↦ elim k [
            | inl e ↦ inr (inl e)
            | inr b ↦ elim (ih.0 (inr b)) [
              | inl c ↦ elim c [ inl e ↦ inr (inl e) | inr a ↦ inl a ]
              | inr n ↦ inr (inr n)
            ]
          ]
        ],
        λ h. elim h [
          | inl a ↦ inl a
          | inr k ↦ elim k [
            | inl e ↦ inr (inl e)
            | inr n ↦ elim (ih.1 (inr n)) [
              | inl c ↦ elim c [ inl e ↦ inr (inl e) | inr a ↦ inl a ]
              | inr b ↦ inr (inr b)
            ]
          ]
        ],
      )
]

-- The new origins are apart from the ones seen and from each other.
abbrev Apart : List Text → List Text → Type 0
Apart seen ts = All (λ t. In t seen → ⊥) ts × Pairs (λ a b. a ≢ b) ts

not_In-cons :
    (o : Text) (seen ts : List Text)
    → All (λ t. In t (o ∷ seen) → ⊥) ts
    → All (λ t. In t seen → ⊥) ts × All (λ t. o ≢ t) ts
not_In-cons o seen [] h = (tt, tt)
not_In-cons o seen (t ∷ ts) h =
    let (a, b) = not_In-cons o seen ts h.1 in ((λ i. h.0 (inr i), a), (λ e. h.0 (inl (sym e)), b))

new_origins-Apart : (seen added : List Text) → Apart seen (new_origins seen added)
unfolding new_origins
new_origins-Apart seen [] = (tt, tt)
new_origins-Apart seen (o ∷ added) = elim (Bool-cases (any (text_eq o) seen)) [
  | inl old ↦ rw (new_old o seen added old) (new_origins-Apart seen added)
  | inr fresh ↦
      let (outside, pairs) = new_origins-Apart (o ∷ seen) added in
      let (a, b) = not_In-cons o seen (new_origins (o ∷ seen) added) outside in
      let unseen : In o seen → ⊥ = λ i. true≢false (sym ((any-text_eq_iff o seen).1 i) ∙ fresh) in
      rw (new_fresh o seen added fresh) ((unseen, a), (b, pairs))
]

Pairs-append :
    (xs ys : List Text) → Pairs (λ a b. a ≢ b) xs → Apart xs ys → Pairs (λ a b. a ≢ b) (xs ++ ys)
Pairs-append [] ys h k = k.1
Pairs-append (x ∷ xs) ys h k =
    let (a, b) = not_In-cons x xs ys k.0 in
    (All-append (λ t. x ≢ t) xs ys h.0 b, Pairs-append xs ys h.1 (a, k.1))

-- Merging origins loses none of the old and new ones and adds no other, leaves the old ones in
-- front, and if the old ones are distinct, so are the merged ones.
pub merge_origins-In :
    (base added : List Text)
    → ((x : Text) → In x (merge_origins base added) ↔ (In x base ⊎ In x added))
      × ((rest : List Text) × (merge_origins base added ≡ base ++ rest))
      × (Pairs (λ a b. a ≢ b) base → Pairs (λ a b. a ≢ b) (merge_origins base added))
unfolding merge_origins
merge_origins-In base added = (
  λ x.
      let parts = In-append x base (new_origins base added) in
      let all = new_origins-In x base added in (λ i. all.0 (parts.0 i), λ i. parts.1 (all.1 i)),
  (new_origins base added, refl),
  λ distinct. Pairs-append base (new_origins base added) distinct (new_origins-Apart base added),
)
