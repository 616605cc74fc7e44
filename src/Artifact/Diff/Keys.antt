-- ===== src/Artifact/Diff/Keys.antt =====
-- The union of keys, and what a loop over it collects.
use mathlib.Core.Bool.{true≢false}
use ocidoc_go.Base.{
  In-sort_texts, ◌≡◌, ◌↔◌, ◌⊎◌, refl, sym, ap, subst, ◌∙◌, false, Option, none, List, [], ◌∷◌, ◌++◌,
  inl, inr, any, Text, text_eq, text_eq_iff, any-text_eq_iff, arith, Bool-cases, In, In-append, All,
  All-of, All_at,
}
use ocidoc_go.Artifact.Diff.{lookup, key_list, distinct, union_keys, collect}

In-distinct : (x : Text) (ts : List Text) → In x (distinct ts) ↔ In x ts
unfolding distinct
In-distinct x [] = (λ h. h, λ h. h)
In-distinct x (t ∷ ts) = elim (Bool-cases (any (text_eq t) ts)) [
  | inl old ↦ rw old (
    λ i. inr ((In-distinct x ts).0 i),
    λ i. elim i [
      | inl e ↦
          subst (λ y. In y (distinct ts)) (sym e)
            ((In-distinct t ts).1 ((any-text_eq_iff t ts).0 old))
      | inr j ↦ (In-distinct x ts).1 j
    ],
  )
  | inr new ↦ rw new (ground (arith, In-distinct x ts))
]

module _ {V : Type 0} where
  lookup-missing : (k : Text) (m : List (Text × V)) → (In k (key_list m) → ⊥) → lookup k m ≡ none
  unfolding lookup key_list
  lookup-missing k [] out = refl
  lookup-missing k ((j, v) ∷ rest) out = elim (Bool-cases (text_eq j k)) [
    | inl e ↦ absurd (out (inl (sym ((text_eq_iff j k).0 e))))
    | inr n ↦ rw n (lookup-missing k rest (λ i. out (inr i)))
  ]

  In-union_keys :
      (k : Text) (a b : List (Text × V))
      → In k (union_keys a b) ↔ (In k (key_list a) ⊎ In k (key_list b))
  unfolding union_keys
  In-union_keys k a b =
      let first = In-sort_texts k (distinct (key_list a ++ key_list b)) in
      let second = In-distinct k (key_list a ++ key_list b) in
      let third = In-append k (key_list a) (key_list b) in
      (λ i. third.0 (second.0 (first.0 i)), λ i. first.1 (second.1 (third.1 i)))

  -- A key outside the union is in neither map.
  pub lookup_outside :
      (k : Text) (a b : List (Text × V))
      → (any (text_eq k) (union_keys a b) ≡ false)
      → (lookup k a ≡ none) × (lookup k b ≡ none)
  lookup_outside k a b out =
      let no : In k (union_keys a b) → ⊥ =
        λ i. true≢false (sym ((any-text_eq_iff k (union_keys a b)).1 i) ∙ out) in
      (
        lookup-missing k a (λ i. no ((In-union_keys k a b).1 (inl i))),
        lookup-missing k b (λ i. no ((In-union_keys k a b).1 (inr i))),
      )

pub collect-eq-nil :
    {D : Type 0} (f : Text → Option D) (ks : List Text)
    → (collect f ks ≡ []) ↔ All (λ k. f k ≡ none) ks
unfolding collect
collect-eq-nil f [] = (λ _. tt, λ _. refl)
collect-eq-nil f (k ∷ ks) = ground (arith, collect-eq-nil f ks)

-- A loop over the union finds nothing exactly when it finds nothing at any key.
pub union-eq-nil :
    {V D : Type 0} (a b : List (Text × V)) (f : Text → Option V → Option V → Option D)
    → ((k : Text) → f k none none ≡ none)
    → (collect (λ k. f k (lookup k a) (lookup k b)) (union_keys a b) ≡ [])
      ↔ ((k : Text) → f k (lookup k a) (lookup k b) ≡ none)
union-eq-nil {V = V} {D = D} a b f same = (
  λ h k. elim (Bool-cases (any (text_eq k) (union_keys a b))) [
    | inl e ↦
        All_at (λ k. f k (lookup k a) (lookup k b) ≡ none) (union_keys a b) (nothing.0 h)
          ((any-text_eq_iff k (union_keys a b)).0 e)
    | inr out ↦
        let (p, q) = lookup_outside k a b out in
        ap (λ o. f k o (lookup k b)) p ∙ ap (λ o. f k none o) q ∙ same k
  ],
  λ h. nothing.1 (All-of (λ k. f k (lookup k a) (lookup k b) ≡ none) (union_keys a b) (λ k _. h k)),
)
  where
    nothing :
        (collect (λ k. f k (lookup k a) (lookup k b)) (union_keys a b) ≡ [])
        ↔ All (λ k. f k (lookup k a) (lookup k b) ≡ none) (union_keys a b)
    nothing = collect-eq-nil (λ k. f k (lookup k a) (lookup k b)) (union_keys a b)
