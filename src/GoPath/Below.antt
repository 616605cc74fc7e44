-- ===== src/GoPath/Below.antt =====
-- Lexical facts: `Rel` of two absolute paths is below the first exactly if its elements are the first
-- elements of the other.
use mathlib.Core.Bool.{false≢true}
use ocidoc_go.Base.{
  ◌≡◌, ◌≢◌, ◌⊎◌, inl, inr, refl, sym, ap, subst, ◌∙◌, true, false, ◌||◌, List, [], ◌∷◌, ◌++◌, map,
  Text, codes, is_empty, text_eq, text_eq_iff, has_prefix, contains_byte, join, All, Bool-cases,
  arith, if◌then◌else◌,
}
use ocidoc_go.GoPath.{is_abs, elements, rel_elements, rel}
use ocidoc_go.GoPath.Rooted.{IsPlain, elements-IsPlain}

-- The first elements of a path are those of the other.
abbrev pub Below : List Text → List Text → Type 0
Below bs ts = (rest : List Text) × (ts ≡ bs ++ rest)

rel_elements-cases :
    (bs ts : List Text)
    → ((rest : List Text) × (ts ≡ bs ++ rest) × (rel_elements bs ts ≡ rest))
      ⊎ ((¬ Below bs ts) × ((more : List Text) × (rel_elements bs ts ≡ codes ".." ∷ more)))
unfolding rel_elements
rel_elements-cases [] ts = inl (ts, refl, refl)
rel_elements-cases (b ∷ bs) [] =
    inr (λ below. nil-ne-cons below.1, (map (λ _. codes "..") bs, refl))
  where
    nil-ne-cons : {x : Text} {xs : List Text} → [] ≢ x ∷ xs
    nil-ne-cons h = cc
rel_elements-cases (b ∷ bs) (t ∷ ts) = elim (Bool-cases (text_eq b t)) [
  | inl e ↦ elim (rel_elements-cases bs ts) [
    | inl (rest, same, left) ↦ inl (
      rest,
      ap (λ us. t ∷ us) same ∙ ap (λ u. u ∷ bs ++ rest) (sym ((text_eq_iff b t).0 e)),
      rw e left,
    )
    | inr (outside, (more, left)) ↦
        inr (λ below. outside (below.0, tail_eq below.1), (more, rw e left))
  ]
  | inr n ↦ inr (
    λ below. false≢true (sym n ∙ (text_eq_iff b t).1 (sym (head_eq below.1))),
    (map (λ _. codes "..") bs ++ t ∷ ts, rw n refl),
  )
]
  where
    tail_eq : {x y : Text} {xs ys : List Text} → x ∷ xs ≡ y ∷ ys → xs ≡ ys
    tail_eq h = cc

    head_eq : {x y : Text} {xs ys : List Text} → x ∷ xs ≡ y ∷ ys → x ≡ y
    head_eq h = cc

-- Where `Rel` goes up first, and where it does not.
goes_up : (more : List Text) → text_eq (join b'/' (codes ".." ∷ more)) (codes ".") ≡ false
unfolding join text_eq
goes_up [] = refl
goes_up (m ∷ ms) = refl

up_is_outside :
    (more : List Text)
    → (text_eq (join b'/' (codes ".." ∷ more)) (codes "..")
        || has_prefix (join b'/' (codes ".." ∷ more)) (codes "../"))
      ≡ true
unfolding join text_eq has_prefix
up_is_outside [] = refl
up_is_outside (m ∷ ms) = refl

-- A text that is not `..`, does not go up, and is not absolute.
abbrev pub Stays : Text → Type 0
Stays t =
    (text_eq t (codes "..") ≡ false) × (has_prefix t (codes "../") ≡ false) × (is_abs t ≡ false)

alone-Stays : (seg : Text) → IsPlain seg → Stays seg
unfolding text_eq has_prefix is_abs contains_byte
alone-Stays [] h = (refl, refl, refl)
alone-Stays (a ∷ []) h = ground (arith, h.one)
alone-Stays (a ∷ b ∷ []) h = ground (arith, h.one, h.normal.not_dot_dot)
alone-Stays (a ∷ b ∷ c ∷ seg) h = ground (arith, h.one)

first-Stays : (seg rest : Text) → IsPlain seg → Stays (seg ++ b'/' ∷ rest)
unfolding text_eq has_prefix is_abs contains_byte
first-Stays [] rest h = absurd (false≢true (sym h.normal.not_empty))
first-Stays (a ∷ []) rest h = ground (arith, h.one)
first-Stays (a ∷ b ∷ []) rest h = ground (arith, h.one, h.normal.not_dot_dot)
first-Stays (a ∷ b ∷ c ∷ seg) rest h = ground (arith, h.one)

-- A path of one or more ordinary elements stays where it starts.
join-Stays : (seg : Text) (segs : List Text) → IsPlain seg → Stays (join b'/' (seg ∷ segs))
unfolding join
join-Stays seg [] h = alone-Stays seg h
join-Stays seg (s ∷ segs) h = first-Stays seg (join b'/' (s ∷ segs)) h

-- `Rel` between two absolute paths: it stays, or is the path itself, exactly below the first.
pub rel-Stays :
    (base target : Text)
    → is_abs target ≡ true
    → (Below (elements base) (elements target)
        × ((rel base target ≡ codes ".") ⊎ Stays (rel base target)))
      ⊎ ((¬ Below (elements base) (elements target))
          × ((text_eq (rel base target) (codes ".") ≡ false)
              × ((text_eq (rel base target) (codes "..")
                    || has_prefix (rel base target) (codes "../"))
                  ≡ true)))
unfolding rel
rel-Stays base target rooted = go (elements base) (elements target) (elements-IsPlain target rooted)
  where
    spelt : List Text → Text
    spelt parts = if is_empty parts then codes "." else join b'/' parts

    plain-Stays :
        (parts : List Text) → All IsPlain parts → (spelt parts ≡ codes ".") ⊎ Stays (spelt parts)
    plain-Stays [] h = inl refl
    plain-Stays (seg ∷ segs) h = inr (join-Stays seg segs h.0)

    rest_of : (bs rest : List Text) → All IsPlain (bs ++ rest) → All IsPlain rest
    rest_of [] rest h = h
    rest_of (b ∷ bs) rest h = rest_of bs rest h.1

    go :
        (bs ts : List Text)
        → All IsPlain ts
        → (Below bs ts
            × ((spelt (rel_elements bs ts) ≡ codes ".") ⊎ Stays (spelt (rel_elements bs ts))))
          ⊎ ((¬ Below bs ts)
              × ((text_eq (spelt (rel_elements bs ts)) (codes ".") ≡ false)
                  × ((text_eq (spelt (rel_elements bs ts)) (codes "..")
                        || has_prefix (spelt (rel_elements bs ts)) (codes "../"))
                      ≡ true)))
    go bs ts h = elim (rel_elements-cases bs ts) [
      | inl (rest, same, left) ↦ inl (
        (rest, same),
        subst (λ parts. (spelt parts ≡ codes ".") ⊎ Stays (spelt parts)) (sym left)
            (plain-Stays rest (rest_of bs rest (subst (All IsPlain) same h))),
      )
      | inr (outside, (more, left)) ↦ inr (
        outside,
        subst
            (λ parts.
              (text_eq (spelt parts) (codes ".") ≡ false)
              × ((text_eq (spelt parts) (codes "..") || has_prefix (spelt parts) (codes "../"))
                  ≡ true))
            (sym left) (goes_up more, up_is_outside more),
      )
    ]
