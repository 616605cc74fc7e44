-- ===== src/Base/Perms.antt =====
-- Predicates that a permutation keeps: for what the code builds in the order of a Go map.
use mathlib.Core.Path.{subst}
use mathlib.Core.List.{List, Permᴰ}
use ocidoc_go.Base.Lists.{All, Pairs}

module _ {A : Type 0} where
  pub All-perm : (P : A → Type 0) {xs ys : List A} → Permᴰ xs ys → All P xs → All P ys
  All-perm P Permᴰ.nil h = tt
  All-perm P (Permᴰ.cons e p) h = (subst P e h.0, All-perm P p h.1)
  All-perm P (Permᴰ.swap e f) h = (subst P f h.1.0, (subst P e h.0, h.1.1))
  All-perm P (Permᴰ.trans p q) h = All-perm P q (All-perm P p h)

  pub Pairs-perm :
      (R : A → A → Type 0)
      → ((x y : A) → R x y → R y x)
      → {xs ys : List A} → Permᴰ xs ys
      → Pairs R xs
      → Pairs R ys
  Pairs-perm R flip Permᴰ.nil h = tt
  Pairs-perm R flip (Permᴰ.cons {l₁ = xs} {l₂ = ys} e p) h =
      (subst (λ x. All (R x) ys) e (All-perm (R _) p h.0), Pairs-perm R flip p h.1)
  Pairs-perm R flip (Permᴰ.swap {b = b} {b' = b'} {l = l} e f) h = (
    (
      subst (λ x. R x b') f (subst (λ y. R b y) e (flip _ _ h.0.0)),
      subst (λ x. All (R x) l) f h.1.0,
    ),
    (subst (λ x. All (R x) l) e h.0.1, h.1.1),
  )
  Pairs-perm R flip (Permᴰ.trans p q) h = Pairs-perm R flip q (Pairs-perm R flip p h)
