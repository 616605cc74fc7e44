-- ===== src/Spec/BundleTree/Collisions.antt =====
-- `ValidateBundlePaths` against its description: every path valid, no two of them in each other's way.
use mathlib.Core.Bool.{false≢true, true≢false}
use ocidoc_go.Base.{
  ◌≡◌, ◌≢◌, ◌↔◌, refl, sym, ◌∙◌, subst, true, false, Option, none, some, List, [], ◌∷◌, inl, inr,
  Text, is_empty, text_eq_iff, ok, err, any, All, All-and, Pairs, split, split-ne-nil, arith, map,
  Result, Bool-cases, Option-cases,
}
use ocidoc_go.Unicode.{CaseTables, to_lower}
use ocidoc_go.Spec.Errors.{ValidationError}
use ocidoc_go.Spec.BundlePath.{validate_bundle_path}
use ocidoc_go.Spec.BundleTree.{Node, node, leaf, walk, keys, add_paths, validate_bundle_paths}
use ocidoc_go.Spec.BundleTree.Walk.{
  keys_eq, clash, holds, Grown, holds-new, holds-walk, clash-walk, clash_of_walk, walk-Grown,
}

-- The keys stored in `n` are those of `seen`.
abbrev Stored : List (List Text) → Node → Type 0
Stored seen n = (js : List Text) → holds js n ≡ any (keys_eq js) seen

keys_eq_iff : (js ks : List Text) → (keys_eq js ks ≡ true) ↔ (js ≡ ks)
unfolding keys_eq
keys_eq_iff [] [] = (λ _. refl, λ _. refl)
keys_eq_iff [] (k ∷ ks) = (λ h. cc, λ h. cc)
keys_eq_iff (j ∷ js) [] = (λ h. cc, λ h. cc)
keys_eq_iff (j ∷ js) (k ∷ ks) = ground (arith, text_eq_iff j k, keys_eq_iff js ks)

All-seen_at :
    (P : List Text → Type 0) (seen : List (List Text)) (js : List Text)
    → All P seen
    → any (keys_eq js) seen ≡ true
    → P js
All-seen_at P [] js a h = absurd (false≢true h)
All-seen_at P (ks ∷ seen) js a h = elim (Bool-cases (keys_eq js ks)) [
  | inl e ↦ subst P (sym ((keys_eq_iff js ks).0 e)) a.0
  | inr n ↦ All-seen_at P seen js a.1 (ground arith)
]

All-seen_of :
    (P : List Text → Type 0) (seen : List (List Text))
    → ((js : List Text) → any (keys_eq js) seen ≡ true → P js)
    → All P seen
All-seen_of P [] f = tt
All-seen_of P (ks ∷ seen) f =
    (f ks (ground (arith, keys_eq_iff ks ks)), All-seen_of P seen (λ js h. f js (ground arith)))

valid-not_empty : (u : CaseTables) (p : Text) → validate_bundle_path u p ≡ none → is_empty p ≡ false
unfolding validate_bundle_path
valid-not_empty u [] h = cc
valid-not_empty u (c ∷ p) h = refl

keys-ne-nil : (u : CaseTables) (p : Text) → keys u p ≢ []
unfolding keys
keys-ne-nil u p = map-ne-nil (split b'/' p) (split-ne-nil b'/' p)
  where
    map-ne-nil : (ps : List Text) → ps ≢ [] → map (to_lower u) ps ≢ []
    map-ne-nil [] h = absurd (h refl)
    map-ne-nil (q ∷ ps) h = cc

holds-root : Stored [] (node [] [] leaf)
holds-root js = holds-new [] js

All-of_All : (P : Text → Type 0) (xs : List Text) → ((x : Text) → P x) → All P xs
All-of_All P [] f = tt
All-of_All P (x ∷ xs) f = (f x, All-of_All P xs f)

module _ (u : CaseTables) where
  -- Each path is valid, and clashes with none of `seen` and none before it.
  abbrev Free : List (List Text) → List Text → Type 0
  Free seen [] = Unit
  Free seen (p ∷ ps) =
      (validate_bundle_path u p ≡ none)
      × All (λ js. clash js (keys u p) ≡ false) seen
      × Free (keys u p ∷ seen) ps

  -- One path: what the walk says of the tree is what the description says of `seen`.
  step-Free :
      (p : Text) (seen : List (List Text)) (n : Node) (rest : Node → Option ValidationError)
      (F : Type 0) (r : Result ValidationError Node)
      → is_empty p ≡ false
      → Grown n
      → Stored seen n
      → ((n' : Node) → Grown n' → Stored (keys u p ∷ seen) n' → (rest n' ≡ none) ↔ F)
      → walk p (keys u p) n ≡ r
      → (elim r [ err e ↦ some e | ok n' ↦ rest n' ] ≡ none)
        ↔ (All (λ js. clash js (keys u p) ≡ false) seen × F)
  step-Free p seen n rest F (err e) named g st ih w = (
    λ h. cc,
    λ h.
        let (js, held, meets) = clash_of_walk p (keys u p) n e g w in
        absurd (
          true≢false (
            sym meets
            ∙ All-seen_at (λ ks. clash ks (keys u p) ≡ false) seen js h.0 (sym (st js) ∙ held))),
  )
  step-Free p seen n rest F (ok n') named g st ih w =
      let st' : Stored (keys u p ∷ seen) n' =
        λ js. ground (arith, holds-walk p (keys u p) js n n' named w, st js) in
      let (g', _) = walk-Grown p (keys u p) n n' named g w in
      let free : All (λ js. clash js (keys u p) ≡ false) seen =
        All-seen_of (λ js. clash js (keys u p) ≡ false) seen
          λ js m.
            clash-walk p (keys u p) js n n' g (λ e. absurd (keys-ne-nil u p e)) w (st js ∙ m) in
      (λ h. (free, (ih n' g' st').0 h), λ h. (ih n' g' st').1 h.1)

  add_paths-Free :
      (ps : List Text) (seen : List (List Text)) (n : Node)
      → Grown n
      → Stored seen n
      → (add_paths u ps n ≡ none) ↔ Free seen ps
  unfolding add_paths
  add_paths-Free [] seen n g st = (λ _. tt, λ _. refl)
  add_paths-Free (p ∷ ps) seen n g st = elim (Option-cases (validate_bundle_path u p)) [
    | inr (e, bad) ↦ rw bad (λ h. cc, λ h. cc)
    | inl fine ↦
        let step =
          step-Free p seen n (add_paths u ps) (Free (keys u p ∷ seen) ps) (walk p (keys u p) n)
            (valid-not_empty u p fine) g st (add_paths-Free ps (keys u p ∷ seen)) refl in
        rw fine (λ h. let (a, b) = step.0 h in (refl, a, b), λ h. step.1 (h.1, h.2))
  ]

  Free-Pairs :
      (ps : List Text) (seen : List (List Text))
      → Free seen ps ↔ (
          All (λ p. validate_bundle_path u p ≡ none) ps
          × Pairs (λ p q. clash (keys u p) (keys u q) ≡ false) ps
          × All (λ p. All (λ js. clash js (keys u p) ≡ false) seen) ps)
  Free-Pairs [] seen = (λ _. (tt, tt, tt), λ _. tt)
  Free-Pairs (p ∷ ps) seen =
      let apart =
        All-and (λ q. clash (keys u p) (keys u q) ≡ false)
          (λ q. All (λ js. clash js (keys u q) ≡ false) seen) ps in
      (
        λ h.
            let (valid, pairs, both) = (Free-Pairs ps (keys u p ∷ seen)).0 h.2 in
            let (here, others) = apart.0 both in ((h.0, valid), (here, pairs), (h.1, others)),
        λ h. (
          h.0.0,
          h.2.0,
          (Free-Pairs ps (keys u p ∷ seen)).1 (h.0.1, h.1.1, apart.1 (h.1.0, h.2.1)),
        ),
      )

  -- A list of paths is accepted exactly when each path is valid by itself and, of any two paths in
  -- it, neither one's lower-case segments are a prefix of the other's: no path occurs twice, none
  -- differs from another only by case, and none is a directory of another.
  pub validate_bundle_paths-eq-none :
      (ps : List Text)
      → (validate_bundle_paths u ps ≡ none) ↔ (
          All (λ p. validate_bundle_path u p ≡ none) ps
          × Pairs (λ p q. clash (keys u p) (keys u q) ≡ false) ps)
  unfolding validate_bundle_paths
  validate_bundle_paths-eq-none ps =
      let free = add_paths-Free ps [] (node [] [] leaf) tt holds-root in
      let pairs = Free-Pairs ps [] in
      (
        λ h. let (valid, apart, _) = pairs.0 (free.0 h) in (valid, apart),
        λ h. free.1 (pairs.1 (h.0, h.1, All-of_All (λ _. Unit {0}) ps (λ _. tt))),
      )
