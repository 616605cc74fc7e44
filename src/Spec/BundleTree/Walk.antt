-- ===== src/Spec/BundleTree/Walk.antt =====
-- What one walk through the tree of `ValidateBundlePaths` stores and refuses.
use ocidoc_go.Base.{
  ◌≡◌, ◌≢◌, refl, sym, ◌∙◌, subst, Bool, true, false, ◌&&◌, ◌||◌, not, Option, none, some, List, [],
  ◌∷◌, ◌⊎◌, inl, inr, if◌then◌else◌, Text, is_empty, text_eq, text_eq_iff, text_eq_self, ok, err,
  arith, Bool-cases, Option-cases,
}
use ocidoc_go.Spec.Errors.{ValidationError}
use ocidoc_go.Spec.BundleTree.{
  Node, node, Children, leaf, child, find, put, has_children, or_new, finish, walk,
}

unfoldable pub keys_eq : List Text → List Text → Bool
keys_eq [] [] = true
keys_eq [] (k ∷ ks) = false
keys_eq (j ∷ js) [] = false
keys_eq (j ∷ js) (k ∷ ks) = text_eq j k && keys_eq js ks

unfoldable pub is_ancestor : List Text → List Text → Bool
is_ancestor [] ks = true
is_ancestor (j ∷ js) [] = false
is_ancestor (j ∷ js) (k ∷ ks) = text_eq j k && is_ancestor js ks

-- One of two key lists is a prefix of the other, equality included.
unfoldable pub clash : List Text → List Text → Bool
unfolding is_ancestor
clash js ks = is_ancestor js ks || is_ancestor ks js

-- A path is stored at the end of the keys `js`.
pub holds : List Text → Node → Bool
holds [] (node path any_path children) = not (is_empty path)
holds (j ∷ js) (node path any_path children) = elim (find j children) [
  | none ↦ false
  | some c ↦ holds js c
]

abbrev pub any_of : Node → Text
any_of (node path any_path children) = any_path

abbrev pub is_live : Node → Bool
unfolding has_children
is_live (node path any_path children) = not (is_empty path) || has_children children

-- Every node below is named, and is the end of a path or has children.
abbrev mutual
  pub Grown : Node → Type 0
  Grown (node path any_path children) = AllGrown children

  pub AllGrown : Children → Type 0
  AllGrown leaf = Unit
  AllGrown (child k c rest) =
      (is_empty (any_of c) ≡ false) × (is_live c ≡ true) × Grown c × AllGrown rest

find-put :
    (j k : Text) (c : Node) (ch : Children)
    → find j (put k c ch) ≡ (if text_eq k j then some c else find j ch)
unfolding find put
find-put j k c leaf = refl
find-put j k c (child i d rest) =
    ground (arith, text_eq_iff i k, text_eq_iff k j, text_eq_iff i j, find-put j k c rest)

pub holds-new : (p : Text) (js : List Text) → holds js (node [] p leaf) ≡ false
unfolding holds find
holds-new p [] = refl
holds-new p (j ∷ js) = refl

holds-or_new :
    (p k : Text) (js : List Text) (path any_path : Text) (ch : Children)
    → holds js (or_new p (find k ch)) ≡ holds (k ∷ js) (node path any_path ch)
unfolding holds or_new
holds-or_new p k js path any_path ch = go (find k ch)
  where
    go : (o : Option Node) → holds js (or_new p o) ≡ elim o [ none ↦ false | some c ↦ holds js c ]
    go none = holds-new p js
    go (some c) = refl

-- What a successful end of a walk says.
finish-eq-ok :
    (p path any_path : Text) (ch : Children) (n' : Node)
    → finish p (node path any_path ch) ≡ ok n'
    → (is_empty path ≡ true)
      × ((is_empty any_path ≡ true) ⊎ (has_children ch ≡ false))
      × (n' ≡ node p (if is_empty any_path then p else any_path) ch)
unfolding finish
finish-eq-ok p path any_path ch n' h = ground arith

-- What a successful step of a walk says.
walk-eq-ok :
    (p k : Text) (ks : List Text) (path any_path : Text) (ch : Children) (n' : Node)
    → walk p (k ∷ ks) (node path any_path ch) ≡ ok n'
    → (c : Node) × (is_empty path ≡ true)
      × (walk p ks (or_new p (find k ch)) ≡ ok c)
      × (n' ≡ node path any_path (put k c ch))
unfolding walk
walk-eq-ok p k ks path any_path ch n' h = ground arith

-- A walk that succeeds stores its keys, and nothing else.
pub holds-walk :
    (p : Text) (ks js : List Text) (n n' : Node)
    → is_empty p ≡ false
    → walk p ks n ≡ ok n'
    → holds js n' ≡ (holds js n || keys_eq js ks)
unfolding holds keys_eq
holds-walk p [] [] (node path any_path ch) n' named h =
    let (bare, _, e) = finish-eq-ok p path any_path ch n' (unfold walk in h) in rw e (ground arith)
holds-walk p [] (j ∷ js) (node path any_path ch) n' named h =
    let (bare, _, e) = finish-eq-ok p path any_path ch n' (unfold walk in h) in rw e (ground arith)
holds-walk p (k ∷ ks) [] (node path any_path ch) n' named h =
    let (c, bare, w, e) = walk-eq-ok p k ks path any_path ch n' h in rw e (ground arith)
holds-walk p (k ∷ ks) (j ∷ js) (node path any_path ch) n' named h =
    let (c, bare, w, e) = walk-eq-ok p k ks path any_path ch n' h in
    rw e (
      ground (
        arith,
        find-put j k c ch,
        text_eq_iff k j,
        text_eq_iff j k,
        holds-walk p ks js (or_new p (find k ch)) c named w,
        holds-or_new p j js path any_path ch,
      ))

pub AllGrown-at :
    (k : Text) (c : Node) (ch : Children)
    → AllGrown ch
    → find k ch ≡ some c
    → (is_empty (any_of c) ≡ false) × (is_live c ≡ true) × Grown c
unfolding find
AllGrown-at k c leaf g h = cc
AllGrown-at k c (child j d rest) g h = elim (Bool-cases (text_eq j k)) [
  | inl e ↦
      let same : d ≡ c = ground arith in
      subst (λ x. (is_empty (any_of x) ≡ false) × (is_live x ≡ true) × Grown x) same (g.0, g.1, g.2)
  | inr n ↦ AllGrown-at k c rest g.3 (ground arith)
]

find_of_holds :
    (j : Text) (js : List Text) (path any_path : Text) (ch : Children)
    → holds (j ∷ js) (node path any_path ch) ≡ true
    → (c : Node) × (find j ch ≡ some c) × (holds js c ≡ true)
unfolding holds
find_of_holds j js path any_path ch h = ground arith

has_children_of_find :
    (j : Text) (c : Node) (ch : Children) → find j ch ≡ some c → has_children ch ≡ true
unfolding find has_children
has_children_of_find j c leaf h = cc
has_children_of_find j c (child k d rest) h = refl

clash_cons :
    (j k : Text) (js ks : List Text)
    → (text_eq j k ≡ true → clash js ks ≡ false)
    → clash (j ∷ js) (k ∷ ks) ≡ false
unfolding clash
clash_cons j k js ks h = ground (arith, text_eq_iff j k, text_eq_iff k j)

-- A walk that succeeds meets no stored path that clashes with its keys.
pub clash-walk :
    (p : Text) (ks js : List Text) (n n' : Node)
    → Grown n
    → ((ks ≡ []) → is_empty (any_of n) ≡ false)
    → walk p ks n ≡ ok n'
    → holds js n ≡ true
    → clash js ks ≡ false
unfolding clash or_new
clash-walk p [] [] (node path any_path ch) n' g named h m =
    let (bare, _, e) = finish-eq-ok p path any_path ch n' (unfold walk in h) in
    unfold holds in ground arith
clash-walk p [] (j ∷ js) (node path any_path ch) n' g named h m =
    let (bare, ends, e) = finish-eq-ok p path any_path ch n' (unfold walk in h) in
    let (c, found, _) = find_of_holds j js path any_path ch m in
    ground (arith, named refl, has_children_of_find j c ch found)
clash-walk p (k ∷ ks) [] (node path any_path ch) n' g named h m =
    let (c, bare, w, e) = walk-eq-ok p k ks path any_path ch n' h in unfold holds in ground arith
clash-walk p (k ∷ ks) (j ∷ js) (node path any_path ch) n' g named h m =
    let (c, bare, w, e) = walk-eq-ok p k ks path any_path ch n' h in
    let (d, found, deeper) = find_of_holds j js path any_path ch m in
    clash_cons j k js ks λ same.
      let at : find k ch ≡ some d =
        subst (λ x. find x ch ≡ some d) ((text_eq_iff j k).0 same) found in
      let (d_named, _, d_grown) = AllGrown-at k d ch g at in
      let w' : walk p ks d ≡ ok c = subst (λ o. walk p ks (or_new p o) ≡ ok c) at w in
      clash-walk p ks js d c d_grown (λ _. d_named) w' deeper

-- Below every node there is the end of a stored path.
mutual
  unfolding holds find has_children

  live : (n : Node) → Grown n → is_live n ≡ true → (js : List Text) × (holds js n ≡ true)
  live (node path any_path ch) g h = elim (Bool-cases (is_empty path)) [
    | inl e ↦ let (j, js, held) = live_below ch g (ground arith) in (j ∷ js, held path any_path)
    | inr n ↦ ([], ground arith)
  ]

  live_below :
      (ch : Children)
      → AllGrown ch
      → has_children ch ≡ true
      → (j : Text) × (js : List Text) × ((path any_path : Text)
          → holds (j ∷ js) (node path any_path ch) ≡ true)
  live_below leaf g h = cc
  live_below (child k c rest) g h =
      let (js, held) = live c g.2 g.1 in (k, js, λ path any_path. rw (text_eq_self k, holds) held)

-- A walk from a new node succeeds.
walk-new : (p : Text) (ks : List Text) → (n : Node) × (walk p ks (node [] p leaf) ≡ ok n)
unfolding walk finish find or_new has_children
walk-new p [] = (node p (if is_empty p then p else p) leaf, ground arith)
walk-new p (k ∷ ks) = let (n, h) = walk-new p ks in (node [] p (put k n leaf), rw h refl)

holds_below :
    (j : Text) (js : List Text) (path any_path : Text) (c : Node) (ch : Children)
    → find j ch ≡ some c
    → holds js c ≡ true
    → holds (j ∷ js) (node path any_path ch) ≡ true
unfolding holds
holds_below j js path any_path c ch at h = ground arith

ok-ne-err : (n : Node) (e : ValidationError) → ok n ≢ err e
ok-ne-err n e = cc

-- A walk that fails meets a stored path that clashes with its keys.
pub clash_of_walk :
    (p : Text) (ks : List Text) (n : Node) (e : ValidationError)
    → Grown n
    → walk p ks n ≡ err e
    → (js : List Text) × (holds js n ≡ true) × (clash js ks ≡ true)
unfolding clash
clash_of_walk p [] (node path any_path ch) e g h = elim (Bool-cases (is_empty path)) [
  | inl bare ↦
      let below : has_children ch ≡ true = unfold walk finish in ground arith in
      let (j, js, held) = live_below ch g below in (j ∷ js, held path any_path, refl)
  | inr ends ↦ ([], unfold holds in ground arith, refl)
]
clash_of_walk p (k ∷ ks) (node path any_path ch) e g h = elim (Bool-cases (is_empty path)) [
  | inl bare ↦
      let deep : walk p ks (or_new p (find k ch)) ≡ err e = unfold walk in ground arith in
      elim (Option-cases (find k ch)) [
        | inl at ↦
            let new : walk p ks (node [] p leaf) ≡ err e =
              unfold or_new in subst (λ o. walk p ks (or_new p o) ≡ err e) at deep in
            let (n, fine) = walk-new p ks in absurd (ok-ne-err n e (sym fine ∙ new))
        | inr (d, at) ↦
            let old : walk p ks d ≡ err e =
              unfold or_new in subst (λ o. walk p ks (or_new p o) ≡ err e) at deep in
            let (d_named, _, d_grown) = AllGrown-at k d ch g at in
            let (js, held, meets) = clash_of_walk p ks d e d_grown old in
            (k ∷ js, holds_below k js path any_path d ch at held, rw (text_eq_self k) meets)
      ]
  | inr ends ↦ ([], unfold holds in ground arith, refl)
]

AllGrown-put :
    (k : Text) (c : Node) (ch : Children)
    → AllGrown ch
    → is_empty (any_of c) ≡ false
    → is_live c ≡ true
    → Grown c
    → AllGrown (put k c ch)
unfolding put
AllGrown-put k c leaf g a l h = (a, l, h, tt)
AllGrown-put k c (child j d rest) g a l h = elim (Bool-cases (text_eq j k)) [
  | inl e ↦ rw e (a, l, h, g.3)
  | inr n ↦ rw n (g.0, g.1, g.2, AllGrown-put k c rest g.3 a l h)
]

any_of-walk :
    (p : Text) (ks : List Text) (n n' : Node)
    → is_empty p ≡ false
    → is_empty (any_of n) ≡ false
    → walk p ks n ≡ ok n'
    → is_empty (any_of n') ≡ false
any_of-walk p [] (node path any_path ch) n' named before h =
    let (bare, _, e) = finish-eq-ok p path any_path ch n' (unfold walk in h) in rw e (ground arith)
any_of-walk p (k ∷ ks) (node path any_path ch) n' named before h =
    let (c, bare, w, e) = walk-eq-ok p k ks path any_path ch n' h in rw e before

has_children-put : (k : Text) (c : Node) (ch : Children) → has_children (put k c ch) ≡ true
unfolding has_children put
has_children-put k c leaf = refl
has_children-put k c (child j d rest) = ground arith

or_new-Grown :
    (p k : Text) (ch : Children)
    → is_empty p ≡ false
    → AllGrown ch
    → Grown (or_new p (find k ch)) × (is_empty (any_of (or_new p (find k ch))) ≡ false)
unfolding or_new
or_new-Grown p k ch named g = elim (Option-cases (find k ch)) [
  | inl at ↦ rw (at, or_new) (tt, named)
  | inr (d, at) ↦
      let (d_named, _, d_grown) = AllGrown-at k d ch g at in rw (at, or_new) (d_grown, d_named)
]

-- A walk that succeeds leaves a grown tree.
pub walk-Grown :
    (p : Text) (ks : List Text) (n n' : Node)
    → is_empty p ≡ false
    → Grown n
    → walk p ks n ≡ ok n'
    → Grown n' × (is_live n' ≡ true)
unfolding has_children
walk-Grown p [] (node path any_path ch) n' named g h =
    let (bare, _, e) = finish-eq-ok p path any_path ch n' (unfold walk in h) in
    rw e (g, ground arith)
walk-Grown p (k ∷ ks) (node path any_path ch) n' named g h =
    let (c, bare, w, e) = walk-eq-ok p k ks path any_path ch n' h in
    let (from_grown, from_named) = or_new-Grown p k ch named g in
    let (c_grown, c_live) = walk-Grown p ks (or_new p (find k ch)) c named from_grown w in
    let c_named = any_of-walk p ks (or_new p (find k ch)) c named from_named w in
    rw e (AllGrown-put k c ch g c_named c_live c_grown, ground (arith, has_children-put k c ch))
