-- ===== src/PathPlan/Dependencies/Fuel.antt =====
-- The loop over the frontiers ends: each wave but the last adds a path of the source tree.
use ocidoc_go.Base.{
  ◌≡◌, inl, inr, refl, ap, subst, Bool, true, false, ◌||◌, ℕ, zero, suc, ◌≤◌, ◌<◌, Option, none,
  some, List, [], ◌∷◌, if◌then◌else◌, Text, text_eq, text_eq_iff, text_eq_self, length, Result, ok,
  err, ◌>>=◌, arith, In,
}
use ocidoc_go.Unicode.{CaseTables}
use ocidoc_go.PathPlan.Ownership.{Ownership}
use ocidoc_go.PathPlan.Dependencies.Fresh.{IsBounded, wave-IsNew}
use ocidoc_go.PathPlan.Dependencies.{
  SourceTree, DependencyError, set_at, has_key, discover_wave, set_all, own_all, discover_from,
  discover_dependencies, conclude, owners_of,
}

-- The paths of `universe` that have no owner.
abbrev pub unowned : List (Text × Text) → List Text → ℕ
unowned owner [] = 0
unowned owner (x ∷ xs) = if has_key owner x then unowned owner xs else suc (unowned owner xs)

unowned-le : (owner : List (Text × Text)) (xs : List Text) → unowned owner xs ≤ length xs
unowned-le owner [] = omega arith
unowned-le owner (x ∷ xs) = ground (arith, unowned-le owner xs)

abbrev Extends : List (Text × Text) → List (Text × Text) → Type 0
Extends owner owner' = (x : Text) → has_key owner x ≡ true → has_key owner' x ≡ true

unowned-extended :
    (owner owner' : List (Text × Text)) (xs : List Text)
    → Extends owner owner'
    → unowned owner' xs ≤ unowned owner xs
unowned-extended owner owner' [] h = omega arith
unowned-extended owner owner' (x ∷ xs) h = ground (arith, unowned-extended owner owner' xs h, h x)

-- A path that gets its owner makes one less.
unowned-lt :
    (owner owner' : List (Text × Text)) (xs : List Text) (x : Text)
    → Extends owner owner'
    → In x xs
    → has_key owner x ≡ false
    → has_key owner' x ≡ true
    → unowned owner' xs < unowned owner xs
unowned-lt owner owner' [] x h m old new = absurd m
unowned-lt owner owner' (y ∷ xs) x h (inl e) old new =
    subst (λ y. unowned owner' (y ∷ xs) < unowned owner (y ∷ xs)) e
      (rw (old, new) (omega (arith, unowned-extended owner owner' xs h)))
unowned-lt owner owner' (y ∷ xs) x h (inr m) old new =
    ground (arith, unowned-lt owner owner' xs x h m old new, h y)

has_key-set_at :
    (m : List (Text × Text)) (k v x : Text)
    → has_key (set_at k v m) x ≡ (text_eq k x || has_key m x)
unfolding has_key set_at
has_key-set_at [] k v x = refl
has_key-set_at ((l, w) ∷ rest) k v x =
    ground (arith, has_key-set_at rest k v x, text_eq_iff l k, text_eq_iff l x, text_eq_iff k x)

has_key-set_all :
    (next owner : List (Text × Text)) (x : Text)
    → has_key (set_all next owner) x ≡ (has_key next x || has_key owner x)
unfolding set_all has_key
has_key-set_all [] owner x = refl
has_key-set_all ((p, c) ∷ next) owner x =
    ground (arith, has_key-set_all next (set_at p c owner) x, has_key-set_at owner p c x)

module _ {F : Type 0} (source : SourceTree F) (u : CaseTables) (ignored : Text → Bool)
    (strict : Bool) (universe : List Text) where
  -- A wave that finds something leaves less to find.
  wave-lt :
      (frontier owner : List (Text × Text)) (e : Text × Text) (es : List (Text × Text))
      (warnings ws : List Text)
      → discover_wave source u ignored strict frontier owner warnings ≡ ok (e ∷ es, ws)
      → IsBounded source universe
      → unowned (set_all (e ∷ es) owner) universe < unowned owner universe
  unfolding has_key
  wave-lt frontier owner e es warnings ws h bound =
      let new =
        wave-IsNew source u ignored strict universe frontier owner (e ∷ es) warnings ws h bound in
      unowned-lt owner (set_all (e ∷ es) owner) universe e.0
        (λ x old. ground (arith, has_key-set_all (e ∷ es) owner x, old)) new.0.0 new.0.1
        (ground (arith, has_key-set_all (e ∷ es) owner e.0, text_eq_self e.0))

  discover_from-ends :
      (fuel : ℕ) (frontier owner : List (Text × Text)) (ow : Ownership) (warnings : List Text)
      → IsBounded source universe
      → unowned owner universe < fuel
      → (r : Result (DependencyError F) (Ownership × List Text)) × (discover_from source u ignored
            strict fuel owner ow frontier warnings
          ≡ some r)
  unfolding discover_from
  discover_from-ends fuel [] owner ow warnings bound enough = (ok (ow, warnings), refl)
  discover_from-ends zero (e ∷ es) owner ow warnings bound enough = absurd (omega arith)
  discover_from-ends (suc fuel) (e ∷ es) owner ow warnings bound enough =
      go (discover_wave source u ignored strict (e ∷ es) owner warnings) refl
        (λ next. discover_from-ends fuel next (set_all next owner) (own_all next ow))
    where
      go :
          (wave : Result (DependencyError F) (List (Text × Text) × List Text))
          → discover_wave source u ignored strict (e ∷ es) owner warnings ≡ wave
          → ((next : List (Text × Text)) (ws : List Text)
              → IsBounded source universe
              → unowned (set_all next owner) universe < fuel
              → (r : Result (DependencyError F) (Ownership × List Text)) × (discover_from source u
                    ignored strict fuel
                    (set_all next owner)
                    (own_all next ow)
                    next
                    ws
                  ≡ some r))
          → (r : Result (DependencyError F) (Ownership × List Text)) × (elim wave [
            | err x ↦ some (err x)
            | ok found ↦
                discover_from source u ignored strict fuel
                  (set_all found.0 owner)
                  (own_all found.0 ow)
                  found.0
                  found.1
          ]
              ≡ some r)
      go (err x) seen again = (err x, refl)
      go (ok ([], ws)) seen again = (ok (own_all [] ow, ws), refl)
      go (ok (n ∷ next, ws)) seen again =
          again (n ∷ next) ws bound
            (omega (arith, enough, wave-lt (e ∷ es) owner n next warnings ws seen bound))

-- If every file that a reference resolves to is in a finite universe of paths, then discovering
-- dependencies gives a result or an error in at most one wave more than the universe has paths.
pub discover_dependencies-ends :
    {F : Type 0} (source : SourceTree F) (u : CaseTables) (ignored : Text → Bool) (strict : Bool)
    (universe : List Text) (ow : Ownership)
    → IsBounded source universe
    → (r : Result (DependencyError F) (Ownership × List Text)) × (discover_dependencies source u
          ignored strict
          (suc (length universe))
          ow
        ≡ some r)
unfolding discover_dependencies
discover_dependencies-ends {F} source u ignored strict universe ow bound =
    let (r, e) =
      discover_from-ends source u ignored strict universe (suc (length universe)) (owners_of ow)
        (owners_of ow) ow [] bound (omega (arith, unowned-le (owners_of ow) universe)) in
    (
      r >>= conclude source u ignored strict,
      ap
          (λ (o : Option (Result (DependencyError F) (Ownership × List Text))).
            elim o as (λ _. Option (Result (DependencyError F) (Ownership × List Text))) [
              | none ↦ none
              | some r ↦ some (r >>= conclude source u ignored strict)
            ])
          e,
    )
