-- ===== src/PathPlan/Plan/Owners.antt =====
-- What a plan owns.
use ocidoc_go.Base.{◌≡◌, ◌⊎◌, false, [], ◌∷◌, Text, is_empty}
use ocidoc_go.PathPlan.Ownership.{Ownership, own}
use ocidoc_go.PathPlan.Compile.{PathRules, Matchers}
use ocidoc_go.PathPlan.Plan.{matched_components, is_ignored}

module _ {R M F : Type 0} (rules : PathRules R M F) (ms : Matchers M) where
  -- The path is not ignored, and `c` is the one component that includes it.
  pub record Owns (c p : Text) : Type 0 where
    pub not_ignored : is_ignored rules ms.ignore p ≡ false
    pub only : matched_components rules ms.components p ≡ c ∷ []
    pub named : is_empty c ≡ false

  -- A visit leaves an ownership as it is, or adds the path to its one component.
  abbrev Visited : Ownership → Ownership → Text → Type 0
  Visited ow ow' p =
      ((ow ≡ ow') × ((c : Text) → Owns c p → ⊥)) ⊎ ((d : Text) × Owns d p × (own ow d p ≡ ow'))
