-- ===== src/PathPlan/Plan.antt =====
-- internal/pathplan/plan.go: the files of the source tree, as the walk gives them, are put to their
-- components.
pub mod Owners
use ocidoc_go.Base.{
  Bool, true, false, Option, none, some, List, [], ◌∷◌, if◌then◌else◌, Text, is_empty, Result, ok,
  err, ◌>>=◌, after,
}
use ocidoc_go.Unicode.{CaseTables}
use ocidoc_go.Spec.Errors.{ValidationError}
use ocidoc_go.Spec.BundleTree.{validate_bundle_paths}
use ocidoc_go.PathPlan.Ownership.{Ownership, own, sort_files, all_paths}
use ocidoc_go.Base.{sort_texts}
use ocidoc_go.PathPlan.Compile.{PathRules, Matchers, PlanError, conflict, walk_failed, bad_paths}

-- An error of `spec.ValidateBundlePaths`, returned as it is.
abbrev pub in_paths : {F : Type 0} → Option ValidationError → Option (PlanError F)
in_paths none = none
in_paths (some e) = some (bad_paths e)

-- The owner among the components that include a path.
abbrev pub only_owner : {F : Type 0} → Text → List Text → Result (PlanError F) Text
only_owner p [] = ok []
only_owner p (c ∷ []) = ok c
only_owner p (c ∷ d ∷ cs) = err (conflict p (sort_texts (c ∷ d ∷ cs)))

module _ {R M F : Type 0} (rules : PathRules R M F) where
  -- The components whose matcher includes the path.
  unfoldable pub matched_components : List (Text × M) → Text → List Text
  matched_components [] p = []
  matched_components ((name, matcher) ∷ rest) p =
      let others = matched_components rest p in
      if rules.included matcher p then name ∷ others else others

  -- The owner of a path, empty if there is none.
  unfoldable pub resolve_owner : Matchers M → Text → Result (PlanError F) Text
  resolve_owner ms p = only_owner p (matched_components ms.components p)

  unfoldable pub is_ignored : Option M → Text → Bool
  is_ignored none p = false
  is_ignored (some matcher) p = rules.excluded matcher p

  -- The callback of the walk.
  unfoldable pub visit : Matchers M → Ownership → Text → Result (PlanError F) Ownership
  visit ms ow p =
      if is_ignored ms.ignore p
      then ok ow
      else (do owner ← resolve_owner ms p; ok (if is_empty owner then ow else own ow owner p))

  -- The walk over the files, which ends in an error or not.
  unfoldable pub plan_from :
      Matchers M → List Text → Option F → Ownership → Result (PlanError F) Ownership
  plan_from ms [] none ow = ok ow
  plan_from ms [] (some f) ow = err (walk_failed f)
  plan_from ms (p ∷ ps) end ow = visit ms ow p >>= plan_from ms ps end

  unfoldable pub plan :
      CaseTables → Matchers M → List Text → Option F → Result (PlanError F) Ownership
  plan u ms files end = do
    ow ← plan_from ms files end []
    after (in_paths (validate_bundle_paths u (all_paths (sort_files ow)))) (ok (sort_files ow))
