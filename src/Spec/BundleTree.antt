-- ===== src/Spec/BundleTree.antt =====
-- spec/paths.go: `ValidateBundlePaths`, a tree of path segments folded to lower case. The pointers
-- of the source form a tree, so the walk returns the changed node.
pub mod Walk
pub mod Collisions
use ocidoc_go.Base.{
  Bool, true, false, ◌&&◌, not, Option, none, some, List, [], ◌∷◌, map, if◌then◌else◌, Text,
  is_empty, text_eq, split, Result, ok, err, ◌>>=◌, ◌⨾◌,
}
use ocidoc_go.Unicode.{CaseTables, to_lower}
use ocidoc_go.Spec.Errors.{
  path_collision, Message, duplicate_path, ancestor_of, descendant_of, case_collision,
  ValidationError,
}
use ocidoc_go.Spec.BundlePath.{validate_bundle_path}

-- `bundlePathNode`, and its map of children by folded segment.
mutual
  pub data Node : Type 0 where
    node : Text → Text → Children → Node

  pub data Children : Type 0 where
    leaf : Children
    child : Text → Node → Children → Children

unfoldable pub find : Text → Children → Option Node
find k leaf = none
find k (child j c rest) = if text_eq j k then some c else find k rest

unfoldable pub put : Text → Node → Children → Children
put k c leaf = child k c leaf
put k c (child j d rest) = if text_eq j k then child j c rest else child j d (put k c rest)

unfoldable pub has_children : Children → Bool
has_children leaf = false
has_children (child k c rest) = true

-- The second argument of `pathCollision` is in the message.
abbrev pub collision : Text → Message → ValidationError
collision p m = record {
  code = path_collision;
  component = [];
  path = p;
  annotation = [];
  locale = [];
  message = m;
}

-- A new node for `path`, where the segment has none.
unfoldable pub or_new : Text → Option Node → Node
or_new p none = node [] p leaf
or_new p (some c) = c

-- The end of the walk: the node of the whole path.
unfoldable pub finish : Text → Node → Result ValidationError Node
finish p (node path any_path children) =
    if not (is_empty path)
    then err (collision p (if text_eq path p then duplicate_path else case_collision path))
    else if not (is_empty any_path) && has_children children
    then err (collision p (descendant_of any_path))
    else ok (node p (if is_empty any_path then p else any_path) children)

-- The loop over the segments, below one node.
unfoldable pub walk : Text → List Text → Node → Result ValidationError Node
walk p [] n = finish p n
walk p (k ∷ ks) (node path any_path children) =
    let deeper = walk p ks (or_new p (find k children)) in
    if not (is_empty path)
    then err (collision p (ancestor_of path))
    else (do c ← deeper; ok (node path any_path (put k c children)))

module _ (u : CaseTables) where
  unfoldable pub keys : Text → List Text
  keys p = map (to_lower u) (split b'/' p)

  -- The loop over the paths.
  unfoldable pub add_paths : List Text → Node → Option ValidationError
  add_paths [] n = none
  add_paths (p ∷ ps) n =
      validate_bundle_path u p
      ⨾ elim (walk p (keys p) n) [ err e ↦ some e | ok n' ↦ add_paths ps n' ]

  unfoldable pub validate_bundle_paths : List Text → Option ValidationError
  validate_bundle_paths ps = add_paths ps (node [] [] leaf)
