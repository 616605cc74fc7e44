-- ===== src/Base/Sorts.antt =====
-- `sort.Strings` and `slices.Sort` on strings.
use mathlib.Core.Path.{◌≡◌}
use mathlib.Core.Logic.{◌↔◌, ◌⊎◌}
use mathlib.Core.List.{List, [], ◌∷◌}
use native.Mathlib.Omega.{arith}
use ocidoc_go.Base.Lists.{In}
use ocidoc_go.Base.Tests.{if◌then◌else◌}
use ocidoc_go.Base.Texts.{Text, text_leb}

unfoldable pub insert_text : Text → List Text → List Text
insert_text t [] = t ∷ []
insert_text t (x ∷ xs) =
    let rest = insert_text t xs in if text_leb t x then t ∷ x ∷ xs else x ∷ rest

-- `sort.Strings`
unfoldable pub sort_texts : List Text → List Text
sort_texts [] = []
sort_texts (t ∷ ts) = insert_text t (sort_texts ts)

In-insert_text : (x t : Text) (ts : List Text) → In x (insert_text t ts) ↔ ((x ≡ t) ⊎ In x ts)
unfolding insert_text
In-insert_text x t [] = ground arith
In-insert_text x t (y ∷ ts) = ground (arith, In-insert_text x t ts)

pub In-sort_texts : (x : Text) (ts : List Text) → In x (sort_texts ts) ↔ In x ts
unfolding sort_texts
In-sort_texts x [] = (λ h. h, λ h. h)
In-sort_texts x (t ∷ ts) = ground (arith, In-insert_text x t (sort_texts ts), In-sort_texts x ts)
