-- ===== src/Spec/PathKind.antt =====
-- spec/paths.go: what a path's name says of the file.
use ocidoc_go.Base.{
  Bool, true, false, none, some, List, [], ◌∷◌, if◌then◌else◌, Text, codes, any, text_eq,
  has_suffix, contains_byte, from_last,
}
use ocidoc_go.Unicode.{CaseTables, to_lower}

abbrev pub markdown_extensions : List Text
markdown_extensions = codes ".md" ∷ codes ".markdown" ∷ codes ".mdown" ∷ codes ".mkd" ∷ []

abbrev pub document_extensions : List Text
document_extensions = codes ".txt" ∷ codes ".html" ∷ codes ".htm" ∷ []

abbrev pub document_names : List Text
document_names =
    codes "readme"
    ∷ codes "license"
    ∷ codes "licence"
    ∷ codes "copying"
    ∷ codes "notice"
    ∷ codes "legal"
    ∷ codes "copyright"
    ∷ codes "changelog"
    ∷ codes "changes"
    ∷ codes "history"
    ∷ codes "news"
    ∷ codes "security"
    ∷ codes "support"
    ∷ codes "contributing"
    ∷ codes "code_of_conduct"
    ∷ codes "code-of-conduct"
    ∷ codes "release_notes"
    ∷ codes "release-notes"
    ∷ []

-- `name[slash+1:]` for what `from_last` finds.
abbrev pub without_slash : Text → Text
without_slash [] = []
without_slash (c ∷ s) = s

unfoldable pub base_name : Text → Text
base_name s = elim (from_last b'/' s) [ none ↦ s | some r ↦ without_slash r ]

module _ (u : CaseTables) where
  unfoldable pub is_markdown_path : Text → Bool
  is_markdown_path p = elim (from_last b'.' p) [
    | none ↦ false
    | some extension ↦ any (text_eq (to_lower u extension)) markdown_extensions
  ]

  unfoldable pub is_document_path : Text → Bool
  is_document_path p =
      if is_markdown_path p
      then true
      else if any (has_suffix (to_lower u p)) document_extensions
      then true
      else if contains_byte b'.' (base_name (to_lower u p))
      then false
      else any (text_eq (base_name (to_lower u p))) document_names
