-- ===== src/Archive/Extract.antt =====
-- internal/archive/extract.go: a tar stream is read, checked and written below a directory. The file
-- system is another program: its operations and its state are parameters.
use mathlib.Core.List.{reverse}
use ocidoc_go.Base.{
  Bool, true, false, not, ◌&&◌, ◌||◌, Option, none, some, List, [], ◌∷◌, if◌then◌else◌, Text, codes,
  length, leb, text_eq, has_prefix, ◌⨾◌, Result, ok, err, pos, negsuc, join,
}
use ocidoc_go.GoPath.{is_abs, elements, rel}
use ocidoc_go.Archive.{TarEntry, ArchiveError}
use ocidoc_go.Archive.Scan.{first_bytes}

-- What `os.Lstat` shows of a path that exists.
pub data FileKind : Type 0 where
  regular_file : FileKind
  directory : FileKind
  symlink : FileKind
  other_file : FileKind

-- The calls of package os, on states `S` of the file system. The state behind a call that fails is
-- what it left behind.
pub record FileSystem (S F : Type 0) : Type 0 where
  pub lstat : S → Text → Result F (Option FileKind)
  pub mkdir_all : S → Text → S × Option F
  pub open_file : S → Text → Bool → S × Option F
  pub write : S → Text → Text → S × Option F
  pub close : S → Text → S × Option F
  pub remove : S → Text → S

pub data FsError (F : Type 0) : Type 0 where
  inspect : Text → F → FsError F
  symlink_component : Text → FsError F
  not_directory : Text → FsError F
  target_symlink : Text → FsError F
  target_not_regular : Text → FsError F
  target_exists : Text → FsError F
  make_directory : F → FsError F
  create_file : F → FsError F
  write_content : Text → Option F → FsError F
  close_file : F → FsError F

pub data ExtractError (F : Type 0) : Type 0 where
  destination : FsError F → ExtractError F
  archive_error : ArchiveError F → ExtractError F
  escapes : Text → ExtractError F
  entry_failed : Text → FsError F → ExtractError F

-- The absolute path of some elements, the last one first.
unfoldable pub path_of : List Text → Text
path_of es = b'/' ∷ join b'/' (reverse es)

-- The loop of `pathPrefixes`: `filepath.Dir` of a clean absolute path drops its last element.
unfoldable pub climb : List Text → List Text
climb [] = path_of [] ∷ []
climb (e ∷ es) = path_of (e ∷ es) ∷ climb es

unfoldable pub path_prefixes : Text → List Text
path_prefixes p = reverse (climb (reverse (elements p)))

unfoldable pub without_first : List Text → List Text
without_first [] = []
without_first (e ∷ es) = es

-- `filepath.Dir` of a clean absolute path.
unfoldable pub dir : Text → Text
dir p = path_of (without_first (reverse (elements p)))

unfoldable pub is_within_root : Text → Text → Bool
is_within_root root target =
    text_eq (rel root target) (codes ".")
    || (not (text_eq (rel root target) (codes ".."))
        && (not (has_prefix (rel root target) (codes "../")) && not (is_abs (rel root target))))

module _ {F : Type 0} where
  -- One existing component: a directory, and no link to one.
  unfoldable pub check_component : Text → Result F (Option FileKind) → Option (FsError F)
  check_component p (err f) = some (inspect p f)
  check_component p (ok none) = none
  check_component p (ok (some directory)) = none
  check_component p (ok (some symlink)) = some (symlink_component p)
  check_component p (ok (some regular_file)) = some (not_directory p)
  check_component p (ok (some other_file)) = some (not_directory p)

  unfoldable pub ensure_safe_target : Text → Bool → Result F (Option FileKind) → Option (FsError F)
  ensure_safe_target p overwrite (err f) = some (inspect p f)
  ensure_safe_target p overwrite (ok none) = none
  ensure_safe_target p overwrite (ok (some symlink)) = some (target_symlink p)
  ensure_safe_target p overwrite (ok (some directory)) = some (target_not_regular p)
  ensure_safe_target p overwrite (ok (some other_file)) = some (target_not_regular p)
  ensure_safe_target p overwrite (ok (some regular_file)) =
      if overwrite then none else some (target_exists p)

  -- The bytes that `io.CopyN` finds, and whether they end too soon.
  unfoldable pub copied : TarEntry F → Text × Bool
  copied e = elim e.size [
    | negsuc n ↦ ([], false)
    | pos n ↦
        if leb n (length e.content) then (first_bytes n e.content, false) else (e.content, true)
  ]

module _ {S : Type 0} {F : Type 0} where
  -- `if err != nil { return err }` between two calls that change the file system.
  infixl 5 ◌then◌
  abbrev pub ◌then◌ : S × Option (FsError F) → (S → S × Option (FsError F)) → S × Option (FsError F)
  (st, none) then f = f st
  (st, some e) then f = (st, some e)

  -- A check that changes nothing.
  abbrev pub check : Option (FsError F) → S → S × Option (FsError F)
  check o st = (st, o)

  -- A call of package os, with its error wrapped.
  abbrev pub wrap : (F → FsError F) → S × Option F → S × Option (FsError F)
  wrap e (st, none) = (st, none)
  wrap e (st, some f) = (st, some (e f))

module _ {S F : Type 0} (fs : FileSystem S F) where
  unfoldable pub check_components : S → List Text → Option (FsError F)
  check_components st [] = none
  check_components st (p ∷ ps) = check_component p (fs.lstat st p) ⨾ check_components st ps

  unfoldable pub ensure_directory_path : S → Text → Option (FsError F)
  ensure_directory_path st p = check_components st (path_prefixes p)

  -- Create the directories, and see that none of them is a link before and after.
  unfoldable pub make_directories : S → Text → S × Option (FsError F)
  make_directories st p =
      check (ensure_directory_path st p) st
      then (λ st. wrap make_directory (fs.mkdir_all st p))
      then (λ st. check (ensure_directory_path st p) st)

  -- Behind the copy the file is closed, and removed if the copy failed.
  unfoldable pub finish_file : Text → TarEntry F → S × Option F → S × Option (FsError F)
  finish_file target e (st, some f) =
      (fs.remove (fs.close st target).0 target, some (write_content target (some f)))
  finish_file target e (st, none) =
      if (copied e).1
      then (fs.remove (fs.close st target).0 target, some (write_content target e.broken))
      else wrap close_file (fs.close st target)

  unfoldable pub extract_file : S → Text → TarEntry F → Bool → S × Option (FsError F)
  extract_file st target e overwrite =
      make_directories st (dir target)
      then (λ st. check (ensure_safe_target target overwrite (fs.lstat st target)) st)
      then (λ st. wrap create_file (fs.open_file st target overwrite))
      then (λ st. finish_file target e (fs.write st target (copied e).0))
