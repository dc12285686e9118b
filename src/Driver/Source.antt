-- ===== src/Driver/Source.antt =====
-- `prepare_archive`, `prepare_git`, `prepare_source` and `copy_source` of
-- scripts/run_oss_batch_after_read_check_elimination.py. A project's sources come to stand in a
-- directory of their own below benchmarks.
use desan.Driver.{
  or_key_error, Action, Io, ◌>>=◌, ◌>>◌, pure, when, make_dirs, make_new_dir, remove_tree, rename,
  copy_tree, Command, System, Project, ◌/◌, root, benchmarks, World, ask, perform, list_dir, sh,
  sh_or_raise, remove_old,
}
use desan.Prelude.{
  Bool, true, false, not, Option, none, some, List, [], ◌∷◌, ◌++◌, nat_eq, list_eq, ◌==◌,
  if◌then◌else◌,
}
use desan.Prelude.Int.{ℤ, pos, is_zero}
use desan.Py.Text.{Str, codes, or_text}
use desan.Py.Float.{FloatOps}

-- `Path(url).name`: the last part that is not empty
abbrev name_loop : Str → Str → Str → Str
name_loop best current [] = or_text current best
name_loop best current (c ∷ s) =
    let ends = c == b'/' in
    name_loop (if ends then or_text current best else best)
      (if ends then [] else current ++ (c ∷ [])) s

abbrev from_dot : Str → Str
from_dot [] = []
from_dot (c ∷ s) = let rest = from_dot s in if c == b'.' then c ∷ s else rest

abbrev drop_dots : Str → Str
drop_dots [] = []
drop_dots (c ∷ s) = let rest = drop_dots s in if c == b'.' then rest else c ∷ s

abbrev ends_in_dot : Str → Bool
ends_in_dot [] = false
ends_in_dot (c ∷ []) = c == b'.'
ends_in_dot (c ∷ d ∷ s) = ends_in_dot (d ∷ s)

-- `"".join(Path(url).suffixes)`
unfoldable pub suffixes : Str → Str
suffixes url =
    let name = name_loop [] [] url in if ends_in_dot name then [] else from_dot (drop_dots name)

-- A path in quotation marks
abbrev quoted : Str → Str
quoted path = codes "\"" ++ path ++ codes "\""

-- A command in the directory of the repository
abbrev in_root : Str → ℤ → Command
in_root text timeout = record { text = text; cwd = root; env = none; timeout = timeout }

abbrev pub source_dir : Str → Str
source_dir name = benchmarks / (name ++ codes "-src")

abbrev pub is_empty : Str → Bool
is_empty [] = true
is_empty (c ∷ s) = false

module _ {F : FloatOps} (S : System F) where
  -- A single directory becomes the source directory itself.
  abbrev pub move_extracted : Str → Str → List Str → Action (World S)
  move_extracted tmp_dir src_dir (child ∷ []) = do
    single ← ask S (S.is_dir child)
    if single
        then (perform S (rename child src_dir) >> perform S (remove_tree tmp_dir))
        else perform S (rename tmp_dir src_dir)
  move_extracted tmp_dir src_dir children = perform S (rename tmp_dir src_dir)

  unfoldable pub prepare_archive : Str → Str → Io (World S) Str
  unfolding sh_or_raise remove_old suffixes
  prepare_archive name url = do
    perform S (make_dirs benchmarks)
    let archive_dir = benchmarks / codes "archives"
    perform S (make_dirs archive_dir)
    let archive_path = archive_dir / (name ++ or_text (suffixes url) (codes ".tar.gz"))
    let src_dir = source_dir name
    let tmp_dir = benchmarks / (codes "." ++ name ++ codes "-extract")
    there ← ask S (S.exists archive_path)
    when (not there) (
        sh_or_raise S
          (in_root (codes "curl -L --retry 3 -o " ++ quoted archive_path ++ codes " " ++ quoted url)
            (pos 1800))
          (codes "download failed for " ++ name))
    remove_old S src_dir
    remove_old S tmp_dir
    perform S (make_new_dir tmp_dir)
    sh_or_raise S
        (in_root (codes "tar -xf " ++ quoted archive_path ++ codes " -C " ++ quoted tmp_dir)
          (pos 1800))
        (codes "extract failed for " ++ name)
    children ← list_dir S tmp_dir
    move_extracted tmp_dir src_dir children
    pure src_dir

  -- `git clone`: of the ref, and of the default branch where that fails
  unfoldable pub clone : Str → Str → Str → Action (World S)
  unfolding sh sh_or_raise remove_old
  clone name repo ref = do
    let src_dir = source_dir name
    remove_old S src_dir
    rc ← sh S (
        in_root
          (codes "git clone --depth 1 --branch "
            ++ quoted ref
            ++ codes " "
            ++ quoted repo
            ++ codes " "
            ++ quoted src_dir)
          (pos 1800))
    when (not (is_zero rc)) (
        remove_old S src_dir
        >> sh_or_raise S
            (in_root (codes "git clone --depth 1 " ++ quoted repo ++ codes " " ++ quoted src_dir)
              (pos 1800))
            (codes "git clone failed for " ++ name))

  -- An old clone is brought to the ref, and cleaned: no failure of these commands raises.
  unfoldable pub refresh : Str → Str → Action (World S)
  unfolding sh
  refresh name ref = do
    let git = codes "git -C " ++ quoted (source_dir name)
    when (not (is_empty ref)) (do
      fetched ← sh S (in_root (git ++ codes " fetch --depth 1 origin " ++ quoted ref) (pos 1800))
      checked ← sh S (
          in_root
            (git
              ++ codes " checkout -f FETCH_HEAD || "
              ++ git
              ++ codes " checkout -f "
              ++ quoted ref)
            (pos 300))
      pure tt)
    cleaned ← sh S (in_root (git ++ codes " clean -fdx") (pos 600))
    pure tt

  unfoldable pub prepare_git : Str → Str → Str → Io (World S) Str
  unfolding clone refresh
  prepare_git name repo ref = do
    perform S (make_dirs benchmarks)
    cloned ← ask S (S.exists (source_dir name / codes ".git"))
    if cloned then refresh name ref else clone name repo ref
    pure (source_dir name)

  unfoldable pub prepare_repo : Str → Project → Io (World S) Str
  unfolding prepare_git sh_or_raise
  prepare_repo name project = do
    repo ← or_key_error (codes "repo") project.repo
    src_dir ← prepare_git name repo project.ref
    when project.submodules (
        sh_or_raise S
          (in_root
            (codes "git -C "
              ++ quoted src_dir
              ++ codes " submodule update --init --recursive --depth 1")
            (pos 1800))
          (codes "git submodule update failed for " ++ name))
    pure src_dir

  abbrev pub prepare_from : Str → Project → Option Str → Io (World S) Str
  prepare_from name project none = prepare_repo name project
  prepare_from name project (some url) = prepare_archive name url

  unfoldable pub prepare_source : Str → Project → Io (World S) Str
  unfolding prepare_archive prepare_repo
  prepare_source name project = prepare_from name project project.archive

  unfoldable pub copy_source : Str → Str → Action (World S)
  unfolding remove_old
  copy_source src_dir build_dir = do
    remove_old S build_dir
    perform S (
        copy_tree src_dir build_dir
          (codes ".git" ∷ codes "__pycache__" ∷ codes ".ninja*" ∷ codes "CMakeFiles" ∷ []))
