-- ===== src/Py/File.antt =====
-- The files that the scripts read: `Path(path).exists()` and `path.open()`.
use desan.Prelude.{Option, none, some, List, [], ◌∷◌}
use desan.Py.Result.{Result, ok, err, PyError}
use desan.Py.Text.{Str, codes}

-- What stands under a path. A text file is the list of its lines, each with its line end.
pub data Entry : Type 0 where
  absent directory : Entry
  lines : List Str → Entry

abbrev pub FileSystem : Type 0
FileSystem = Str → Entry

-- `Path("")` is the current directory.
abbrev pub path_of : Str → Str
path_of [] = codes "."
path_of (c ∷ s) = c ∷ s

abbrev pub open_entry : Entry → Result (Option (List Str))
open_entry absent = ok none
open_entry directory = err PyError.is_a_directory_error
open_entry (lines ls) = ok (some ls)

-- `p = Path(path)`, then `none` if `p` does not exist, and the lines of `p.open()` if it does.
-- `Path(None)` is a `TypeError`.
unfoldable pub open_lines : FileSystem → Option Str → Result (Option (List Str))
open_lines fs none = err PyError.type_error
open_lines fs (some path) = open_entry (fs (path_of path))
