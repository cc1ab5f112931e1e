-- ===== src/Filewriter/Files.antt =====
-- The file system under internal/filewriter/{writer,apply}.go: what stands at each path, and the
-- calls of package os that the writer makes, as documented. `Os` holds what the operating system
-- decides: which paths cannot be inspected or read, the name `os.CreateTemp` picks, if it finds one, whether a
-- directory is empty, the mode the umask leaves, and whether a call made to undo succeeds.
use go_mcp_gateway.Common.{ℕ, Bool, Option, none, some, if◌then◌else◌, List, [], ◌∷◌}
use go_mcp_gateway.Common.Text.{Str, str_eq}

pub data Node : Type 0 where
  nothing directory special : Node
  regular : Str → ℕ → Node

abbrev pub Fs : Type 0
Fs = Str → Node

pub record Os : Type 0 where
  pub uninspectable : Str → Bool
  pub unreadable : Str → Bool
  pub temp_name : Fs → Str → Option Str
  pub is_empty_dir : Fs → Str → Bool
  pub masked : ℕ → ℕ
  pub undone : Str → Bool

abbrev pub put : Str → Node → Fs → Fs
put p n fs = λ q. if str_eq q p then n else fs q

abbrev pub contents_of : Node → Option Str
contents_of (regular body mode) = some body
contents_of nothing = none
contents_of directory = none
contents_of special = none

-- The contents of the regular files.
abbrev pub contents : Fs → Str → Option Str
contents fs = λ q. contents_of (fs q)

-- `os.Remove`: a directory only while it is empty.
unfoldable pub remove : Os → Str → Fs → Fs
remove os p fs = elim (fs p) [
  | nothing ↦ fs
  | directory ↦ (if os.is_empty_dir fs p then put p nothing fs else fs)
  | special ↦ put p nothing fs
  | regular body mode ↦ put p nothing fs
]

-- The mode `os.WriteFile` leaves: that of an existing file stays.
abbrev kept_mode : ℕ → Node → ℕ
kept_mode fresh (regular body mode) = mode
kept_mode fresh nothing = fresh
kept_mode fresh directory = fresh
kept_mode fresh special = fresh

unfoldable pub write_file : Os → Str → Str → ℕ → Fs → Fs
write_file os p body mode fs = put p (regular body (kept_mode (os.masked mode) (fs p))) fs

-- `os.Rename`, of a file onto itself too.
unfoldable pub rename : Str → Str → Fs → Fs
rename a b fs = if str_eq b a then fs else put a nothing (put b (fs a) fs)

-- `os.MkdirAll`, of directories that are missing, shallowest first.
unfoldable pub make_dirs : List Str → Fs → Fs
make_dirs [] fs = fs
make_dirs (d ∷ ds) fs = make_dirs ds (put d directory fs)
