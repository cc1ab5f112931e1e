-- ===== src/Lsp/Documents.antt =====
-- `EnsureFileOpen` of internal/lsp/session.go: the files that a language server has open.
pub mod Mirrors
use go_mcp_gateway.Common.{
  ℕ, Bool, true, false, Option, none, some, String, List, [], ◌∷◌, if◌then◌else◌,
}
use go_mcp_gateway.Common.Dict
use go_mcp_gateway.Common.Dict.{Dict}
use go_mcp_gateway.Common.Text.{Str, str_eq}

-- The notifications, with the path, the version and the text.
pub data Notification : Type 0 where
  did_open : String → ℕ → Str → Notification
  did_change : String → ℕ → Str → Notification

-- What the call comes to: the file cannot be read, nothing has to be sent, or a notification is
-- written to the server.
pub data Sending : Type 0 where
  file_not_found : Sending
  up_to_date : Sending
  sends : Notification → Sending

abbrev change : String → Str → Str → Sending
change path content prev =
    if str_eq prev content then up_to_date else sends (did_change path 2 content)

abbrev announce : String → Str → Option Str → Sending
announce path content none = sends (did_open path 1 content)
announce path content (some prev) = change path content prev

-- The open files with their contents, and what `os.ReadFile` returns.
unfoldable pub ensure_file_open : Dict Str → String → Option Str → Dict Str × Sending
ensure_file_open open_files path none = (open_files, file_not_found)
ensure_file_open open_files path (some content) =
    (Dict.insert path content open_files, announce path content (Dict.lookup path open_files))
