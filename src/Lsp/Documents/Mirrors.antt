-- ===== src/Lsp/Documents/Mirrors.antt =====
-- The language server's view of the files that internal/lsp/session.go opens.
use go_mcp_gateway.Common.{
  suc, ◌+◌, ◌≤◌, ◌<◌, arith, ◌≢◌, ◌≡◌, refl, ap, ◌∙◌, inl, inr, Bool, true, false, Bool-cases,
  Option, none, some, String, List, [], ◌∷◌, if◌then◌else◌, name_eq, name_eq_refl, eq_iff, All, ℕ,
  subst,
}
use go_mcp_gateway.Common.Dict
use go_mcp_gateway.Common.Dict.{Dict, lookup-insert}
use go_mcp_gateway.Common.Text.{Str, str_eq, str_eq→≡, str_eq_refl}
use go_mcp_gateway.Lsp.Documents.{
  Notification, did_open, did_change, Sending, sends, announce, ensure_file_open,
}

-- A language server, by what the protocol says of the two notifications. A file that is opened is
-- held from then on, in the version that is named; a change of a file that is held is taken if its
-- version is above the one held, and concerns no other file. Nothing is said of a change whose version
-- does not increase.
pub record Server : Type 1 where
  pub State : Type 0
  pub initial : State
  pub receive : Notification → State → State
  pub held : State → String → Option (ℕ × Str)
  pub held_initial : (k : String) → held initial k ≡ none
  pub held_open :
      (path : String) (version : ℕ) (text : Str) (s : State) (k : String)
      → held (receive (did_open path version text) s) k
        ≡ (if name_eq k path then some (version, text) else held s k)
  pub held_change :
      (path : String) (before version : ℕ) (old text : Str) (s : State)
      → held s path ≡ some (before, old)
      → before < version
      → held (receive (did_change path version text) s) path ≡ some (version, text)
  pub held_beside :
      (path : String) (version : ℕ) (text : Str) (s : State) (k : String)
      → k ≢ path
      → held (receive (did_change path version text) s) k ≡ held s k

-- A call: the path, the contents that are read, and whether a write to the server succeeds.
pub record Ensure : Type 0 where
  pub path : String
  pub contents : Option Str
  pub writes : Bool

module _ (server : Server) where
  -- A notification arrives if it could be written.
  abbrev pub deliver : Bool → Sending → server.State → server.State
  deliver true (sends n) s = server.receive n s
  deliver _ _ s = s

  -- The client's record and the server after the calls, the last one first.
  abbrev pub run : List Ensure → Dict Str × server.State
  run [] = ([], server.initial)
  run (e ∷ es) =
      let (open_files, s) = run es in
      let (opened, sending) = ensure_file_open open_files e.path e.contents in
      (opened, deliver e.writes sending s)

-- The contents that the calls read last of a file.
abbrev pub read_last : String → String → Option Str → Option Str → Option Str
read_last k path none before = before
read_last k path (some content) before = if name_eq k path then some content else before

unfoldable pub last_read : String → List Ensure → Option Str
last_read k [] = none
last_read k (e ∷ es) = read_last k e.path e.contents (last_read k es)

ensure-read_last :
    (o : Dict Str) (k path : String) (contents : Option Str)
    → Dict.lookup k (ensure_file_open o path contents).0
      ≡ read_last k path contents (Dict.lookup k o)
unfolding ensure_file_open
ensure-read_last o k path none = refl
ensure-read_last o k path (some content) = lookup-insert path k content o

-- A call that reads other contents of a file than the ones read before.
abbrev pub is_change : String → String → Option Str → Option Str → ℕ
is_change k path none before = 0
is_change k path (some content) none = 0
is_change k path (some content) (some prev) =
    if name_eq k path then (if str_eq prev content then 0 else 1) else 0

-- How often the contents of a file changed between the calls that read it.
unfoldable pub changes : String → List Ensure → ℕ
changes k [] = 0
changes k (e ∷ es) = is_change k e.path e.contents (last_read k es) + changes k es

-- What is held of a file that changed so often, from version 1 on.
abbrev pub versioned : ℕ → Option Str → Option (ℕ × Str)
versioned n none = none
versioned n (some text) = some (suc n, text)

unread :
    (k path : String) (contents before : Option Str)
    → read_last k path contents before ≡ none
    → (before ≡ none) × (is_change k path contents before ≡ 0)
unread k path none before h = (h, refl)
unread k path (some content) none h = (refl, refl)
unread k path (some content) (some prev) h = elim (Bool-cases (name_eq k path)) [
  | inl x ↦ absurd (cc (rw x at h))
  | inr x ↦ absurd (cc (rw x at h))
]

changes_unread : (k : String) (es : List Ensure) → last_read k es ≡ none → changes k es ≡ 0
unfolding last_read changes
changes_unread k [] h = refl
changes_unread k (e ∷ es) h =
    let (before, same) = unread k e.path e.contents (last_read k es) h in
    omega (arith, same, changes_unread k es before)

module _ (server : Server) where
  run-last_read : (k : String) (es : List Ensure) → Dict.lookup k (run server es).0 ≡ last_read k es
  unfolding last_read Dict.lookup
  run-last_read k [] = refl
  run-last_read k (e ∷ es) =
      ensure-read_last (run server es).0 k e.path e.contents
      ∙ ap (read_last k e.path e.contents) (run-last_read k es)

  module _ (k : String) (o : Dict Str) (s : server.State) (n : ℕ) where
    -- The server holds after a call what was read last, in its version.
    abbrev After : String → Option Str → Option Str → Type 0
    After path contents r =
        server.held (deliver server true (ensure_file_open o path contents).1 s) k
        ≡ versioned (is_change k path contents r + n) (read_last k path contents r)

    unchanged : n ≡ 0 + n
    unchanged = omega arith

    announce_beside :
        (path : String) (content : Str) (q : Option Str)
        → name_eq k path ≡ false
        → server.held (deliver server true (announce path content q) s) k ≡ server.held s k
    announce_beside path content none x = server.held_open path 1 content s k ∙ rw x refl
    announce_beside path content (some prev) x = elim (Bool-cases (str_eq prev content)) [
      | inl y ↦ rw y refl
      | inr y ↦ rw y (server.held_beside path 2 content s k (λ e. cc ((eq_iff k path).1 e, x)))
    ]

    announce_own :
        (content : Str) (r : Option Str)
        → server.held s k ≡ versioned n r
        → (r ≡ none → n ≡ 0)
        → is_change k k (some content) r + n ≤ 1
        → server.held (deliver server true (announce k content r) s) k
          ≡ some (suc (is_change k k (some content) r + n), content)
    announce_own content none holds fresh few =
        server.held_open k 1 content s k
        ∙ rw (name_eq_refl k) (ap (λ m. some (suc m, content)) (omega (arith, fresh refl)))
    announce_own content (some prev) holds fresh few = elim (Bool-cases (str_eq prev content)) [
      | inl y ↦
          rw (y, name_eq_refl k)
            (holds
              ∙ ap (λ t. some (suc n, t)) (str_eq→≡ prev content y)
              ∙ ap (λ m. some (suc m, content)) unchanged)
      | inr y ↦
          let first : n ≡ 0 = omega (arith, rw (y, name_eq_refl k) at few) in
          rw (y, name_eq_refl k)
            (server.held_change k (suc n) 2 prev content s holds (omega (arith, first))
              ∙ ap (λ m. some (suc m, content)) (omega (arith, first)))
    ]

    ensure-After :
        (path : String) (contents r : Option Str)
        → Dict.lookup k o ≡ r
        → server.held s k ≡ versioned n r
        → (r ≡ none → n ≡ 0)
        → is_change k path contents r + n ≤ 1
        → After path contents r
    unfolding ensure_file_open
    ensure-After path none r noted holds fresh few = holds ∙ ap (λ m. versioned m r) unchanged
    ensure-After path (some content) r noted holds fresh few = elim (Bool-cases (name_eq k path)) [
      | inl x ↦
          let same = (eq_iff k path).0 x in
          subst (λ p. is_change k p (some content) r + n ≤ 1 → After p (some content) r) same own
            few
      | inr x ↦ beside r noted holds x
    ]
      where
        own : is_change k k (some content) r + n ≤ 1 → After k (some content) r
        own little =
            ap (λ q. server.held (deliver server true (announce k content q) s) k) noted
            ∙ announce_own content r holds fresh little
            ∙ rw (name_eq_refl k) refl

        beside :
            (q : Option Str)
            → Dict.lookup k o ≡ q
            → server.held s k ≡ versioned n q
            → name_eq k path ≡ false
            → After path (some content) q
        beside none e h x = announce_beside path content (Dict.lookup path o) x ∙ h ∙ rw x refl
        beside (some prev) e h x =
            announce_beside path content (Dict.lookup path o) x
            ∙ h
            ∙ rw x (ap (λ m. some (suc m, prev)) unchanged)

  -- If every write to the server succeeds, and the contents of a file changed at most once between
  -- the calls that read it, the server holds after these calls exactly the contents that were read
  -- last of the file, or nothing if it could never be read; its version is 1, and 2 after the change.
  -- A server does with the notifications what the protocol says, which promises nothing for a change
  -- whose version does not increase, such as a second one here.
  pub run-refines :
      (es : List Ensure) (k : String)
      → All (λ e. e.writes ≡ true) es
      → changes k es ≤ 1
      → server.held (run server es).1 k ≡ versioned (changes k es) (last_read k es)
  unfolding changes last_read
  run-refines [] k h few = server.held_initial k
  run-refines (e ∷ es) k h few = rw (h.0) (
      ensure-After k (run server es).0 (run server es).1 (changes k es) e.path e.contents
        (last_read k es) (run-last_read k es) (run-refines es k h.1 (omega (arith, few)))
        (changes_unread k es) few)

  -- Contents whose write fails are noted all the same, so that the next call for the same contents
  -- sends nothing: the server is as it was before both.
  pub lost_write :
      (es : List Ensure) (path : String) (content : Str)
      → (run server (
          record { path = path; contents = some content; writes = true }
          ∷ record { path = path; contents = some content; writes = false }
          ∷ es)).1
        ≡ (run server es).1
  unfolding ensure_file_open
  lost_write es path content =
      let open_files = (run server es).0 in
      let noted : Dict.lookup path (Dict.insert path content open_files) ≡ some content =
        lookup-insert path path content open_files ∙ rw (name_eq_refl path) refl in
      rw noted (rw (str_eq_refl content) refl)
