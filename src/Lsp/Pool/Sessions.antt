-- ===== src/Lsp/Pool/Sessions.antt =====
-- Which sessions internal/lsp/manager.go hands out, keeps and closes.
use go_mcp_gateway.Common.{
  ==_iff, ℕ, suc, ◌+◌, ◌*◌, ◌<◌, ◌≡◌, ◌≢◌, refl, ap, ◌∙◌, ◌⊎◌, inl, inr, ◌↔◌, arith, ◌==◌, true,
  false, not, Bool-cases, Option, none, some, String, if◌then◌else◌, name_eq, name_eq_refl, eq_iff,
}
use go_mcp_gateway.Common.Dict
use go_mcp_gateway.Common.Dict.{
  Dict, lookup-insert, lookup-delete, lookup-retain, keep_if, insert-IsDistinct,
}
use go_mcp_gateway.Policy.Clock.{Time, minute}
use go_mcp_gateway.Lsp.Pool.{
  Config, ServerConfig, Session, Pool, new_session, session_key, StartError, Opened, opened,
  unsupported_language, start_failed, find_or_start, open_for, get_or_create, watched,
  watch_session, is_idle, sweep,
}

-- The pool is as it was, but for one key.
abbrev pub SameBut : String → Pool → Pool → Type 0
SameBut key p q = (k : String) → k ≢ key → Dict.lookup k q.sessions ≡ Dict.lookup k p.sessions

-- What a call of `GetOrCreate` does, on each branch.
abbrev pub Opens : String → String → Option StartError → Pool → Pool × Opened → Type 0
Opens language workspace_root start p (q, a) =
    let key = session_key language workspace_root in
    (Dict.lookup language p.cfg.server_configs ≡ none)
      × (a ≡ unsupported_language language)
      × (q ≡ p)
    ⊎ ((s : Session) × (Dict.lookup key p.sessions ≡ some s) × (a ≡ opened s) × (q ≡ p))
    ⊎ (Dict.lookup key p.sessions ≡ none)
      × (start ≡ none)
      × (a ≡ opened (new_session p.next))
      × (Dict.lookup key q.sessions ≡ some (new_session p.next))
      × SameBut key p q
    ⊎ ((e : StartError) × (Dict.lookup key p.sessions ≡ none)
        × (start ≡ some e)
        × (a ≡ start_failed e)
        × (Dict.lookup key q.sessions ≡ none)
        × SameBut key p q)

other_key : (k key : String) → k ≢ key → name_eq k key ≡ false
other_key k key ne = elim (Bool-cases (name_eq k key)) [
  | inl e ↦ absurd (ne ((eq_iff k key).0 e))
  | inr e ↦ e
]

module _ {A : Type 0} (key : String) (v : A) (m : Dict A) where
  inserted : Dict.lookup key (Dict.insert key v m) ≡ some v
  inserted = lookup-insert key key v m ∙ rw (name_eq_refl key) refl

  inserted_beside : (k : String) → k ≢ key → Dict.lookup k (Dict.insert key v m) ≡ Dict.lookup k m
  inserted_beside k ne = lookup-insert key k v m ∙ rw (other_key k key ne) refl

module _ {A : Type 0} (key : String) (m : Dict A) where
  deleted : Dict.lookup key (Dict.delete key m) ≡ none
  deleted = lookup-delete key key m ∙ rw (name_eq_refl key) refl

  deleted_beside : (k : String) → k ≢ key → Dict.lookup k (Dict.delete key m) ≡ Dict.lookup k m
  deleted_beside k ne = lookup-delete key k m ∙ rw (other_key k key ne) refl

find_or_start-Opens :
    (language workspace_root : String) (o : Option Session) (start : Option StartError) (p : Pool)
    → Dict.lookup (session_key language workspace_root) p.sessions ≡ o
    → Opens language workspace_root start p
        (find_or_start (session_key language workspace_root) o start p)
find_or_start-Opens language workspace_root (some s) start p e = inr (inl (s, e, refl, refl))
find_or_start-Opens language workspace_root none none p e =
    let key = session_key language workspace_root in
    inr (
      inr (
        inl (
          e,
          refl,
          refl,
          inserted key (new_session p.next) p.sessions,
          inserted_beside key (new_session p.next) p.sessions,
        )))
find_or_start-Opens language workspace_root none (some x) p e =
    let key = session_key language workspace_root in
    let started = Dict.insert key (new_session p.next) p.sessions in
    inr (
      inr (
        inr (
          x,
          e,
          refl,
          refl,
          deleted key started,
          λ k ne.
              deleted_beside key started k ne
              ∙ inserted_beside key (new_session p.next) p.sessions k ne,
        )))

open_for-Opens :
    (language workspace_root : String) (sc : Option ServerConfig) (start : Option StartError)
    (p : Pool)
    → Dict.lookup language p.cfg.server_configs ≡ sc
    → Opens language workspace_root start p (open_for language workspace_root sc start p)
open_for-Opens language workspace_root none start p e = inl (e, refl, refl)
open_for-Opens language workspace_root (some sc) start p e =
    find_or_start-Opens language workspace_root _ start p refl

-- A language without a configuration is refused, and a session that the pool has is handed out
-- again; both leave the pool alone. Otherwise a new session is started: it is handed out and stands
-- in the pool, or its start fails and the pool has what it had. No other key is touched.
pub get_or_create_lem :
    (language workspace_root : String) (start : Option StartError) (p : Pool)
    → Opens language workspace_root start p (get_or_create language workspace_root start p)
unfolding get_or_create
get_or_create_lem language workspace_root start p =
    open_for-Opens language workspace_root _ start p refl

is_idle_lem :
    (cfg : Config) (now : Time) (s : Session)
    → (is_idle cfg now s ≡ true)
      ↔ ((s.last_used + cfg.idle_timeout_min * minute < now) × (s.in_flight ≡ 0))
unfolding is_idle
is_idle_lem cfg now s = (λ h. (ground (arith, h), ground (arith, h)), λ k. ground (arith, k.0, k.1))

swept :
    (p : Pool) (now : Time) (key : String) (s : Session)
    → Dict.IsDistinct p.sessions
    → Dict.lookup key p.sessions ≡ some s
    → Dict.lookup key (sweep now p).0.sessions
      ≡ (if not (is_idle p.cfg now s) then some s else none)
unfolding sweep
swept p now key s d e =
    lookup-retain key (λ x. not (is_idle p.cfg now x)) p.sessions d
    ∙ ap (keep_if (λ x. not (is_idle p.cfg now x))) e

-- A sweep removes a session exactly if no request of it is in flight and its last one is longer ago
-- than the timeout.
pub sweep_evicts :
    (p : Pool) (now : Time) (key : String) (s : Session)
    → Dict.IsDistinct p.sessions
    → Dict.lookup key p.sessions ≡ some s
    → (Dict.lookup key (sweep now p).0.sessions ≡ none)
      ↔ ((s.last_used + p.cfg.idle_timeout_min * minute < now) × (s.in_flight ≡ 0))
sweep_evicts p now key s d e = elim (Bool-cases (is_idle p.cfg now s)) [
  | inl h ↦ (λ k. (is_idle_lem p.cfg now s).0 h, λ k. swept p now key s d e ∙ rw h refl)
  | inr h ↦ (
    λ k. absurd (
        let kept : Dict.lookup key (sweep now p).0.sessions ≡ some s =
          swept p now key s d e ∙ rw h refl in
        cc (k, kept)),
    λ k. absurd (cc ((is_idle_lem p.cfg now s).1 k, h)),
  )
]

-- A session that was started a moment ago and has not been asked anything yet is removed by the next
-- sweep all the same, at any time later than the timeout after the year 1970 began.
pub unused_evicted :
    (language workspace_root : String) (p : Pool) (now : Time) (sc : ServerConfig)
    → Dict.IsDistinct p.sessions
    → Dict.lookup language p.cfg.server_configs ≡ some sc
    → Dict.lookup (session_key language workspace_root) p.sessions ≡ none
    → p.cfg.idle_timeout_min * minute < now
    → Dict.lookup
        (session_key language workspace_root)
        (sweep now (get_or_create language workspace_root none p).0).0.sessions
      ≡ none
unfolding get_or_create
unused_evicted language workspace_root p now sc d e f late =
    let key = session_key language workspace_root in
    let q : Pool = record p {
      sessions = Dict.insert key (new_session p.next) p.sessions;
      next = suc p.next;
    } in
    let opens : (get_or_create language workspace_root none p).0 ≡ q = rw (e, f) refl in
    ap (λ (x : Pool). Dict.lookup key (sweep now x).0.sessions) opens
    ∙ (sweep_evicts q now key (new_session p.next)
          (insert-IsDistinct key (new_session p.next) p.sessions d)
          (inserted key (new_session p.next) p.sessions)).1
        (omega arith, refl)

-- What the watcher of the session with a handle does, by the session under its key.
abbrev pub Forgets : String → ℕ → Option Session → Pool → Pool → Type 0
Forgets key handle none p q = q ≡ p
Forgets key handle (some s) p q =
    (s.handle ≡ handle) × (Dict.lookup key q.sessions ≡ none) × SameBut key p q
    ⊎ (s.handle ≢ handle) × (q ≡ p)

watched-Forgets :
    (key : String) (handle : ℕ) (o : Option Session) (p : Pool)
    → Forgets key handle o p (watched key handle o p)
watched-Forgets key handle none p = refl
watched-Forgets key handle (some s) p = elim (Bool-cases (s.handle == handle)) [
  | inl e ↦
      inl
        (rw e ((==_iff s.handle handle).0 e, deleted key p.sessions, deleted_beside key p.sessions))
  | inr e ↦ inr (λ k. cc ((==_iff s.handle handle).1 k, e), rw e refl)
]

-- The watcher of a session that has ended removes that session and no other: a newer one under the
-- same key stays.
pub watch_session_lem :
    (key : String) (handle : ℕ) (p : Pool)
    → Forgets key handle (Dict.lookup key p.sessions) p (watch_session key handle p)
unfolding watch_session
watch_session_lem key handle p = watched-Forgets key handle (Dict.lookup key p.sessions) p
