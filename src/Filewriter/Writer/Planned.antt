-- ===== src/Filewriter/Writer/Planned.antt =====
-- What internal/filewriter/writer.go has established of a plan before the files change.
use go_mcp_gateway.Common.{
  not, ◌&&◌, ℕ, ◌≡◌, refl, ap, subst, Bool, true, false, Bool-cases, Option, none, some,
  if◌then◌else◌, List, [], ◌∷◌, All, inl, inr, All-map,
}
use go_mcp_gateway.Common.Text.{Str, str_eq, str_eq_sym}
use go_mcp_gateway.Filewriter.Types.{
  FileOp, WriteError, Result, ok, >>=-eq-ok, not_regular_file, io_error, OpKind,
}
use go_mcp_gateway.Filewriter.Parser.{is_seen}
use go_mcp_gateway.Filewriter.PathSafe.{Host, PathValidator, resolve}
use go_mcp_gateway.Filewriter.Files.{Node, nothing, directory, special, regular, Fs, Os, contents}
use go_mcp_gateway.Filewriter.Writer.{
  PlannedOp, refuse, inspect, classified, claim, plan_all, plan, is_delete, planned_as,
}

-- The file that a planned operation found.
abbrev pub prior : PlannedOp → Option Str
prior p = if p.existed then some p.before else none

-- What a planned operation notes of its target, and whether it is skipped.
pub record Matches (fs : Fs) (p : PlannedOp) : Type 0 where
  pub found : contents fs p.abs ≡ prior p
  pub skips : p.skipped ≡ (is_delete p.operation && not p.existed)

abbrev pub Apart : PlannedOp → PlannedOp → Type 0
Apart p q = str_eq q.abs p.abs ≡ false

abbrev pub Disjoint : List PlannedOp → Type 0
Disjoint [] = Unit {0}
Disjoint (p ∷ ps) = All (Apart p) ps × Disjoint ps

abbrev pub Unclaimed : List Str → PlannedOp → Type 0
Unclaimed claimed p = is_seen p.abs claimed ≡ false

abbrev held : Option (ℕ × Str) → Option Str
held none = none
held (some found) = some found.1

inspect-held :
    (os : Os) (fs : Fs) (rel abs : Str) (found : Option (ℕ × Str))
    → inspect os fs rel abs ≡ ok found
    → contents fs abs ≡ held found
unfolding inspect
inspect-held os fs rel abs found h = elim (Bool-cases (os.uninspectable abs)) [
  | inl b ↦ absurd (cc (rw b at h))
  | inr b ↦ go (fs abs) refl (rw b at h)
]
  where
    answer : Node → Result WriteError (Option (ℕ × Str))
    answer n = elim n [
      | nothing ↦ ok none
      | directory ↦ refuse not_regular_file rel
      | special ↦ refuse not_regular_file rel
      | regular body mode ↦
          (if os.unreadable abs then refuse io_error rel else ok (some (mode, body)))
    ]

    go : (n : Node) → fs abs ≡ n → answer (fs abs) ≡ ok found → contents fs abs ≡ held found
    go nothing e k =
        let same : ◌≡◌ {A = Option (ℕ × Str)} none found = cc (rw e at k) in rw e (ap held same)
    go directory e k = absurd (cc (rw e at k))
    go special e k = absurd (cc (rw e at k))
    go (regular body mode) e k = elim (Bool-cases (os.unreadable abs)) [
      | inl b ↦ absurd (cc (rw (e, b) at k))
      | inr b ↦
          let same : ◌≡◌ {A = Option (ℕ × Str)} (some (mode, body)) found = cc (rw (e, b) at k) in
          rw e (ap held same)
    ]

planned_delete : (kind : OpKind) → is_delete kind ≡ (is_delete (planned_as kind false) && true)
planned_delete kind = elim (Bool-cases (is_delete kind)) [ inl e ↦ rw e refl | inr e ↦ rw e refl ]

never : (b : Bool) → false ≡ (b && false)
never true = refl
never false = refl

classified-Matches :
    (fs : Fs) (op : FileOp) (rel abs : Str) (found : Option (ℕ × Str))
    → contents fs abs ≡ held found
    → Matches fs (classified op rel abs found)
unfolding classified
classified-Matches fs op rel abs none h = record { found = h; skips = planned_delete op.kind }
classified-Matches fs op rel abs (some (mode, body)) h = record {
  found = h;
  skips = never (is_delete (planned_as op.kind true));
}

classified-abs :
    (op : FileOp) (rel abs : Str) (found : Option (ℕ × Str))
    → (classified op rel abs found).abs ≡ abs
unfolding classified
classified-abs op rel abs none = refl
classified-abs op rel abs (some (mode, body)) = refl

claim-ok : (seen new : Bool) (rel : Str) → claim seen rel ≡ ok new → seen ≡ false
claim-ok true new rel h = absurd (cc h)
claim-ok false new rel h = refl

unseen_head :
    (abs path : Str) (claimed : List Str)
    → is_seen path (abs ∷ claimed) ≡ false
    → str_eq abs path ≡ false
unfolding is_seen
unseen_head abs path claimed h = elim (Bool-cases (str_eq abs path)) [
  | inl b ↦ absurd (cc (rw b at h))
  | inr b ↦ b
]

unseen_tail :
    (abs path : Str) (claimed : List Str)
    → is_seen path (abs ∷ claimed) ≡ false
    → is_seen path claimed ≡ false
unfolding is_seen
unseen_tail abs path claimed h = elim (Bool-cases (str_eq abs path)) [
  | inl b ↦ absurd (cc (rw b at h))
  | inr b ↦ rw b at h
]

plan_all-Planned :
    (os : Os) (h : Host) (v : PathValidator) (fs : Fs) (claimed : List Str) (ops : List FileOp)
    (ps : List PlannedOp)
    → plan_all os h v fs claimed ops ≡ ok ps
    → All (Matches fs) ps × All (Unclaimed claimed) ps × Disjoint ps
unfolding plan_all
plan_all-Planned os h v fs claimed [] ps e =
    let same : [] ≡ ps = cc e in
    subst (λ qs. All (Matches fs) qs × All (Unclaimed claimed) qs × Disjoint qs) same (tt, tt, tt)
plan_all-Planned os h v fs claimed (op ∷ ops) ps e =
    let ((rel, abs), e₁, f₁) = >>=-eq-ok (resolve v h op.path) _ e in
    let (new, e₂, f₂) = >>=-eq-ok (claim (is_seen abs claimed) rel) _ f₁ in
    let (found, e₃, f₃) = >>=-eq-ok (inspect os fs rel abs) _ f₂ in
    let (rest, e₄, f₄) = >>=-eq-ok (plan_all os h v fs (abs ∷ claimed) ops) _ f₃ in
    let (ms, us, ds) = plan_all-Planned os h v fs (abs ∷ claimed) ops rest e₄ in
    let here = classified-abs op rel abs found in
    let same : classified op rel abs found ∷ rest ≡ ps = cc f₄ in
    subst (λ qs. All (Matches fs) qs × All (Unclaimed claimed) qs × Disjoint qs) same
      (
        (classified-Matches fs op rel abs found (inspect-held os fs rel abs found e₃), ms),
        (rw here (claim-ok _ new rel e₂), All-map rest (λ q. unseen_tail abs q.abs claimed) us),
        (All-map rest (λ q u. rw here (str_eq_sym _ _ (unseen_head abs q.abs claimed u))) us, ds),
      )

-- In a plan no two targets are one path, each operation knows whether its target is a regular file
-- and what it holds, and the operations that are skipped are exactly the deletes of a target that
-- does not exist.
pub plan-Planned :
    (os : Os) (h : Host) (v : PathValidator) (fs : Fs) (ops : List FileOp) (ps : List PlannedOp)
    → plan os h v fs ops ≡ ok ps
    → All (Matches fs) ps × Disjoint ps
unfolding plan
plan-Planned os h v fs ops ps e =
    let (ms, us, ds) = plan_all-Planned os h v fs [] ops ps e in (ms, ds)
