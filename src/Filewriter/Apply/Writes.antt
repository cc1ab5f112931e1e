-- ===== src/Filewriter/Apply/Writes.antt =====
-- One operation of `Apply` (internal/filewriter/apply.go): what it leaves can be undone.
use go_mcp_gateway.Common.{
  ℕ, ◌≡◌, refl, sym, ap, ◌∙◌, subst, true, Bool-cases, Option, Option-cases, none, some, List, [],
  ◌∷◌, reverse, All, All-take, take, inl, inr,
}
use go_mcp_gateway.Common.Text.{Str}
use go_mcp_gateway.Filewriter.FilePath.{render}
use go_mcp_gateway.Filewriter.FilePath.Elements.{All-reverse}
use go_mcp_gateway.Filewriter.Files.{
  Node, nothing, directory, special, regular, Fs, Os, contents, contents_of, make_dirs,
}
use go_mcp_gateway.Filewriter.Writer.{PlannedOp, missing_dirs, extend}
use go_mcp_gateway.Filewriter.Writer.Planned.{prior}
use go_mcp_gateway.Filewriter.Apply.{
  stage_in, Step, cancelled, create_failed, fill_failed, chmod_failed, close_failed, last_failed,
  completes, mkdir_failed, Undo, State, Attempt, done, failed, undo_of, dir_undos, parent,
  mkdir_stop, stage, make_and_stage, apply_write,
}
use go_mcp_gateway.Filewriter.Apply.Effects.{
  Contents, set, effect, effects, set_same, set-set, make_dirs-contents, clear-none, staged,
  rename-contents,
}

Clear : Fs → List Str → Type 0
Clear fs ds = All (λ d. contents fs d ≡ none) ds

extend-Clear :
    (fs : Fs) (n : Node) (d : Str) (above : Option (List Str)) (ds : List Str)
    → contents_of n ≡ contents fs d
    → ((es : List Str) → above ≡ some es → Clear fs es)
    → extend n d above ≡ some ds
    → Clear fs ds
unfolding Clear
extend-Clear fs nothing d none ds k f h = absurd (cc h)
extend-Clear fs nothing d (some above) ds k f h =
    let same : d ∷ above ≡ ds = cc h in subst (Clear fs) same (sym k, f above refl)
extend-Clear fs directory d above ds k f h = let same : [] ≡ ds = cc h in subst (Clear fs) same tt
extend-Clear fs special d above ds k f h = let same : [] ≡ ds = cc h in subst (Clear fs) same tt
extend-Clear fs (regular body mode) d above ds k f h =
    let same : [] ≡ ds = cc h in subst (Clear fs) same tt

nothing-Clear : (fs : Fs) → Clear fs []
unfolding Clear
nothing-Clear fs = tt

missing_dirs-Clear :
    (os : Os) (fs : Fs) (es ds : List Str) → missing_dirs os fs es ≡ some ds → Clear fs ds
unfolding missing_dirs
missing_dirs-Clear os fs [] ds h =
    extend-Clear fs (fs (render true [])) (render true []) (some []) ds refl none_above h
  where
    none_above : (es : List Str) → some [] ≡ some es → Clear fs es
    none_above es e = let same : [] ≡ es = cc e in subst (Clear fs) same (nothing-Clear fs)
missing_dirs-Clear os fs (e ∷ es) ds h =
    elim (Bool-cases (os.uninspectable (render true (reverse (e ∷ es))))) [
      | inl b ↦ absurd (cc (rw b at h))
      | inr b ↦
          extend-Clear fs (fs (render true (reverse (e ∷ es)))) _ (missing_dirs os fs es) ds refl
            (missing_dirs-Clear os fs es) (rw b at h)
    ]

-- What an attempt on a batch that began with contents `c` must leave: if it is done, contents
-- `after`; and in any case undos that lead back to `c`.
unfoldable pub Reversible : Contents → Contents → Attempt → Type 0
Reversible c after (done s) = (effects s.undos (contents s.fs) ≡ c) × (contents s.fs ≡ after)
Reversible c after (failed e s) = effects s.undos (contents s.fs) ≡ c

abbrev pub written : PlannedOp → Contents → Contents
written p c = set p.abs (some p.content) c

undo_of-effect :
    (p : PlannedOp) (x : Option Str) (c : Contents)
    → c p.abs ≡ prior p
    → effect (undo_of p) (set p.abs x c) ≡ c
undo_of-effect p x c h = elim (Bool-cases p.existed) [
  | inl b ↦ rw b (set-set p.abs (some p.before) x c ∙ set_same p.abs (some p.before) c (rw b at h))
  | inr b ↦ rw b (set-set p.abs none x c ∙ set_same p.abs none c (rw b at h))
]

dir_undos-effects :
    (ds : List Str) (us : List Undo) (c : Contents)
    → All (λ d. c d ≡ none) ds
    → effects (dir_undos ds us) c ≡ effects us c
dir_undos-effects [] us c h = refl
dir_undos-effects (d ∷ ds) us c h = ap (effects us) (
    clear-none (reverse (reverse (d ∷ ds))) c
      (All-reverse (λ e. c e ≡ none) (reverse (d ∷ ds)) (All-reverse (λ e. c e ≡ none) (d ∷ ds) h)))

module _ (os : Os)
    (fresh : (fs : Fs) (d t : Str) → os.temp_name fs d ≡ some t → fs t ≡ nothing) where
  stage-Reversible :
      (step : Step) (p : PlannedOp) (t : Str) (s : State) (c : Contents)
      → contents s.fs t ≡ none
      → contents s.fs p.abs ≡ prior p
      → effects s.undos (contents s.fs) ≡ c
      → Reversible c (written p (contents s.fs)) (stage os step p t s)
  unfolding stage Reversible
  stage-Reversible cancelled p t s c h m b = b
  stage-Reversible (mkdir_failed n) p t s c h m b = b
  stage-Reversible create_failed p t s c h m b = b
  stage-Reversible fill_failed p t s c h m b = ap (effects s.undos) (staged os t _ s.fs h) ∙ b
  stage-Reversible chmod_failed p t s c h m b = ap (effects s.undos) (staged os t _ s.fs h) ∙ b
  stage-Reversible close_failed p t s c h m b = ap (effects s.undos) (staged os t _ s.fs h) ∙ b
  stage-Reversible last_failed p t s c h m b = ap (effects s.undos) (staged os t _ s.fs h) ∙ b
  stage-Reversible completes p t s c h m b =
      let installed = rename-contents t p.abs p.content p.mode s.fs h in
      (
        ap (λ d. effects s.undos (effect (undo_of p) d)) installed
            ∙ ap (effects s.undos) (undo_of-effect p (some p.content) (contents s.fs) m)
            ∙ b,
        installed,
      )

  stage_in-Reversible :
      (named : Option Str) (step : Step) (p : PlannedOp) (s : State) (c : Contents)
      → ((t : Str) → named ≡ some t → contents s.fs t ≡ none)
      → contents s.fs p.abs ≡ prior p
      → effects s.undos (contents s.fs) ≡ c
      → Reversible c (written p (contents s.fs)) (stage_in os named step p s)
  unfolding stage_in Reversible
  stage_in-Reversible none step p s c h m b = b
  stage_in-Reversible (some t) step p s c h m b = stage-Reversible step p t s c (h t refl) m b

  in_dirs-Reversible :
      (step : Step) (p : PlannedOp) (missing : List Str) (s : State) (c : Contents)
      → Clear s.fs missing
      → contents s.fs p.abs ≡ prior p
      → effects s.undos (contents s.fs) ≡ c
      → Reversible c (written p (contents s.fs)) (
          stage_in os
            (os.temp_name (make_dirs (reverse missing) s.fs) (render true (reverse (parent p.abs))))
            step
            p
            (record { fs = make_dirs (reverse missing) s.fs; undos = dir_undos missing s.undos }))
  unfolding Clear
  in_dirs-Reversible step p missing s c k m b =
      let made = make_dirs (reverse missing) s.fs in
      let same : contents made ≡ contents s.fs =
        make_dirs-contents (reverse missing) s.fs
          (All-reverse (λ d. contents s.fs d ≡ none) missing k) in
      subst
        (λ d. Reversible c (written p d) (
          stage_in os (os.temp_name made (render true (reverse (parent p.abs)))) step p
            (record { fs = made; undos = dir_undos missing s.undos })))
        same
        (stage_in-Reversible _ step p _ c (λ t e. ap contents_of (fresh made _ t e))
          (ap (λ d. d p.abs) same ∙ m)
          (ap (effects (dir_undos missing s.undos)) same
            ∙ dir_undos-effects missing s.undos (contents s.fs) k
            ∙ b))

  make_and_stage-Reversible :
      (stop : Option ℕ) (step : Step) (p : PlannedOp) (missing : List Str) (s : State)
      (c : Contents)
      → Clear s.fs missing
      → contents s.fs p.abs ≡ prior p
      → effects s.undos (contents s.fs) ≡ c
      → Reversible c (written p (contents s.fs)) (make_and_stage os stop step p missing s)
  unfolding make_and_stage Reversible Clear
  make_and_stage-Reversible none step p missing s c k m b =
      in_dirs-Reversible step p missing s c k m b
  make_and_stage-Reversible (some n) step p missing s c k m b =
      let some_made =
        All-take (λ d. contents s.fs d ≡ none) n (reverse missing)
          (All-reverse (λ d. contents s.fs d ≡ none) missing k) in
      ap (effects s.undos) (make_dirs-contents (take n (reverse missing)) s.fs some_made) ∙ b

  pub apply_write-Reversible :
      (step : Step) (p : PlannedOp) (s : State) (c : Contents)
      → contents s.fs p.abs ≡ prior p
      → effects s.undos (contents s.fs) ≡ c
      → Reversible c (written p (contents s.fs)) (apply_write os step p s)
  unfolding apply_write Reversible
  apply_write-Reversible step p s c m b =
      elim (Option-cases (missing_dirs os s.fs (parent p.abs))) [
        | inl e ↦ rw (e, Reversible) b
        | inr (missing, e) ↦
            rw (e, Reversible)
              (make_and_stage-Reversible (mkdir_stop step) step p missing s c
                (missing_dirs-Clear os s.fs (parent p.abs) missing e) m b)
      ]
