-- ===== src/Filewriter/Apply/Effects.antt =====
-- What the file operations and the undos of internal/filewriter/apply.go do to the contents of the
-- regular files.
use go_mcp_gateway.Common.{
  ℕ, ◌≡◌, refl, sym, ap, ◌∙◌, true, Bool-cases, Option, none, some, if◌then◌else◌, List, [], ◌∷◌,
  reverse, All, inl, inr, subst,
}
use go_mcp_gateway.Common.Text.{str_eq_sym, Str, str_eq, str_eq_refl, str_eq→≡}
use go_mcp_gateway.Filewriter.Files.{
  Node, nothing, directory, special, regular, Fs, Os, put, contents_of, contents, remove,
  write_file, rename, make_dirs,
}
use go_mcp_gateway.Filewriter.Apply.{
  Undo, remove_dirs, restore, discard, remove_all, undo, rollback,
}

abbrev pub Contents : Type 0
Contents = Str → Option Str

abbrev pub set : Str → Option Str → Contents → Contents
set p x c = λ q. if str_eq q p then x else c q

abbrev pub clear : List Str → Contents → Contents
clear [] c = c
clear (d ∷ ds) c = clear ds (set d none c)

abbrev pub effect : Undo → Contents → Contents
effect (remove_dirs ds) c = clear (reverse ds) c
effect (restore abs prior mode) c = set abs (some prior) c
effect (discard abs) c = set abs none c

abbrev pub effects : List Undo → Contents → Contents
effects [] c = c
effects (u ∷ us) c = effects us (effect u c)

pointwise : {c d : Contents} → ((q : Str) → c q ≡ d q) → c ≡ d
pointwise h = λ i. λ q. h q i

pub set_same : (p : Str) (x : Option Str) (c : Contents) → c p ≡ x → set p x c ≡ c
set_same p x c h = pointwise (λ q. elim (Bool-cases (str_eq q p)) [
  | inl e ↦ rw e (sym h ∙ ap c (sym (str_eq→≡ q p e)))
  | inr e ↦ rw e
])

pub set-set : (p : Str) (x y : Option Str) (c : Contents) → set p x (set p y c) ≡ set p x c
set-set p x y c = pointwise (λ q. elim (Bool-cases (str_eq q p)) [ inl e ↦ rw e | inr e ↦ rw e ])

pub contents-put :
    (p : Str) (n : Node) (fs : Fs) → contents (put p n fs) ≡ set p (contents_of n) (contents fs)
contents-put p n fs =
    pointwise (λ q. elim (Bool-cases (str_eq q p)) [ inl e ↦ rw e | inr e ↦ rw e ])

pub contents-remove :
    (os : Os) (p : Str) (fs : Fs) → contents (remove os p fs) ≡ set p none (contents fs)
unfolding remove
contents-remove os p fs = go (fs p) refl
  where
    empty : contents_of (fs p) ≡ none → contents fs ≡ set p none (contents fs)
    empty h = sym (set_same p none (contents fs) h)

    go : (n : Node) → fs p ≡ n → contents (remove os p fs) ≡ set p none (contents fs)
    go nothing e = rw (e, remove) (empty (ap contents_of e))
    go special e = rw (e, remove) (contents-put p nothing fs)
    go (regular body mode) e = rw (e, remove) (contents-put p nothing fs)
    go directory e = elim (Bool-cases (os.is_empty_dir fs p)) [
      | inl b ↦ rw (e, b, remove) (contents-put p nothing fs)
      | inr b ↦ rw (e, b, remove) (empty (ap contents_of e))
    ]

pub make_dirs-contents :
    (ds : List Str) (fs : Fs)
    → All (λ d. contents fs d ≡ none) ds
    → contents (make_dirs ds fs) ≡ contents fs
unfolding make_dirs
make_dirs-contents [] fs h = refl
make_dirs-contents (d ∷ ds) fs h =
    let same = contents-put d directory fs ∙ set_same d none (contents fs) h.0 in
    make_dirs-contents ds (put d directory fs)
      (subst (λ c. All (λ x. c x ≡ none) ds) (sym same) h.1)
    ∙ same

pub clear-none : (ds : List Str) (c : Contents) → All (λ d. c d ≡ none) ds → clear ds c ≡ c
clear-none [] c h = refl
clear-none (d ∷ ds) c h = rw (set_same d none c h.0) (clear-none ds c h.1)

-- A staging file that is removed again leaves no trace.
pub staged :
    (os : Os) (t : Str) (n : Node) (fs : Fs)
    → contents fs t ≡ none
    → contents (remove os t (put t n fs)) ≡ contents fs
staged os t n fs h =
    contents-remove os t (put t n fs)
    ∙ ap (set t none) (contents-put t n fs)
    ∙ set-set t none (contents_of n) (contents fs)
    ∙ set_same t none (contents fs) h

-- A staging file that is renamed into place changes its target and nothing else.
pub rename-contents :
    (t p body : Str) (mode : ℕ) (fs : Fs)
    → contents fs t ≡ none
    → contents (rename t p (put t (regular body mode) fs)) ≡ set p (some body) (contents fs)
unfolding rename
rename-contents t p body mode fs h = elim (Bool-cases (str_eq p t)) [
  | inl e ↦ rw e (rw (str_eq→≡ p t e) (contents-put t (regular body mode) fs))
  | inr e ↦ rw e (
      pointwise (λ q. elim (Bool-cases (str_eq q t)) [
        | inl f ↦ rw (str_eq→≡ q t f, str_eq_refl t, str_eq_sym p t e) (sym h)
        | inr f ↦
            rw (f, str_eq_refl t) (elim (Bool-cases (str_eq q p)) [ inl g ↦ rw g | inr g ↦ rw g ])
      ]))
]

module _ (os : Os) (undone : (p : Str) → os.undone p ≡ true) where
  remove_all-contents :
      (ds : List Str) (fs : Fs) → contents (remove_all os ds fs) ≡ clear ds (contents fs)
  unfolding remove_all
  remove_all-contents [] fs = refl
  remove_all-contents (d ∷ ds) fs =
      rw (undone d)
        (remove_all-contents ds (remove os d fs) ∙ ap (clear ds) (contents-remove os d fs))

  undo-contents : (u : Undo) (fs : Fs) → contents (undo os u fs) ≡ effect u (contents fs)
  unfolding undo write_file
  undo-contents (remove_dirs ds) fs = remove_all-contents (reverse ds) fs
  undo-contents (restore abs prior mode) fs = rw (undone abs) (contents-put abs _ fs)
  undo-contents (discard abs) fs = rw (undone abs) (contents-remove os abs fs)

  pub rollback-contents :
      (us : List Undo) (fs : Fs) → contents (rollback os us fs) ≡ effects us (contents fs)
  unfolding rollback
  rollback-contents [] fs = refl
  rollback-contents (u ∷ us) fs =
      rollback-contents us (undo os u fs) ∙ ap (effects us) (undo-contents u fs)
