-- ===== src/Filewriter/Apply/Passes.antt =====
-- What the two loops of `Apply` (internal/filewriter/apply.go) are to do to the contents of files:
-- each planned operation changes its own target.
use go_mcp_gateway.Common.{
  ◌≡◌, refl, sym, ap, ◌∙◌, true, false, Bool-cases, Option, none, some, if◌then◌else◌, List, [],
  ◌∷◌, All, All-map, All-zip, inl, inr,
}
use go_mcp_gateway.Common.Text.{Str, str_eq, str_eq_refl, str_eq_sym}
use go_mcp_gateway.Filewriter.Writer.{PlannedOp, is_delete}
use go_mcp_gateway.Filewriter.Writer.Planned.{Disjoint}
use go_mcp_gateway.Filewriter.Apply.Effects.{Contents, set}

abbrev pub Pass : Type 0
Pass = PlannedOp → Contents → Contents

abbrev pub write_in : Pass
write_in p c = if is_delete p.operation then c else set p.abs (some p.content) c

abbrev pub delete_in : Pass
delete_in p c = if is_delete p.operation then set p.abs none c else c

abbrev pub all_in : Pass → List PlannedOp → Contents → Contents
all_in g [] c = c
all_in g (p ∷ ps) c = all_in g ps (g p c)

-- A pass in which an operation changes no file but its target, by what the target holds.
pub record IsLocal (g : Pass) : Type 0 where
  pub elsewhere : (p : PlannedOp) (c : Contents) (q : Str) → str_eq q p.abs ≡ false → g p c q ≡ c q
  pub own : (p : PlannedOp) (c d : Contents) → c p.abs ≡ d p.abs → g p c p.abs ≡ g p d p.abs

set_elsewhere : (p q : Str) (x : Option Str) (c : Contents) → str_eq q p ≡ false → set p x c q ≡ c q
set_elsewhere p q x c h = rw h refl

set_own : (p : Str) (x : Option Str) (c : Contents) → set p x c p ≡ x
set_own p x c = rw (str_eq_refl p) refl

pub write_in-delete :
    (p : PlannedOp) (c : Contents) → is_delete p.operation ≡ true → write_in p c ≡ c
write_in-delete p c e = rw e refl

pub delete_in-write :
    (p : PlannedOp) (c : Contents) → is_delete p.operation ≡ false → delete_in p c ≡ c
delete_in-write p c e = rw e refl

pub write_in-write :
    (p : PlannedOp) (c : Contents)
    → is_delete p.operation ≡ false
    → write_in p c ≡ set p.abs (some p.content) c
write_in-write p c e = rw e refl

pub delete_in-delete :
    (p : PlannedOp) (c : Contents) → is_delete p.operation ≡ true → delete_in p c ≡ set p.abs none c
delete_in-delete p c e = rw e refl

pub write_in-IsLocal : IsLocal write_in
write_in-IsLocal = record {
  elsewhere = λ p c q h. elim (Bool-cases (is_delete p.operation)) [
    | inl e ↦ ap (λ d. d q) (write_in-delete p c e)
    | inr e ↦ ap (λ d. d q) (write_in-write p c e) ∙ set_elsewhere p.abs q (some p.content) c h
  ];
  own = λ p c d h. elim (Bool-cases (is_delete p.operation)) [
    | inl e ↦ rw e h
    | inr e ↦ rw (e, str_eq_refl p.abs) refl
  ];
}

pub delete_in-IsLocal : IsLocal delete_in
delete_in-IsLocal = record {
  elsewhere = λ p c q h. elim (Bool-cases (is_delete p.operation)) [
    | inl e ↦ ap (λ d. d q) (delete_in-delete p c e) ∙ set_elsewhere p.abs q none c h
    | inr e ↦ ap (λ d. d q) (delete_in-write p c e)
  ];
  own = λ p c d h. elim (Bool-cases (is_delete p.operation)) [
    | inl e ↦ rw (e, str_eq_refl p.abs) refl
    | inr e ↦ rw e h
  ];
}

-- A file that no operation targets.
abbrev pub Untouched : Str → List PlannedOp → Type 0
Untouched q ps = All (λ p. str_eq q p.abs ≡ false) ps

module _ (g : Pass) (l : IsLocal g) where
  pub all_in-Untouched :
      (ps : List PlannedOp) (c : Contents) (q : Str) → Untouched q ps → all_in g ps c q ≡ c q
  all_in-Untouched [] c q h = refl
  all_in-Untouched (p ∷ ps) c q h = all_in-Untouched ps (g p c) q h.1 ∙ l.elsewhere p c q h.0

  pub all_in-own :
      (ps : List PlannedOp) (c : Contents)
      → Disjoint ps
      → All (λ p. all_in g ps c p.abs ≡ g p c p.abs) ps
  all_in-own [] c h = tt
  all_in-own (p ∷ ps) c h = (
    all_in-Untouched ps (g p c) p.abs (All-map ps (λ q a. str_eq_sym q.abs p.abs a) h.0),
    All-zip ps (λ q a k. k ∙ l.own q (g p c) c (l.elsewhere p c q.abs a)) h.0
        (all_in-own ps (g p c) h.1),
  )

  -- A pass whose operations need something of their own target finds it at each turn.
  module _ (Needs : Contents → PlannedOp → Type 0)
      (same : (p : PlannedOp) (c d : Contents) → c p.abs ≡ d p.abs → Needs c p → Needs d p) where
    abbrev pub Met : List PlannedOp → Contents → Type 0
    Met [] c = Unit {0}
    Met (p ∷ ps) c = Needs c p × Met ps (g p c)

    pub needs-Met : (ps : List PlannedOp) (c : Contents) → Disjoint ps → All (Needs c) ps → Met ps c
    needs-Met [] c h k = tt
    needs-Met (p ∷ ps) c h k = (
      k.0,
      needs-Met ps (g p c) h.1
          (All-zip ps (λ q a n. same q c (g p c) (sym (l.elsewhere p c q.abs a)) n) h.0 k.1),
    )

abbrev pub both_passes : List PlannedOp → Contents → Contents
both_passes ps c = all_in delete_in ps (all_in write_in ps c)

-- What a batch asks of each target.
abbrev pub wanted : PlannedOp → Option Str
wanted p = if is_delete p.operation then none else some p.content

pub both_passes-Untouched :
    (ps : List PlannedOp) (c : Contents) (q : Str) → Untouched q ps → both_passes ps c q ≡ c q
both_passes-Untouched ps c q h =
    all_in-Untouched delete_in delete_in-IsLocal ps (all_in write_in ps c) q h
    ∙ all_in-Untouched write_in write_in-IsLocal ps c q h

both_passes-own :
    (p : PlannedOp) (c d : Contents) → c p.abs ≡ write_in p d p.abs → delete_in p c p.abs ≡ wanted p
both_passes-own p c d h = elim (Bool-cases (is_delete p.operation)) [
  | inl e ↦
      ap (λ k. k p.abs) (delete_in-delete p c e) ∙ set_own p.abs none c ∙ sym (wanted_delete e)
  | inr e ↦
      ap (λ k. k p.abs) (delete_in-write p c e)
      ∙ h
      ∙ ap (λ k. k p.abs) (write_in-write p d e)
      ∙ set_own p.abs (some p.content) d
      ∙ sym (wanted_write e)
]
  where
    wanted_delete : is_delete p.operation ≡ true → wanted p ≡ none
    wanted_delete e = rw e refl

    wanted_write : is_delete p.operation ≡ false → wanted p ≡ some p.content
    wanted_write e = rw e refl

pub both_passes-wanted :
    (ps : List PlannedOp) (c : Contents)
    → Disjoint ps
    → All (λ p. both_passes ps c p.abs ≡ wanted p) ps
both_passes-wanted ps c h =
    All-zip ps (λ p d w. d ∙ both_passes-own p (all_in write_in ps c) c w)
      (all_in-own delete_in delete_in-IsLocal ps (all_in write_in ps c) h)
      (all_in-own write_in write_in-IsLocal ps c h)
