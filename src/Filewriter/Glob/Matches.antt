-- ===== src/Filewriter/Glob/Matches.antt =====
-- What `filepath.Match` accepts, as internal/filewriter/gitignore.go calls it.
use go_mcp_gateway.Common.{
  ℕ, ◌≡◌, ◌≢◌, refl, sym, subst, inl, inr, arith, ◌==◌, Bool, true, false, Bool-cases, some,
  Option-cases, List, [], ◌∷◌, ◌++◌, map, All, ◌∙◌,
}
use go_mcp_gateway.Common.Text.{Str, codes, str_eq, contains, has_prefix}
use go_mcp_gateway.Filewriter.Glob.{
  Token, star, any, lit, class, plain, lex, lex_plain, tokens, fits, match_chunk, chunks, before,
  accepts, seek, match_chunks, match_tokens, file_match, is_nil,
}

-- The names that a pattern stands for: a star spans bytes of one segment.
pub data Globs : List Token → Str → Type 0 where
  end : Globs [] []
  one :
      {t : Token} {ts : List Token} {c : ℕ} {s : Str}
      → fits t c ≡ true
      → Globs ts s
      → Globs (t ∷ ts) (c ∷ s)
  skip : {ts : List Token} {s : Str} → Globs ts s → Globs (star ∷ ts) s
  span :
      {ts : List Token} {c : ℕ} {s : Str}
      → c ≢ b'/'
      → Globs (star ∷ ts) s
      → Globs (star ∷ ts) (c ∷ s)

-- The tokens that `chunks` cuts up.
abbrev starred : List (List Token) → List Token
starred [] = []
starred (g ∷ gs) = star ∷ g ++ starred gs

abbrev Stands : List Token × List (List Token) → Str → Type 0
Stands (first, gs) s = Globs (first ++ starred gs) s

star_mono :
    (us ts : List Token)
    → ((s : Str) → Globs us s → Globs ts s)
    → (s : Str) → Globs (star ∷ us) s
    → Globs (star ∷ ts) s
unfolding fits
star_mono us ts h s (one e g) = absurd (cc e)
star_mono us ts h s (skip g) = skip (h s g)
star_mono us ts h (c ∷ s) (span ne g) = span ne (star_mono us ts h s g)

Stands-before :
    (t : Token) (p : List Token × List (List Token)) (ts : List Token)
    → ((s : Str) → Stands p s → Globs ts s)
    → (s : Str) → (t ≢ star)
    → Stands (before t p) s
    → Globs (t ∷ ts) s
Stands-before t (us, gs) ts h (c ∷ s) ne (one e k) = one e (h s k)
Stands-before t (us, gs) ts h s ne (skip k) = absurd (ne refl)
Stands-before t (us, gs) ts h (c ∷ s) ne (span x k) = absurd (ne refl)

chunks-Globs : (ts : List Token) (s : Str) → Stands (chunks ts) s → Globs ts s
unfolding chunks
chunks-Globs [] s k = k
chunks-Globs (star ∷ ts) s k =
    star_mono ((chunks ts).0 ++ starred (chunks ts).1) ts (chunks-Globs ts) s k
chunks-Globs (any ∷ ts) s k = Stands-before any (chunks ts) ts (chunks-Globs ts) s (λ e. cc e) k
chunks-Globs (lit c ∷ ts) s k =
    Stands-before (lit c) (chunks ts) ts (chunks-Globs ts) s (λ e. cc e) k
chunks-Globs (class neg rs ∷ ts) s k =
    Stands-before (class neg rs) (chunks ts) ts (chunks-Globs ts) s (λ e. cc e) k

match_chunk-Globs :
    (ts us : List Token) (s r : Str) → match_chunk ts s ≡ some r → Globs us r → Globs (ts ++ us) s
unfolding match_chunk
match_chunk-Globs [] us s r h g = subst (Globs us) (sym (cc h)) g
match_chunk-Globs (t ∷ ts) us [] r h g = absurd (cc h)
match_chunk-Globs (t ∷ ts) us (c ∷ s) r h g = elim (Bool-cases (fits t c)) [
  | inl e ↦ one e (match_chunk-Globs ts us s r (rw e at h) g)
  | inr e ↦ absurd (cc (rw e at h))
]

all_span : (s : Str) → contains s (codes "/") ≡ false → Globs (star ∷ []) s
unfolding contains has_prefix
all_span [] h = skip end
all_span (c ∷ s) h = span (ground arith) (all_span s (ground arith))

seek-Globs :
    (last : Bool) (g us : List Token) (s r : Str)
    → seek last g s ≡ some r
    → Globs us r
    → Globs (star ∷ g ++ us) s
unfolding seek
seek-Globs last g us [] r h k = elim (Bool-cases (accepts last (match_chunk g []))) [
  | inl e ↦ skip (match_chunk-Globs g us [] r (rw e at h) k)
  | inr e ↦ absurd (cc (rw e at h))
]
seek-Globs last g us (c ∷ s) r h k = elim (Bool-cases (accepts last (match_chunk g (c ∷ s)))) [
  | inl e ↦ skip (match_chunk-Globs g us (c ∷ s) r (rw e at h) k)
  | inr e ↦ elim (Bool-cases (c == b'/')) [
    | inl sep ↦ absurd (cc (rw (e, sep) at h))
    | inr ne ↦ span (ground (arith, ne)) (seek-Globs last g us s r (rw (e, ne) at h) k)
  ]
]

match_chunks-Globs :
    (gs : List (List Token)) (s : Str) → match_chunks gs s ≡ true → Globs (starred gs) s
unfolding match_chunks
match_chunks-Globs [] [] h = end
match_chunks-Globs [] (c ∷ s) h = absurd (cc h)
match_chunks-Globs ([] ∷ []) s h = all_span s (ground (arith, h))
match_chunks-Globs ([] ∷ g ∷ gs) s h = skip (match_chunks-Globs (g ∷ gs) s h)
match_chunks-Globs ((t ∷ ts) ∷ gs) s h = elim (Option-cases (seek (is_nil gs) (t ∷ ts) s)) [
  | inl e ↦ absurd (cc (rw (e, match_chunks) at h))
  | inr (r, e) ↦
      seek-Globs (is_nil gs) (t ∷ ts) (starred gs) s r e
        (match_chunks-Globs gs r (rw (e, match_chunks) at h))
]

match_tokens-Globs : (ts : List Token) (s : Str) → match_tokens ts s ≡ true → Globs ts s
unfolding match_tokens
match_tokens-Globs ts s h = elim (Option-cases (match_chunk (chunks ts).0 s)) [
  | inl e ↦ absurd (cc (rw (e, match_tokens) at h))
  | inr (r, e) ↦ chunks-Globs ts s (
      match_chunk-Globs (chunks ts).0 (starred (chunks ts).1) s r e
        (match_chunks-Globs (chunks ts).1 r (rw (e, match_tokens) at h)))
]

-- What the pattern language of `filepath.Match` takes a name for is a name that the pattern stands
-- for: a star spans any bytes but a slash, and each other token one byte that fits it.
pub file_match-Globs :
    (pattern name : Str)
    → file_match pattern name ≡ true
    → (ts : List Token) × (tokens plain pattern ≡ some ts) × Globs ts name
unfolding file_match
file_match-Globs pattern name h = elim (Option-cases (tokens plain pattern)) [
  | inl e ↦ absurd (cc (rw (e, file_match) at h))
  | inr (ts, e) ↦ (ts, e, match_tokens-Globs ts name (rw (e, file_match) at h))
]

-- A byte that a pattern takes literally.
abbrev pub IsPlain : ℕ → Type 0
IsPlain c = (c ≢ b'*') × (c ≢ b'?') × (c ≢ b'[') × (c ≢ b'\\')

plain-tokens : (p : Str) → All IsPlain p → tokens plain p ≡ some (map lit p)
unfolding tokens lex lex_plain
plain-tokens [] h = refl
plain-tokens (c ∷ p) h = ground (arith, plain-tokens p h.1)

plain-chunks : (p : Str) → chunks (map lit p) ≡ (map lit p, [])
unfolding chunks
plain-chunks [] = refl
plain-chunks (c ∷ p) = rw (plain-chunks p)

plain-match_chunk : (p s : Str) → accepts true (match_chunk (map lit p) s) ≡ str_eq s p
unfolding match_chunk fits str_eq
plain-match_chunk [] [] = refl
plain-match_chunk [] (c ∷ s) = refl
plain-match_chunk (d ∷ p) [] = refl
plain-match_chunk (d ∷ p) (c ∷ s) = ground (arith, plain-match_chunk p s)

plain-match_tokens :
    (p s : Str) → match_tokens (map lit p) s ≡ accepts true (match_chunk (map lit p) s)
unfolding match_tokens match_chunks
plain-match_tokens p s = elim (Option-cases (match_chunk (map lit p) s)) [
  | inl e ↦ rw (plain-chunks p, e, match_tokens) refl
  | inr (r, e) ↦ rw (plain-chunks p, e, match_tokens, plain-chunks p) refl
]

-- A pattern of such bytes matches itself only.
pub file_match-plain : (p s : Str) → All IsPlain p → file_match p s ≡ str_eq s p
unfolding file_match
file_match-plain p s h =
    rw (plain-tokens p h, file_match) (plain-match_tokens p s ∙ plain-match_chunk p s)
