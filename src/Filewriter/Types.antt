-- ===== src/Filewriter/Types.antt =====
-- internal/filewriter/types.go. The texts of the errors are left out, with what they quote.
use go_mcp_gateway.Common.{ℕ, Bool, ◌≡◌, refl, ◌⊎◌, inl, inr}
use go_mcp_gateway.Common.Text.{Str}

pub data OpKind : Type 0 where
  write create modify delete : OpKind

pub record FileOp : Type 0 where
  pub kind : OpKind
  pub raw_path : Str
  pub path : Str
  pub content : Str

pub record Change : Type 0 where
  pub path : Str
  pub operation : OpKind
  pub bytes : ℕ
  pub skipped : Bool

pub data ParseReason : Type 0 where
  no_operations unclosed_fence missing_path duplicate_path : ParseReason

pub record ParseError : Type 0 where
  pub reason : ParseReason
  pub line : ℕ

pub data WriteReason : Type 0 where
  path_traversal gitignored binary_extension not_regular_file duplicate_target io_error :
      WriteReason

pub record WriteError : Type 0 where
  pub reason : WriteReason
  pub path : Str

-- A value or an error, for either kind of error.
pub data Result {ℓ κ} (E : Type κ) (A : Type ℓ) : Type (ℓ ⊔ κ) where
  ok : A → Result E A
  err : E → Result E A

infixl 5 ◌>>=◌
abbrev pub ◌>>=◌ {ℓ κ ι} :
    {E : Type ι} {A : Type ℓ} {B : Type κ} → Result E A → (A → Result E B) → Result E B
ok a >>= f = f a
err e >>= f = err e

-- Inversion of a chain that succeeds.
pub >>=-eq-ok {ℓ κ ι} :
    {E : Type ι} {A : Type ℓ} {B : Type κ} {last : B} (first : Result E A) (next : A → Result E B)
    → (first >>= next) ≡ ok last
    → (mid : A) × (first ≡ ok mid) × (next mid ≡ ok last)
>>=-eq-ok (ok mid) next reached = (mid, refl, reached)
>>=-eq-ok (err cause) next reached = absurd (cc reached)

pub Result-cases {ℓ κ} :
    {E : Type κ} {A : Type ℓ} (m : Result E A) → ((a : A) × (m ≡ ok a)) ⊎ ((e : E) × (m ≡ err e))
Result-cases (ok a) = inl (a, refl)
Result-cases (err e) = inr (e, refl)
