-- ===== src/Remote/Opus.antt =====
-- internal/remote/opus.go: the system prompt of each attempt. The closure that `Do` passes to the
-- retry loop assigns to the request it captured.
use go_mcp_gateway.Remote.{Exchange}
use go_mcp_gateway.Remote.Retry.{Retried, blank, do_with_retry_and_header}
use go_mcp_gateway.Common.{
  Bool, ap, ◌∙◌, append_assoc, ℕ, zero, suc, ◌+◌, ◌≡◌, refl, arith, [], ◌∷◌, ◌++◌, if◌then◌else◌,
  false,
}
use go_mcp_gateway.Common.Text.{Str, codes, is_empty}

unfoldable pub with_effort_hint : Str → Str → Str
with_effort_hint system_prompt effort =
    let hint = codes "[reasoning_effort:" ++ effort ++ codes "]" in
    if is_empty system_prompt then hint else system_prompt ++ b'\n' ∷ hint

-- The system prompt that attempt `n` sends, from 0.
unfoldable pub opus_prompt : Str → ℕ → Str
unfolding with_effort_hint
opus_prompt system_prompt zero = with_effort_hint system_prompt (codes "high")
opus_prompt system_prompt (suc n) = with_effort_hint (opus_prompt system_prompt n) (codes "high")

-- `Do`, whose exchanges depend on the prompt they send: the loop that retries calls the closure once
-- for each attempt. No header is passed on.
unfoldable pub opus_do : Str → (Str → ℕ → Exchange) → (ℕ → Bool) → Retried
unfolding opus_prompt do_with_retry_and_header
opus_do system_prompt exchange ends =
    do_with_retry_and_header "claude_opus" (λ n. blank)
      (λ n. exchange (opus_prompt system_prompt n) n) ends

-- The hint, `n` times, each on a line of its own.
pub hints : ℕ → Str
hints zero = []
hints (suc n) = codes "\n[reasoning_effort:high]" ++ hints n

hints-snoc : (n : ℕ) → hints n ++ codes "\n[reasoning_effort:high]" ≡ hints (suc n)
unfolding hints
hints-snoc zero = refl
hints-snoc (suc n) =
    append_assoc (codes "\n[reasoning_effort:high]") (hints n) (codes "\n[reasoning_effort:high]")
    ∙ ap (λ t. codes "\n[reasoning_effort:high]" ++ t) (hints-snoc n)

hinted :
    (s : Str)
    → is_empty s ≡ false
    → with_effort_hint s (codes "high") ≡ s ++ codes "\n[reasoning_effort:high]"
unfolding with_effort_hint
hinted s h = rw h refl

is_empty-append : (s t : Str) → is_empty s ≡ false → is_empty (s ++ t) ≡ false
is_empty-append [] t h = absurd (cc h)
is_empty-append (c ∷ s) t h = refl

opus_prompt-hints : (s : Str) (n : ℕ) → is_empty s ≡ false → opus_prompt s n ≡ s ++ hints (suc n)
unfolding opus_prompt hints
opus_prompt-hints s zero h = hinted s h
opus_prompt-hints s (suc n) h =
    ap (λ t. with_effort_hint t (codes "high")) (opus_prompt-hints s n h)
    ∙ hinted (s ++ hints (suc n)) (is_empty-append s (hints (suc n)) h)
    ∙ append_assoc s (hints (suc n)) (codes "\n[reasoning_effort:high]")
    ∙ ap (λ t. s ++ t) (hints-snoc (suc n))

-- `Do` retries as the loop does when attempt `n`, from 0, sends the system prompt with the hint for
-- high effort behind it `n + 1` times: each attempt adds it once more. The system prompt is not empty.
pub opus_do-hints :
    (s : Str) (exchange : Str → ℕ → Exchange) (ends : ℕ → Bool)
    → is_empty s ≡ false
    → opus_do s exchange ends
      ≡ do_with_retry_and_header "claude_opus"
          (λ n. blank)
          (λ n. exchange (s ++ hints (n + 1)) n)
          ends
unfolding opus_do
opus_do-hints s exchange ends h =
    λ i. do_with_retry_and_header "claude_opus" (λ n. blank) (λ n. exchange (sent n i) n) ends
  where
    sent : (n : ℕ) → opus_prompt s n ≡ s ++ hints (n + 1)
    sent n = opus_prompt-hints s n h ∙ ap (λ m. s ++ hints m) (omega arith)
