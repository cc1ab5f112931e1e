-- ===== src/Router/Classify.antt =====
-- `classifyTask` of internal/router/classify.go and `Classify` of router.go.
use go_mcp_gateway.Common.{List, [], ◌∷◌, map, Bool, false, ◌||◌, if◌then◌else◌}
use go_mcp_gateway.Common.Text.{Str, codes, contains, to_lower}
use go_mcp_gateway.Router.{
  Complexity, QaLevel, skip, full, Result, ok, err, empty_task, complexity_scaffold,
  complexity_single_file, complexity_multi_file, complexity_recovery, complexity_text_op,
}

pub record ClassifyResult : Type 0 where
  pub complexity : Complexity
  pub qa_level : QaLevel

-- A loop over keywords that returns at the first one found.
unfoldable pub contains_any : Str → List Str → Bool
contains_any lower [] = false
contains_any lower (kw ∷ kws) = contains lower kw || contains_any lower kws

unfoldable pub text_op_keywords : List Str
text_op_keywords =
    map codes ("rename" ∷ "reformat" ∷ "comment" ∷ "move file" ∷ "text replace" ∷ "text_op" ∷ [])

unfoldable pub scaffold_keywords : List Str
scaffold_keywords = map codes (
    "scaffold" ∷ "stub" ∷ "skeleton" ∷ "boilerplate" ∷ "new file" ∷ "create file" ∷ "initialize"
    ∷ [])

unfoldable pub recovery_keywords : List Str
recovery_keywords =
    map codes ("fix" ∷ "repair" ∷ "failing test" ∷ "recovery" ∷ "retry" ∷ "broken" ∷ [])

unfoldable pub multi_file_keywords : List Str
multi_file_keywords =
    map codes
      ("multi" ∷ "multiple file" ∷ "cross-package" ∷ "interface" ∷ "coordinate" ∷ "across" ∷ [])

unfoldable pub classify_task : Str → ClassifyResult
classify_task task =
    let lower = to_lower task in
    if contains_any lower text_op_keywords
    then record { complexity = complexity_text_op; qa_level = skip }
    else if contains_any lower scaffold_keywords
    then record { complexity = complexity_scaffold; qa_level = skip }
    else if contains_any lower recovery_keywords
    then record { complexity = complexity_recovery; qa_level = full }
    else if contains_any lower multi_file_keywords
    then record { complexity = complexity_multi_file; qa_level = full }
    else record { complexity = complexity_single_file; qa_level = full }

unfoldable pub classify : Str → Result ClassifyResult
classify [] = err empty_task
classify (c ∷ task) = ok (classify_task (c ∷ task))
