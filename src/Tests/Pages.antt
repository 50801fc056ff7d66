-- ===== src/Tests/Pages.antt =====
-- The pages, the interface of the store and the configuration on the test data.
use slashclaw.Prelude.{negsuc, some, arith, ◌≡◌, refl, ◌==◌}
use slashclaw.Api.Http.{Request}
use slashclaw.Strings.{atoi, cat}
use slashclaw.Web.{format_score, itoa}
use slashclaw.Prelude.{String, pos, none, if◌then◌else◌}
use slashclaw.Prelude.{ℕ}
use slashclaw.Config.{load}
use slashclaw.Config.Reading.{setting, vote_limit, load-itoa}
use slashclaw.Web.Numerals.{format_score_lem}
use slashclaw.Tests.Setup.{plain}

abbrev reading : Request
reading = record plain { method = "GET"; path_id = "s1" }

format_score_lem_example :
    (text : String) × (atoi text ≡ some (negsuc 41))
    × (◌≡◌ {A = ℕ} 42 1 → format_score (negsuc 41) ≡ cat text " point")
    × ((◌≡◌ {A = ℕ} 42 1 → ⊥) → format_score (negsuc 41) ≡ cat text " points")
format_score_lem_example = format_score_lem (negsuc 41) (omega arith) (omega arith)

-- An environment that sets one limit.
abbrev variables : String → String
variables key = if key == "VOTE_RATE_LIMIT" then "25" else ""

twenty_five : variables "VOTE_RATE_LIMIT" ≡ itoa (pos 25)
unfolding itoa
twenty_five = refl

load-itoa_example : setting vote_limit (load variables (λ s. none)) ≡ pos 25
load-itoa_example =
    load-itoa variables (λ s. none) vote_limit (pos 25) (omega arith) (omega arith) twenty_five
