-- ===== src/Config/Reading.antt =====
-- `Load`: the settings that are numbers.
use slashclaw.Prelude.{
  String, Option, some, none, ℤ, pos, pos_part, neg_part, ◌≤◌, ◌≡◌, refl, ap, ◌==◌, eq_iff, ◌∙◌,
  Bool-cases, inl, inr,
}
use slashclaw.Strings.{atoi}
use slashclaw.Config.{Config, get_env_int, load}
use slashclaw.Web.{itoa}
use slashclaw.Web.Numerals.{atoi-itoa}

-- The settings, the variables that they are read from, and the fields that they go to.
pub data Setting : Type 0 where
  port story_limit comment_limit vote_limit : Setting

abbrev pub variable : Setting → String
variable port = "PORT"
variable story_limit = "STORY_RATE_LIMIT"
variable comment_limit = "COMMENT_RATE_LIMIT"
variable vote_limit = "VOTE_RATE_LIMIT"

abbrev pub setting : Setting → Config → ℤ
setting port cfg = cfg.port
setting story_limit cfg = cfg.story_rate_limit
setting comment_limit cfg = cfg.comment_rate_limit
setting vote_limit cfg = cfg.vote_rate_limit

atoi_empty : atoi "" ≡ none
unfolding atoi
atoi_empty = refl

module _ (getenv : String → String) (parse_duration : String → Option ℤ) where
  get_env_int-itoa :
      (key : String) (default x : ℤ)
      → pos_part x ≤ 9223372036854775807
      → neg_part x ≤ 9223372036854775808
      → getenv key ≡ itoa x
      → get_env_int getenv parse_duration key default ≡ x
  unfolding get_env_int
  get_env_int-itoa key default x h k e =
      let read : atoi (getenv key) ≡ some x = ap atoi e ∙ atoi-itoa x h k in
      elim (Bool-cases (getenv key == "")) [
        | inl empty ↦ absurd (cc (read, ap atoi ((eq_iff (getenv key) "").0 empty), atoi_empty))
        | inr given ↦ rw (given, read) refl
      ]

  -- A port or a limit is the number whose numeral its variable holds, if that is a 64-bit `int`.
  pub load-itoa :
      (s : Setting) (x : ℤ)
      → pos_part x ≤ 9223372036854775807
      → neg_part x ≤ 9223372036854775808
      → getenv (variable s) ≡ itoa x
      → setting s (load getenv parse_duration) ≡ x
  unfolding load
  load-itoa port x h k e = get_env_int-itoa "PORT" (pos 8080) x h k e
  load-itoa story_limit x h k e = get_env_int-itoa "STORY_RATE_LIMIT" (pos 10) x h k e
  load-itoa comment_limit x h k e = get_env_int-itoa "COMMENT_RATE_LIMIT" (pos 60) x h k e
  load-itoa vote_limit x h k e = get_env_int-itoa "VOTE_RATE_LIMIT" (pos 120) x h k e
