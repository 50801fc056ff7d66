-- ===== src/Config.antt =====
-- internal/config/config.go. `os.Getenv` and `time.ParseDuration` are arguments.
pub mod Reading
use slashclaw.Prelude.{String, Option, none, some, ℤ, pos, ◌==◌, if◌then◌else◌}
use slashclaw.Strings.{atoi}

pub record Config : Type 0 where
  pub port : ℤ
  pub host : String
  pub base_url : String
  pub admin_secret : String
  pub database_path : String
  pub story_rate_limit : ℤ
  pub comment_rate_limit : ℤ
  pub vote_rate_limit : ℤ
  pub rate_limit_window : ℤ
  pub challenge_ttl : ℤ
  pub token_ttl : ℤ
  pub duplicate_window : ℤ
  pub post_cooldown : ℤ

unfoldable pub or_default {ℓ} : {A : Type ℓ} → A → Option A → A
or_default d none = d
or_default d (some a) = a

module _ (getenv : String → String) (parse_duration : String → Option ℤ) where
  unfoldable pub get_env : String → String → String
  get_env key default = if getenv key == "" then default else getenv key

  unfoldable pub get_env_int : String → ℤ → ℤ
  unfolding or_default
  get_env_int key default =
      if getenv key == "" then default else or_default default (atoi (getenv key))

  unfoldable pub get_env_duration : String → ℤ → ℤ
  unfolding or_default
  get_env_duration key default =
      if getenv key == "" then default else or_default default (parse_duration (getenv key))

  unfoldable pub load : Config
  unfolding get_env get_env_int get_env_duration
  load = record {
    port = get_env_int "PORT" (pos 8080);
    host = get_env "HOST" "0.0.0.0";
    base_url = get_env "BASE_URL" "http://localhost:8080";
    admin_secret = get_env "ADMIN_SECRET" "";
    database_path = get_env "DATABASE_PATH" "slashclaw.db";
    story_rate_limit = get_env_int "STORY_RATE_LIMIT" (pos 10);
    comment_rate_limit = get_env_int "COMMENT_RATE_LIMIT" (pos 60);
    vote_rate_limit = get_env_int "VOTE_RATE_LIMIT" (pos 120);
    rate_limit_window = get_env_duration "RATE_LIMIT_WINDOW" (pos 3600000000000);
    challenge_ttl = get_env_duration "CHALLENGE_TTL" (pos 300000000000);
    token_ttl = get_env_duration "TOKEN_TTL" (pos 86400000000000);
    duplicate_window = get_env_duration "DUPLICATE_WINDOW" (pos 2592000000000000);
    post_cooldown = get_env_duration "POST_COOLDOWN" (pos 60000000000);
  }
