-- ===== src/Api/Frames.antt =====
-- The handlers of accounts and of sessions keep every property of the content, and the handlers of
-- stories, comments, votes and moderation keep every property of the accounts.
use slashclaw.Prelude.{String, Option, none, some, ℤ}
use slashclaw.Env.{Env}
use slashclaw.Exec.Keeps.{Keeps, keeps_rules}
use slashclaw.Config.{Config}
use slashclaw.Auth.{
  Service, random_bytes, random_text, create_challenge, redeem, issue, verify_and_create_token,
}
use slashclaw.Store.Models.{Vote, Token, AccountKey}
use slashclaw.Store.Rows.{Db}
use slashclaw.Store.Keeps.{read_rules}
use slashclaw.Store.Frames.{AuthWrites, ContentWrites, account_writes, content_writes}
use slashclaw.Api.Http.{Request}
use slashclaw.Api.Keeps.{
  check_rate_limit-Keeps, require_owner-Keeps, check_url-Keeps, check_cooldown-Keeps,
  check_parent-Keeps, check_target-Keeps,
}
use slashclaw.Api.Stories.{CreateStoryRequest, create_story}
use slashclaw.Api.Comments.{CreateCommentRequest, create_comment}
use slashclaw.Api.Votes.{
  CreateVoteRequest, add_score, change_vote, add_vote, cast_vote, create_vote,
}
use slashclaw.Api.Admin.{HideRequest, hide_visible_story, hide_visible_comment, hide}
use slashclaw.Api.Sessions.{
  ChallengeRequest, VerifyRequest, create_challenge_handler, verify_challenge,
}
use slashclaw.Api.Accounts.{
  CreateAccountRequest, AddKeyRequest, create_account, add_account_key, check_revocable,
  delete_account_key,
}

module _ (env : Env) {Q : Db → Type 0} where
  random_bytes-Keeps : Keeps Q (random_bytes env)
  unfolding random_bytes
  random_bytes-Keeps = record { at = λ w h. h }

  pub random_text-Keeps : Keeps Q (random_text env)
  unfolding random_text
  random_text-Keeps = search (keeps_rules, random_bytes-Keeps)

module _ (env : Env) (s : Service) {Q : Db → Type 0} (k : AuthWrites env Q) where
  challenge-Keeps : (agent alg : String) → Keeps Q (create_challenge env s agent alg)
  unfolding create_challenge
  challenge-Keeps agent alg = search (keeps_rules, account_writes, random_text-Keeps) depth 8

  redeem-Keeps :
      (agent alg key text signature : String) → Keeps Q (redeem env agent alg key text signature)
  unfolding redeem
  redeem-Keeps agent alg key text signature = search (read_rules, account_writes) depth 9

  issue-Keeps : (agent alg key : String) → Keeps Q (issue env s agent alg key)
  unfolding issue
  issue-Keeps agent alg key = search (read_rules, account_writes, random_text-Keeps) depth 9

  verify-Keeps :
      (agent alg key text signature : String)
      → Keeps Q (verify_and_create_token env s agent alg key text signature)
  unfolding verify_and_create_token
  verify-Keeps agent alg key text signature = search (keeps_rules, redeem-Keeps, issue-Keeps)

  pub create_challenge_handler-Keeps :
      (body : Option ChallengeRequest) → Keeps Q (create_challenge_handler env s body)
  unfolding create_challenge_handler
  create_challenge_handler-Keeps body = search (keeps_rules, challenge-Keeps) depth 8

  pub verify_challenge-Keeps : (body : Option VerifyRequest) → Keeps Q (verify_challenge env s body)
  unfolding verify_challenge
  verify_challenge-Keeps body = search (keeps_rules, verify-Keeps) depth 8

  pub create_account-Keeps :
      (r : Request) (body : Option CreateAccountRequest) → Keeps Q (create_account env s r body)
  unfolding create_account
  create_account-Keeps r body = search (read_rules, account_writes, verify-Keeps) depth 12

  pub add_account_key-Keeps :
      (r : Request) (body : Option AddKeyRequest) → Keeps Q (add_account_key env s r body)
  unfolding add_account_key
  add_account_key-Keeps r body =
      search (read_rules, account_writes, verify-Keeps, require_owner-Keeps) depth 12

  check_revocable-Keeps :
      (r : Request) (t : Token) (k : AccountKey) → Keeps Q (check_revocable env s r t k)
  unfolding check_revocable
  check_revocable-Keeps r t k = search keeps_rules

  pub delete_account_key-Keeps : (r : Request) → Keeps Q (delete_account_key env s r)
  unfolding delete_account_key
  delete_account_key-Keeps r =
      search (read_rules, account_writes, require_owner-Keeps, check_revocable-Keeps) depth 9

module _ (env : Env) (cfg : Config) {Q : Db → Type 0} (c : ContentWrites env Q) where
  pub create_story-Keeps :
      (r : Request) (body : Option CreateStoryRequest) → Keeps Q (create_story env cfg r body)
  unfolding create_story
  create_story-Keeps r body =
      search
        (keeps_rules, content_writes, check_rate_limit-Keeps, check_url-Keeps, check_cooldown-Keeps)
        depth 12

  pub create_comment-Keeps :
      (r : Request) (body : Option CreateCommentRequest) → Keeps Q (create_comment env cfg r body)
  unfolding create_comment
  create_comment-Keeps r body =
      search (read_rules, content_writes, check_rate_limit-Keeps, check_parent-Keeps) depth 12

  add_score-Keeps : (req : CreateVoteRequest) (d : ℤ) → Keeps Q (add_score env cfg req d)
  unfolding add_score
  add_score-Keeps req d = search (keeps_rules, content_writes)

  cast_vote-Keeps :
      (r : Request) (req : CreateVoteRequest) (found : Option Vote)
      → Keeps Q (cast_vote env cfg r req found)
  unfolding cast_vote add_vote change_vote
  cast_vote-Keeps r req none = search (keeps_rules, content_writes, add_score-Keeps) depth 7
  cast_vote-Keeps r req (some vote) = search (keeps_rules, content_writes, add_score-Keeps) depth 7

  pub create_vote-Keeps :
      (r : Request) (body : Option CreateVoteRequest) → Keeps Q (create_vote env cfg r body)
  unfolding create_vote
  create_vote-Keeps r body =
      search (read_rules, check_rate_limit-Keeps, check_target-Keeps, cast_vote-Keeps) depth 11

  hide_visible_story-Keeps : (id : String) → Keeps Q (hide_visible_story env cfg id)
  unfolding hide_visible_story
  hide_visible_story-Keeps id = search (read_rules, content_writes)

  hide_visible_comment-Keeps : (id : String) → Keeps Q (hide_visible_comment env cfg id)
  unfolding hide_visible_comment
  hide_visible_comment-Keeps id = search (read_rules, content_writes)

  pub hide-Keeps : (r : Request) (body : Option HideRequest) → Keeps Q (hide env cfg r body)
  unfolding hide
  hide-Keeps r body =
      search (keeps_rules, hide_visible_story-Keeps, hide_visible_comment-Keeps) depth 9
