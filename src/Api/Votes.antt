-- ===== src/Api/Votes.antt =====
-- internal/api/votes.go
pub mod Pending
pub mod Others
pub mod Target
pub mod Ballot
pub mod Tally
pub mod One
pub mod Cast
use slashclaw.Prelude.{
  String, Bool, not, ◌&&◌, Option, some, none, ℤ, pos, negsuc, ◌-ℤ◌, eq_ℤ, ◌==◌, if◌then◌else◌,
}
use slashclaw.Env.{Env}
use slashclaw.Exec.{Exec, pure, or_fail, fail_if, when, on_err, ignore_err, ◌>>=◌, ◌>>◌}
use slashclaw.Config.{Config}
use slashclaw.Auth.{hash_ip}
use slashclaw.Store.Models.{Vote, zero_time}
use slashclaw.Store.Stories.{get_story, update_story_score}
use slashclaw.Store.Comments.{get_comment, update_comment_score}
use slashclaw.Store.Votes.{create_vote as store_vote, get_vote, update_vote}
use slashclaw.Api.Http.{
  Request, Response, Handler, ok_response, write_json, write_error, write_rate_limited,
  database_error, check_rate_limit, client_ip, context_agent, context_verified,
}

pub record CreateVoteRequest : Type 0 where
  pub target_type : String
  pub target_id : String
  pub value : ℤ

-- the content is by the agent that votes
unfoldable pub is_own : String → String → Bool
is_own author agent = not (author == "") && author == agent

module _ (env : Env) (cfg : Config) where
  unfoldable pub check_story_target : String → String → Exec Response Unit
  unfolding is_own
  check_story_target agent target = do
    found ← on_err database_error (get_story env target)
    story ← or_fail found (write_error 404 "story not found")
    fail_if (is_own story.agent_id agent) (write_error 403 "cannot vote on your own content")

  unfoldable pub check_comment_target : String → String → Exec Response Unit
  unfolding is_own
  check_comment_target agent target = do
    found ← on_err database_error (get_comment env target)
    comment ← or_fail found (write_error 404 "comment not found")
    fail_if (is_own comment.agent_id agent) (write_error 403 "cannot vote on your own content")

  unfoldable pub check_target : String → CreateVoteRequest → Exec Response Unit
  unfolding check_story_target check_comment_target
  check_target agent req =
      if req.target_type == "story"
      then check_story_target agent req.target_id
      else check_comment_target agent req.target_id

  -- the change of the score; its error is dropped
  unfoldable pub add_score : CreateVoteRequest → ℤ → Exec Response Unit
  add_score req delta =
      if req.target_type == "story"
      then ignore_err (update_story_score env req.target_id delta)
      else ignore_err (update_comment_score env req.target_id delta)

  -- the branch for a vote that is there
  unfoldable pub change_vote : CreateVoteRequest → Vote → Exec Response Unit
  unfolding add_score
  change_vote req vote = when (not (eq_ℤ vote.value req.value)) do
    on_err (λ e. write_error 500 "failed to update vote") (update_vote env vote.id req.value)
    add_score req (req.value -ℤ vote.value)

  -- the branch for a new vote
  unfoldable pub add_vote : Request → CreateVoteRequest → String → Exec Response Unit
  unfolding add_score context_agent context_verified
  add_vote r req ip = do
    let vote : Vote = record {
      id = "";
      target_type = req.target_type;
      target_id = req.target_id;
      value = req.value;
      created_at = zero_time;
      ip_hash = ip;
      agent_id = context_agent r;
      agent_verified = context_verified r;
    }
    on_err (λ e. write_error 500 "failed to create vote") (store_vote env vote)
    add_score req req.value

  unfoldable pub cast_vote : Request → CreateVoteRequest → Option Vote → Exec Response Unit
  unfolding change_vote add_vote client_ip hash_ip
  cast_vote r req none = add_vote r req (hash_ip env (client_ip r))
  cast_vote r req (some vote) = change_vote req vote

  unfoldable pub create_vote : Request → Option CreateVoteRequest → Handler
  unfolding check_target cast_vote check_rate_limit context_agent
  create_vote r body = do
    rate ← check_rate_limit env cfg r "vote" cfg.vote_rate_limit
    fail_if (not rate.0) (write_rate_limited rate.1)
    req ← or_fail body (write_error 400 "invalid JSON")
    fail_if (not (req.target_type == "story") && not (req.target_type == "comment"))
        (write_error 400 "target_type must be 'story' or 'comment'")
    fail_if (not (eq_ℤ req.value (pos 1)) && not (eq_ℤ req.value (negsuc 0)))
        (write_error 400 "value must be 1 or -1")
    check_target (context_agent r) req
    existing ←
        on_err database_error
          (get_vote env req.target_type req.target_id (hash_ip env (client_ip r)) (context_agent r))
    cast_vote r req existing
    pure (write_json 200 ok_response)
