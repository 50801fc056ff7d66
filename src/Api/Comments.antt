-- ===== src/Api/Comments.antt =====
-- internal/api/comments.go
use slashclaw.Prelude.{String, false, not, Option, pos, ◌==◌, if◌then◌else◌}
use slashclaw.Env.{Env}
use slashclaw.Exec.{Exec, pure, or_fail, fail_if, when, on_err, ignore_err, ◌>>=◌, ◌>>◌}
use slashclaw.Config.{Config}
use slashclaw.Store.Models.{
  Comment, SortOrder, top, new, ViewMode, tree, flat, CommentListOptions, zero_time,
}
use slashclaw.Store.Stories.{get_story, update_story_comment_count}
use slashclaw.Store.Comments.{create_comment as store_comment, get_comment}
use slashclaw.Store.Tree.{list_comments}
use slashclaw.Api.Http.{
  Request, Response, Handler, create_comment_response, list_comments_response, write_json,
  write_error, write_rate_limited, database_error, check_rate_limit, context_agent,
  context_verified,
}

pub record CreateCommentRequest : Type 0 where
  pub story_id : String
  pub parent_id : String
  pub text : String

unfoldable pub parse_comment_sort : String → SortOrder
parse_comment_sort s = if s == "new" then new else top

unfoldable pub parse_view : String → ViewMode
parse_view s = if s == "flat" then flat else tree

module _ (env : Env) (cfg : Config) where
  -- the parent is a visible comment on the same story
  unfoldable pub check_parent : CreateCommentRequest → Exec Response Unit
  check_parent req = do
    found ← on_err database_error (get_comment env req.parent_id)
    parent ← or_fail found (write_error 404 "parent comment not found")
    fail_if (not (parent.story_id == req.story_id))
        (write_error 400 "parent comment is from a different story")

  unfoldable pub create_comment : Request → Option CreateCommentRequest → Handler
  unfolding check_parent check_rate_limit context_agent context_verified
  create_comment r body = do
    rate ← check_rate_limit env cfg r "comment" cfg.comment_rate_limit
    fail_if (not rate.0) (write_rate_limited rate.1)
    req ← or_fail body (write_error 400 "invalid JSON")
    fail_if (req.story_id == "") (write_error 400 "story_id is required")
    fail_if (req.text == "") (write_error 400 "text is required")
    found ← on_err database_error (get_story env req.story_id)
    story ← or_fail found (write_error 404 "story not found")
    when (not (req.parent_id == "")) (check_parent req)
    let comment : Comment = record {
      id = "";
      story_id = req.story_id;
      parent_id = req.parent_id;
      text = req.text;
      score = pos 0;
      created_at = zero_time;
      hidden = false;
      agent_id = context_agent r;
      agent_verified = context_verified r;
    }
    saved ← on_err (λ e. write_error 500 "failed to create comment") (store_comment env comment)
    ignore_err (update_story_comment_count env req.story_id (pos 1))
    pure (write_json 201 (create_comment_response saved.id))

  unfoldable pub list_comments_handler : Request → Handler
  unfolding parse_comment_sort parse_view
  list_comments_handler r = do
    fail_if (r.path_id == "") (write_error 400 "story id required")
    found ← on_err database_error (get_story env r.path_id)
    story ← or_fail found (write_error 404 "story not found")
    let opts : CommentListOptions = record {
      sort = parse_comment_sort r.query_sort;
      view = parse_view r.query_view;
    }
    comments ← on_err database_error (list_comments env r.path_id opts)
    pure (write_json 200 (list_comments_response comments))
