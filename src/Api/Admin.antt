-- ===== src/Api/Admin.antt =====
-- internal/api/admin.go
use slashclaw.Prelude.{String, not, ◌&&◌, Option, ◌==◌, if◌then◌else◌}
use slashclaw.Env.{Env}
use slashclaw.Exec.{Exec, pure, or_fail, fail_if, on_err, ◌>>=◌, ◌>>◌}
use slashclaw.Config.{Config}
use slashclaw.Store.Stories.{get_story, hide_story}
use slashclaw.Store.Comments.{get_comment, hide_comment}
use slashclaw.Api.Http.{
  Request, Response, Handler, ok_response, write_json, write_error, database_error, is_admin,
}

pub record HideRequest : Type 0 where
  pub target_type : String
  pub target_id : String

module _ (env : Env) (cfg : Config) where
  unfoldable pub hide_visible_story : String → Exec Response Unit
  hide_visible_story target = do
    found ← on_err database_error (get_story env target)
    story ← or_fail found (write_error 404 "story not found")
    on_err (λ e. write_error 500 "failed to hide content") (hide_story env target)

  unfoldable pub hide_visible_comment : String → Exec Response Unit
  hide_visible_comment target = do
    found ← on_err database_error (get_comment env target)
    comment ← or_fail found (write_error 404 "comment not found")
    on_err (λ e. write_error 500 "failed to hide content") (hide_comment env target)

  unfoldable pub hide : Request → Option HideRequest → Handler
  unfolding is_admin hide_visible_story hide_visible_comment
  hide r body = do
    fail_if (not (is_admin cfg r)) (write_error 401 "admin authentication required")
    req ← or_fail body (write_error 400 "invalid JSON")
    fail_if (not (req.target_type == "story") && not (req.target_type == "comment"))
        (write_error 400 "target_type must be 'story' or 'comment'")
    fail_if (req.target_id == "") (write_error 400 "target_id is required")
    if req.target_type == "story"
        then hide_visible_story req.target_id
        else hide_visible_comment req.target_id
    pure (write_json 200 ok_response)
