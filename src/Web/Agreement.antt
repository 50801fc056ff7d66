-- ===== src/Web/Agreement.antt =====
-- The pages and the JSON interface show the same content.
use slashclaw.Prelude.{String, Option, some, none, List, if◌then◌else◌}
use slashclaw.Env.{Env}
use slashclaw.Exec.{Result, ok, err, pure, Exec, or_fail, on_err, ◌>>=◌}
use slashclaw.Config.{Config}
use slashclaw.Store.Models.{Story, CommentListOptions, top, tree}
use slashclaw.Store.Tree.{CommentList}
use slashclaw.Store.Sql.{Error}
use slashclaw.Api.Http.{Request}
use slashclaw.Web.{Page, server_error, not_found, wants_json, story_json, story_html}

listed : Result Error (List Story × String) → Option (List Story)
listed (ok found) = some found.0
listed (err e) = none

-- What the two calls of the store give a page.
thread : Result Error (Option Story) → Result Error CommentList → Option (Story × CommentList)
thread (ok (some story)) (ok comments) = some (story, comments)
thread (ok (some story)) (err e) = none
thread (ok none) o = none
thread (err e) o = none

story_of : Option (Story × CommentList) → Option Story
story_of none = none
story_of (some shown) = some shown.0

comments_of : Option (Story × CommentList) → Option CommentList
comments_of none = none
comments_of (some shown) = some shown.1

abbrev rest_of_page : Request → String → Exec Error CommentList → Option Story → Exec Page Page
rest_of_page r base m found = or_fail found not_found >>= λ story.
    on_err server_error m >>= λ comments.
    pure (if wants_json r then story_json story comments else story_html story comments base)

abbrev top_thread : CommentListOptions
top_thread = record { sort = top; view = tree }
