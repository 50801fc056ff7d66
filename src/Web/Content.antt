-- ===== src/Web/Content.antt =====
-- What a page and an answer of the JSON interface show, whatever the format and the rest of it.
use slashclaw.Prelude.{Option, some, none, List}
use slashclaw.Exec.{Result, ok}
use slashclaw.Store.Models.{Story}
use slashclaw.Store.Tree.{CommentList}
use slashclaw.Api.Http.{Response, reply, list_stories_response, a_story, list_comments_response}
use slashclaw.Web.{Page, home_json, home_html, story_json, story_html}

-- What a page and an answer show, whatever the format and the rest of it.
unfoldable pub stories_on : Result Page Page → Option (List Story)
stories_on (ok (home_json stories sort)) = some stories
stories_on (ok (home_html stories sort base)) = some stories
stories_on _ = none

unfoldable pub story_on : Result Page Page → Option Story
story_on (ok (story_json story comments)) = some story
story_on (ok (story_html story comments base)) = some story
story_on _ = none

unfoldable pub comments_on : Result Page Page → Option CommentList
comments_on (ok (story_json story comments)) = some comments
comments_on (ok (story_html story comments base)) = some comments
comments_on _ = none

unfoldable pub stories_in : Result Response Response → Option (List Story)
stories_in (ok (reply status header (list_stories_response stories cursor))) = some stories
stories_in _ = none

unfoldable pub story_in : Result Response Response → Option Story
story_in (ok (reply status header (a_story story))) = some story
story_in _ = none

unfoldable pub comments_in : Result Response Response → Option CommentList
comments_in (ok (reply status header (list_comments_response comments))) = some comments
comments_in _ = none
