-- ===== src/Tests/Content.antt =====
-- Stories, comments and moderation on the test data.
use slashclaw.Prelude.{
  ◌≤◌, String, List, [], ◌∷◌, Option, some, none, true, false, pos, ◌≡◌, refl, map, not, ◌==◌, ◌-ℤ◌,
}
use slashclaw.Exec.{World, ok, ◌>>=◌}
use slashclaw.Exec.Triple.{Triple}
use slashclaw.Store.Models.{Story, ListOptions, new}
use slashclaw.Store.Rows.{StoryRow, Db}
use slashclaw.Store.Stories.{clamp_limit, list_stories}
use slashclaw.Store.Counted.{Counted, comments_on}
use slashclaw.Store.Hidden.{HiddenStory, HiddenComment}
use slashclaw.Store.Listing.{IsPage, list_stories-IsPage}
use slashclaw.Api.Http.{is_admin, context_agent}
use slashclaw.Api.Stories.{CreateStoryRequest, has_url, bad_title, create_story}
use slashclaw.Api.Links.{NewLink, Rested}
use slashclaw.Api.Original.{pause_reading, create_story-Original}
use slashclaw.Exec.Clocked.{TripleW}
use slashclaw.Api.Posting.{IsPost, Posted, create_story-Posted}
use slashclaw.Api.Admin.{HideRequest, hide}
use slashclaw.Api.Hiding.{Hides, hide-Hides}
use slashclaw.Server.{Event, request, post_comment, run}
use slashclaw.Server.Counted.{run-Counted}
use slashclaw.Server.Hidden.{run-Hidden}
use slashclaw.Store.Top.{IsTop, list_stories-IsTop}
use slashclaw.Api.Comments.{CreateCommentRequest, create_comment}
use slashclaw.Store.Models.{ListOptions, new}
use slashclaw.Store.Stories.{
  create_story as store_story, find_story_by_url, get_last_story_by_agent, list_stories,
}
use slashclaw.Api.Http.{
  Request, write_error, write_json, no_context, create_story_response, database_error,
}
use slashclaw.Api.Stories.{get_story_handler}
use slashclaw.Api.Comments.{list_comments_handler}
use slashclaw.Web.{not_found, server_error, story_page}
use slashclaw.Server.Gone.{Fails, Without, hidden_gone}
use slashclaw.Api.Commenting.{IsReply, Replied, create_comment-Replied}
use slashclaw.Tests.Setup.{
  test_env, test_config, test-IsUp, test-OrdersStories, plain, story_of, start,
}

abbrev article : CreateStoryRequest
article = record { title = "A new story"; url = ""; text = "text"; tags = [] }

create_story-Posted_example :
    Triple
      (λ d. d ≡ start.db)
      (create_story test_env test_config plain (some article))
      (λ answer d.
        (req : CreateStoryRequest) × (◌≡◌ {A = Option CreateStoryRequest} (some article) (some req))
        × IsPost req
        × Posted test_env plain req start.db answer d)
      (λ _ d. d ≡ start.db)
create_story-Posted_example =
    create_story-Posted test_env test_config start.db plain (some article) test-IsUp

-- An old story by "ann" with a link, the same link again, and the same agent.
abbrev with_link : Db
with_link = record start.db {
  stories = record (story_of "s1" "ann") { url = some "https://example.com/a"; text = none } ∷ [];
}

abbrev link_again : CreateStoryRequest
link_again = record { title = "A new story"; url = "https://example.com/a"; text = ""; tags = [] }

abbrev by_ann : Request
by_ann = record plain { context = record no_context { agent_id = some "ann" } }

-- The handler reaches its end on them.
link_again_created :
    (create_story test_env test_config by_ann (some link_again) (record start { db = with_link })).0
    ≡ ok (write_json 201 (create_story_response "iiiiiid" false))
unfolding create_story ◌>>=◌ bad_title find_story_by_url ◌-ℤ◌ get_last_story_by_agent store_story
link_again_created = refl

create_story-Original_example :
    TripleW
      (λ w. (w.db ≡ with_link) × (w.step ≡ 0))
      (create_story test_env test_config by_ann (some link_again))
      (λ _ _.
        (req : CreateStoryRequest) × (◌≡◌ {A = Option CreateStoryRequest}
          (some link_again)
          (some req))
        × (has_url req ≡ true → NewLink test_env test_config req.url (test_env.now 1) with_link)
        × (not (context_agent by_ann == "") ≡ true
            → Rested test_config
                (context_agent by_ann)
                (test_env.now (pause_reading (has_url req) 0))
                with_link))
      (λ _ d. d ≡ with_link)
create_story-Original_example =
    create_story-Original test_env test_config with_link 0 by_ann (some link_again) test-IsUp
      test-OrdersStories

abbrev remark : CreateCommentRequest
remark = record { story_id = "s1"; parent_id = ""; text = "a remark" }

create_comment-Replied_example :
    Triple
      (λ d. d ≡ start.db)
      (create_comment test_env test_config plain (some remark))
      (λ answer d.
        (req : CreateCommentRequest) × (◌≡◌ {A = Option CreateCommentRequest}
          (some remark)
          (some req))
        × IsReply req start.db
        × Replied plain req start.db answer d)
      (λ _ d. d ≡ start.db)
create_comment-Replied_example =
    create_comment-Replied test_env test_config start.db plain (some remark) test-IsUp

abbrev hide_s1 : HideRequest
hide_s1 = record { target_type = "story"; target_id = "s1" }

hide-Hides_example :
    Triple
      (λ d. d ≡ start.db)
      (hide test_env test_config plain (some hide_s1))
      (λ _ d.
        (req : HideRequest) × (◌≡◌ {A = Option HideRequest} (some hide_s1) (some req))
        × (is_admin test_config plain ≡ true)
        × Hides req start.db d)
      (λ _ d. d ≡ start.db)
hide-Hides_example = hide-Hides test_env test_config start.db plain (some hide_s1) test-IsUp

abbrev newest : ListOptions
newest = record { sort = new; limit = pos 5; cursor = "" }

list_stories-IsPage_example :
    (stories : List Story) × (cursor : String) × ((list_stories test_env newest start).0
      ≡ ok (stories, cursor))
    × (1 ≤ clamp_limit (pos 5))
    × (clamp_limit (pos 5) ≤ 100)
    × IsPage test_env (clamp_limit (pos 5)) start.db stories cursor
list_stories-IsPage_example = list_stories-IsPage test_env newest start test-IsUp test-OrdersStories

list_stories-IsTop_example :
    (stories : List Story) × (cursor : String) × ((list_stories test_env newest start).0
      ≡ ok (stories, cursor))
    × IsTop test_env (clamp_limit (pos 5)) new (test_env.now 0) start.db stories
list_stories-IsTop_example = list_stories-IsTop test_env newest start test-IsUp test-OrdersStories

abbrev comment_events : List Event
comment_events =
    request plain (post_comment (some (record { story_id = "s1"; parent_id = ""; text = "hello" })))
    ∷ request plain (post_comment (some (record { story_id = "s1"; parent_id = "x"; text = "no" })))
    ∷ []

run-Counted_example : Counted (run test_env test_config comment_events start).db
unfolding comments_on
run-Counted_example =
    run-Counted test_env test_config comment_events start test-IsUp
      (record { counts = (refl, tt); on_stories = tt; replies = tt; ids = tt; parents_first = tt })

-- The data with a hidden story and a hidden comment.
abbrev moderated : World
moderated = record start {
  db = record start.db {
    stories = map {A = StoryRow} (λ s. record s { hidden = 1 }) start.db.stories;
    comments =
        record {
          id = "c1";
          story_id = "s1";
          parent_id = none;
          text = "text";
          score = pos 0;
          created_at = pos 1600000000000000000;
          hidden = 1;
          agent_id = some "bob";
          agent_verified = 1;
        }
        ∷ [];
  };
}

run-Hidden_example :
    HiddenStory "s1" (run test_env test_config comment_events moderated).db
    × HiddenComment "c1" (run test_env test_config comment_events moderated).db
run-Hidden_example =
    run-Hidden test_env test_config comment_events moderated "s1" "c1"
      (record { is_stored = refl; is_unseen = refl }, record { is_stored = refl; is_unseen = refl })

abbrev about_s1 : Request
about_s1 = record plain { method = "GET"; path_id = "s1" }

hidden_gone_example :
    Fails
      (write_error 404 "story not found")
      database_error
      (get_story_handler test_env test_config about_s1
        (run test_env test_config comment_events moderated)).0
    × Fails
        (write_error 404 "story not found")
        database_error
        (list_comments_handler test_env test_config about_s1
          (run test_env test_config comment_events moderated)).0
    × Fails not_found server_error
        (story_page test_env test_config about_s1
          (run test_env test_config comment_events moderated)).0
    × Without "s1"
        (list_stories test_env newest (run test_env test_config comment_events moderated)).0
hidden_gone_example =
    hidden_gone test_env test_config comment_events moderated about_s1 newest test-OrdersStories
      refl (record { is_stored = refl; is_unseen = refl })
