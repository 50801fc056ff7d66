-- ===== src/Server/Tally.antt =====
-- Over any run of the server every score is the sum of the votes.
use slashclaw.Prelude.{String, Option, List, ◌≡◌, refl, ℤ, pos, subst}
use slashclaw.Env.{Env}
use slashclaw.Env.Laws.{IsUp, ScansVotes}
use slashclaw.Exec.{World}
use slashclaw.Exec.Keeps.{Keeps, keeps_rules}
use slashclaw.Config.{Config}
use slashclaw.Store.Models.{Story, Comment}
use slashclaw.Store.Rows.{StoryRow, CommentRow}
use slashclaw.Store.Stories.{
  has_id, story_row, insert_story, create_story as store_story, update_story_comment_count,
  hide_story,
}
use slashclaw.Store.Comments.{
  is_comment, comment_row, insert_comment, create_comment as store_comment, hide_comment,
}
use slashclaw.Store.Sql.{execute}
use slashclaw.Store.Keeps.{Keeps-execute, read_rules}
use slashclaw.Store.Triples.{inserted, or-eq_false, ok_injective}
use slashclaw.Store.Frames.{OfContent}
use slashclaw.Store.Tally.{Tallied}
use slashclaw.Store.Tally.Writes.{
  insert_story-IsTallied, insert_comment-IsTallied, update_stories-IsTallied,
  update_comments-IsTallied,
}
use slashclaw.Api.Http.{Request}
use slashclaw.Api.Keeps.{
  check_rate_limit-Keeps, check_url-Keeps, check_cooldown-Keeps, check_parent-Keeps,
}
use slashclaw.Api.Stories.{CreateStoryRequest, create_story}
use slashclaw.Api.Comments.{CreateCommentRequest, create_comment}
use slashclaw.Api.Admin.{HideRequest, hide_visible_story, hide_visible_comment, hide}
use slashclaw.Api.Votes.Tally.{create_vote-Tallied}
use slashclaw.Server.{Event, run}
use slashclaw.Server.Invariants.{content_run}

Tallied-OfContent : OfContent Tallied
Tallied-OfContent = record { carry = λ db db' s h. rw (s.stories, s.comments, s.votes) h }

module _ (env : Env) where
  insert_story-Tallied :
      (row : StoryRow) → row.score ≡ pos 0 → Keeps Tallied (execute env (insert_story row))
  unfolding insert_story
  insert_story-Tallied row z = Keeps-execute env _ λ db db' h e.
      let (new, same) = inserted _ _ _ db' e in
      subst Tallied same (insert_story-IsTallied h row new z)

  insert_comment-Tallied :
      (row : CommentRow) → row.score ≡ pos 0 → Keeps Tallied (execute env (insert_comment row))
  unfolding insert_comment
  insert_comment-Tallied row z = Keeps-execute env _ λ db db' h e.
      let (test, same) = inserted _ _ _ db' e in
      subst Tallied same (insert_comment-IsTallied h row (or-eq_false _ _ test).0 z)

  store_story-Tallied : (x : Story) → x.score ≡ pos 0 → Keeps Tallied (store_story env x)
  unfolding store_story story_row
  store_story-Tallied x z = search (keeps_rules, insert_story-Tallied _ z)

  store_comment-Tallied : (x : Comment) → x.score ≡ pos 0 → Keeps Tallied (store_comment env x)
  unfolding store_comment comment_row
  store_comment-Tallied x z = search (keeps_rules, insert_comment-Tallied _ z)

  comment_count-Tallied :
      (id : String) (d : ℤ) → Keeps Tallied (update_story_comment_count env id d)
  unfolding update_story_comment_count
  comment_count-Tallied id d = Keeps-execute env _ λ db db' h e.
      subst Tallied (ok_injective e)
        (update_stories-IsTallied h (has_id id) _ (λ s. refl) (λ s. refl))

  hide_story-Tallied : (id : String) → Keeps Tallied (hide_story env id)
  unfolding hide_story
  hide_story-Tallied id = Keeps-execute env _ λ db db' h e.
      subst Tallied (ok_injective e)
        (update_stories-IsTallied h (has_id id) _ (λ s. refl) (λ s. refl))

  hide_comment-Tallied : (id : String) → Keeps Tallied (hide_comment env id)
  unfolding hide_comment
  hide_comment-Tallied id = Keeps-execute env _ λ db db' h e.
      subst Tallied (ok_injective e)
        (update_comments-IsTallied h (is_comment id) _ (λ s. refl) (λ s. refl))

module _ (env : Env) (cfg : Config) where
  create_story-Tallied :
      (r : Request) (body : Option CreateStoryRequest) → Keeps Tallied (create_story env cfg r body)
  unfolding create_story
  create_story-Tallied r body =
      search
        (
          keeps_rules, check_rate_limit-Keeps, check_url-Keeps, check_cooldown-Keeps,
          store_story-Tallied,
        )
        depth 12

  create_comment-Tallied :
      (r : Request) (body : Option CreateCommentRequest)
      → Keeps Tallied (create_comment env cfg r body)
  unfolding create_comment
  create_comment-Tallied r body =
      search
        (
          read_rules, check_rate_limit-Keeps, check_parent-Keeps, store_comment-Tallied,
          comment_count-Tallied,
        )
        depth 12

  hide-Tallied : (r : Request) (body : Option HideRequest) → Keeps Tallied (hide env cfg r body)
  unfolding hide hide_visible_story hide_visible_comment
  hide-Tallied r body = search (read_rules, hide_story-Tallied, hide_comment-Tallied) depth 12

-- From a state in which each score of a story or comment is the sum of the votes on it, the votes
-- are on stored stories and comments, and no two votes have the same identifier: if no call of the
-- database fails and queries for votes find the stored ones, this holds again after any list of
-- requests.
pub run-Tallied :
    (env : Env) (cfg : Config) (events : List Event) (w : World)
    → IsUp env
    → ScansVotes env
    → Tallied w.db
    → Tallied (run env cfg events w).db
run-Tallied env cfg events w up scans h =
    content_run env cfg
      (record {
        of_content = Tallied-OfContent;
        story = create_story-Tallied env cfg;
        comment = create_comment-Tallied env cfg;
        vote = create_vote-Tallied env cfg up scans;
        hidden = hide-Tallied env cfg;
      })
      events w h
