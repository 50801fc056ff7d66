-- ===== src/Server/Counted.antt =====
-- Over any run of the server the comment counts and the references of comments are right.
use slashclaw.Prelude.{String, Option, some, none, List, ◌≡◌, refl, ℤ, pos, subst}
use slashclaw.Env.{Env}
use slashclaw.Env.Laws.{IsUp}
use slashclaw.Exec.{World}
use slashclaw.Exec.Keeps.{Keeps, keeps_rules}
use slashclaw.Config.{Config}
use slashclaw.Store.Models.{Story, Vote}
use slashclaw.Store.Rows.{StoryRow, VoteRow}
use slashclaw.Store.Stories.{
  has_id, story_row, insert_story, create_story as store_story, update_story_score, hide_story,
}
use slashclaw.Store.Comments.{is_comment, update_comment_score, hide_comment}
use slashclaw.Store.Votes.{insert_vote, create_vote as store_vote, update_vote}
use slashclaw.Store.Sql.{execute}
use slashclaw.Store.Keeps.{Keeps-execute, read_rules}
use slashclaw.Store.Triples.{inserted, ok_injective}
use slashclaw.Store.Frames.{OfContent}
use slashclaw.Store.Counted.{
  Counted, add_story-IsCounted, change_stories-IsCounted, change_comments-IsCounted,
}
use slashclaw.Api.Http.{Request}
use slashclaw.Api.Keeps.{
  check_rate_limit-Keeps, check_url-Keeps, check_cooldown-Keeps, check_target-Keeps,
}
use slashclaw.Api.Stories.{CreateStoryRequest, create_story}
use slashclaw.Api.Votes.{
  CreateVoteRequest, add_score, change_vote, add_vote, cast_vote, create_vote,
}
use slashclaw.Api.Admin.{HideRequest, hide_visible_story, hide_visible_comment, hide}
use slashclaw.Api.Replying.{create_comment-Counted}
use slashclaw.Server.{Event, run}
use slashclaw.Server.Invariants.{content_run}

Counted-OfContent : OfContent Counted
Counted-OfContent = record { carry = λ db db' s h. rw (s.stories, s.comments) h }

module _ (env : Env) where
  insert_story-Counted :
      (row : StoryRow) → row.comment_count ≡ pos 0 → Keeps Counted (execute env (insert_story row))
  unfolding insert_story
  insert_story-Counted row z = Keeps-execute env _ λ db db' h e.
      let (new, same) = inserted _ _ _ db' e in subst Counted same (add_story-IsCounted h row new z)

  store_story-Counted : (x : Story) → x.comment_count ≡ pos 0 → Keeps Counted (store_story env x)
  unfolding store_story story_row
  store_story-Counted x z = search (keeps_rules, insert_story-Counted _ z)

  story_score-Counted : (id : String) (d : ℤ) → Keeps Counted (update_story_score env id d)
  unfolding update_story_score
  story_score-Counted id d = Keeps-execute env _ λ db db' h e.
      subst Counted (ok_injective e)
        (change_stories-IsCounted h (has_id id) _ (λ s. refl) (λ s. refl))

  comment_score-Counted : (id : String) (d : ℤ) → Keeps Counted (update_comment_score env id d)
  unfolding update_comment_score
  comment_score-Counted id d = Keeps-execute env _ λ db db' h e.
      subst Counted (ok_injective e)
        (change_comments-IsCounted h (is_comment id) _ (λ c. refl) (λ c. refl) (λ c. refl))

  hide_story-Counted : (id : String) → Keeps Counted (hide_story env id)
  unfolding hide_story
  hide_story-Counted id = Keeps-execute env _ λ db db' h e.
      subst Counted (ok_injective e)
        (change_stories-IsCounted h (has_id id) _ (λ s. refl) (λ s. refl))

  hide_comment-Counted : (id : String) → Keeps Counted (hide_comment env id)
  unfolding hide_comment
  hide_comment-Counted id = Keeps-execute env _ λ db db' h e.
      subst Counted (ok_injective e)
        (change_comments-IsCounted h (is_comment id) _ (λ c. refl) (λ c. refl) (λ c. refl))

  insert_vote-Counted : (row : VoteRow) → Keeps Counted (execute env (insert_vote row))
  unfolding insert_vote
  insert_vote-Counted row =
      Keeps-execute env _
        λ db db' h e. let (new, same) = inserted _ _ _ db' e in subst Counted same h

  store_vote-Counted : (v : Vote) → Keeps Counted (store_vote env v)
  unfolding store_vote
  store_vote-Counted v = search (keeps_rules, insert_vote-Counted)

  update_vote-Counted : (id : String) (x : ℤ) → Keeps Counted (update_vote env id x)
  unfolding update_vote
  update_vote-Counted id x = Keeps-execute env _ λ db db' h e. subst Counted (ok_injective e) h

module _ (env : Env) (cfg : Config) where
  create_story-Counted :
      (r : Request) (body : Option CreateStoryRequest) → Keeps Counted (create_story env cfg r body)
  unfolding create_story
  create_story-Counted r body =
      search
        (
          keeps_rules, check_rate_limit-Keeps, check_url-Keeps, check_cooldown-Keeps,
          store_story-Counted,
        )
        depth 12

  add_score-Counted : (req : CreateVoteRequest) (d : ℤ) → Keeps Counted (add_score env cfg req d)
  unfolding add_score
  add_score-Counted req d = search (keeps_rules, story_score-Counted, comment_score-Counted)

  cast_vote-Counted :
      (r : Request) (req : CreateVoteRequest) (o : Option Vote)
      → Keeps Counted (cast_vote env cfg r req o)
  unfolding cast_vote change_vote add_vote
  cast_vote-Counted r req none = search (keeps_rules, store_vote-Counted, add_score-Counted) depth 8
  cast_vote-Counted r req (some v) =
      search (keeps_rules, update_vote-Counted, add_score-Counted) depth 8

  create_vote-Counted :
      (r : Request) (body : Option CreateVoteRequest) → Keeps Counted (create_vote env cfg r body)
  unfolding create_vote
  create_vote-Counted r body =
      search (read_rules, check_rate_limit-Keeps, check_target-Keeps, cast_vote-Counted) depth 12

  hide-Counted : (r : Request) (body : Option HideRequest) → Keeps Counted (hide env cfg r body)
  unfolding hide hide_visible_story hide_visible_comment
  hide-Counted r body = search (read_rules, hide_story-Counted, hide_comment-Counted) depth 12

-- If no call of the database fails and it holds at the start, it holds after any list of requests:
-- the comment count of each story is the number of its comments, hidden ones included, each comment
-- is on a stored story, and the parent of each reply is a comment on the same story that was stored
-- before it, and no two comments have the same id.
pub run-Counted :
    (env : Env) (cfg : Config) (events : List Event) (w : World)
    → IsUp env
    → Counted w.db
    → Counted (run env cfg events w).db
run-Counted env cfg events w up h =
    content_run env cfg
      (record {
        of_content = Counted-OfContent;
        story = create_story-Counted env cfg;
        comment = create_comment-Counted env cfg up;
        vote = create_vote-Counted env cfg;
        hidden = hide-Counted env cfg;
      })
      events w h
