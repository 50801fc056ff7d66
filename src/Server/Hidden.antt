-- ===== src/Server/Hidden.antt =====
-- Hidden content stays hidden over any run of the server.
use slashclaw.Prelude.{String, List, refl, ℤ, subst}
use slashclaw.Env.{Env}
use slashclaw.Exec.{World}
use slashclaw.Exec.Keeps.{Keeps, keeps_rules}
use slashclaw.Config.{Config}
use slashclaw.Store.Models.{Story, Comment, Vote}
use slashclaw.Store.Rows.{StoryRow, CommentRow, VoteRow, Db}
use slashclaw.Store.Stories.{
  has_id, insert_story, create_story, update_story_score, update_story_comment_count, hide_story,
}
use slashclaw.Store.Comments.{
  is_comment, insert_comment, create_comment, update_comment_score, hide_comment,
}
use slashclaw.Store.Votes.{insert_vote, create_vote, update_vote}
use slashclaw.Store.Sql.{execute}
use slashclaw.Store.Keeps.{Keeps-execute}
use slashclaw.Store.Triples.{inserted, or-eq_false, ok_injective}
use slashclaw.Store.Frames.{OfContent, ContentWrites}
use slashclaw.Store.Hidden.{
  HiddenStory, HiddenComment, add_story-IsHiddenStory, add_comment-IsHiddenComment,
  change_stories-IsHiddenStory, change_comments-IsHiddenComment, hide-IsHiddenStory,
  hide-IsHiddenComment,
}
use slashclaw.Server.{Event, run}
use slashclaw.Server.Invariants.{writes_run}

-- Both properties at once, each at its own identifier and on its own condition.
abbrev Hidden : Type 0 → Type 0 → String → String → Db → Type 0
Hidden A B story comment db = (A → HiddenStory story db) × (B → HiddenComment comment db)

module _ (env : Env) (A B : Type 0) (id other : String) where
  Hidden-OfContent : OfContent (Hidden A B id other)
  Hidden-OfContent = record { carry = λ db db' s h. rw (s.stories, s.comments) h }

  insert_story-Hidden :
      (row : StoryRow) → Keeps (Hidden A B id other) (execute env (insert_story row))
  unfolding insert_story
  insert_story-Hidden row = Keeps-execute env _ λ db db' h e.
      let (new, same) = inserted _ _ _ db' e in
      subst (Hidden A B id other) same
        (λ a. add_story-IsHiddenStory id db.stories row new (h.0 a), h.1)

  insert_comment-Hidden :
      (row : CommentRow) → Keeps (Hidden A B id other) (execute env (insert_comment row))
  unfolding insert_comment
  insert_comment-Hidden row = Keeps-execute env _ λ db db' h e.
      let (test, same) = inserted _ _ _ db' e in
      subst (Hidden A B id other) same (
        h.0,
        λ b. add_comment-IsHiddenComment other db.comments row (or-eq_false _ _ test).0 (h.1 b),
      )

  insert_vote-Hidden : (row : VoteRow) → Keeps (Hidden A B id other) (execute env (insert_vote row))
  unfolding insert_vote
  insert_vote-Hidden row =
      Keeps-execute env _
        λ db db' h e. let (test, same) = inserted _ _ _ db' e in subst (Hidden A B id other) same h

  create_story-Hidden : (x : Story) → Keeps (Hidden A B id other) (create_story env x)
  unfolding create_story
  create_story-Hidden x = search (keeps_rules, insert_story-Hidden)

  create_comment-Hidden : (x : Comment) → Keeps (Hidden A B id other) (create_comment env x)
  unfolding create_comment
  create_comment-Hidden x = search (keeps_rules, insert_comment-Hidden)

  create_vote-Hidden : (v : Vote) → Keeps (Hidden A B id other) (create_vote env v)
  unfolding create_vote
  create_vote-Hidden v = search (keeps_rules, insert_vote-Hidden)

  story_score-Hidden :
      (i : String) (d : ℤ) → Keeps (Hidden A B id other) (update_story_score env i d)
  unfolding update_story_score
  story_score-Hidden i d = Keeps-execute env _ λ db db' h e.
      subst (Hidden A B id other) (ok_injective e) (
        λ a.
            change_stories-IsHiddenStory id (has_id i) _ db.stories (λ s. refl) (λ s. refl) (h.0 a),
        h.1,
      )

  comment_count-Hidden :
      (i : String) (d : ℤ) → Keeps (Hidden A B id other) (update_story_comment_count env i d)
  unfolding update_story_comment_count
  comment_count-Hidden i d = Keeps-execute env _ λ db db' h e.
      subst (Hidden A B id other) (ok_injective e) (
        λ a.
            change_stories-IsHiddenStory id (has_id i) _ db.stories (λ s. refl) (λ s. refl) (h.0 a),
        h.1,
      )

  comment_score-Hidden :
      (i : String) (d : ℤ) → Keeps (Hidden A B id other) (update_comment_score env i d)
  unfolding update_comment_score
  comment_score-Hidden i d = Keeps-execute env _ λ db db' h e.
      subst (Hidden A B id other) (ok_injective e) (
        h.0,
        λ b.
            change_comments-IsHiddenComment other (is_comment i) _ db.comments (λ c. refl)
              (λ c. refl) (h.1 b),
      )

  hide_story-Hidden : (i : String) → Keeps (Hidden A B id other) (hide_story env i)
  unfolding hide_story
  hide_story-Hidden i = Keeps-execute env _ λ db db' h e.
      subst (Hidden A B id other) (ok_injective e)
        (λ a. hide-IsHiddenStory id i db.stories (h.0 a), h.1)

  hide_comment-Hidden : (i : String) → Keeps (Hidden A B id other) (hide_comment env i)
  unfolding hide_comment
  hide_comment-Hidden i = Keeps-execute env _ λ db db' h e.
      subst (Hidden A B id other) (ok_injective e)
        (h.0, λ b. hide-IsHiddenComment other i db.comments (h.1 b))

  update_vote-Hidden : (i : String) (x : ℤ) → Keeps (Hidden A B id other) (update_vote env i x)
  unfolding update_vote
  update_vote-Hidden i x =
      Keeps-execute env _ λ db db' h e. subst (Hidden A B id other) (ok_injective e) h

  Hidden-ContentWrites : ContentWrites env (Hidden A B id other)
  Hidden-ContentWrites = record {
    story = create_story-Hidden;
    story_score = story_score-Hidden;
    comment_count = comment_count-Hidden;
    hidden_story = hide_story-Hidden;
    comment = create_comment-Hidden;
    comment_score = comment_score-Hidden;
    hidden_comment = hide_comment-Hidden;
    vote = create_vote-Hidden;
    changed_vote = update_vote-Hidden;
  }

module _ (env : Env) (cfg : Config) (events : List Event) (w : World) where
  run-Hidden_if :
      (A B : Type 0) (story comment : String)
      → Hidden A B story comment w.db
      → Hidden A B story comment (run env cfg events w).db
  run-Hidden_if A B story comment h =
      writes_run env cfg (Hidden-OfContent env A B story comment)
        (Hidden-ContentWrites env A B story comment) events w h

  pub run-HiddenStory :
      (id : String) → HiddenStory id w.db → HiddenStory id (run env cfg events w).db
  run-HiddenStory id h = (run-Hidden_if Unit ⊥ id "" (λ _. h, λ no. absurd no)).0 tt

-- What is hidden stays hidden: over any run of the server, whatever the requests and whichever
-- calls of the database fail, a story that is stored and not visible, and a comment that is stored
-- and not visible, stay stored and not visible.
pub run-Hidden :
    (env : Env) (cfg : Config) (events : List Event) (w : World) (story comment : String)
    → HiddenStory story w.db × HiddenComment comment w.db
    → HiddenStory story (run env cfg events w).db × HiddenComment comment (run env cfg events w).db
run-Hidden env cfg events w story comment h =
    let kept = run-Hidden_if env cfg events w Unit Unit story comment (λ _. h.0, λ _. h.1) in
    (kept.0 tt, kept.1 tt)
