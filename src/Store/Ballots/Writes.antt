-- ===== src/Store/Ballots/Writes.antt =====
-- Writes to the stories and the comments leave the votes alone.
use slashclaw.Prelude.{◌≡◌, String, ℤ, arith}
use slashclaw.Env.{Env}
use slashclaw.Exec.{Result, ok}
use slashclaw.Exec.Keeps.{Keeps, keeps_rules}
use slashclaw.Store.Rows.{StoryRow, CommentRow, Db}
use slashclaw.Store.Models.{Story, Comment}
use slashclaw.Store.Sql.{Error, execute}
use slashclaw.Store.Keeps.{Keeps-execute}
use slashclaw.Store.Frames.{OfContent}
use slashclaw.Store.Stories.{
  insert_story, create_story, update_story_score, update_story_comment_count, hide_story,
}
use slashclaw.Store.Comments.{insert_comment, create_comment, update_comment_score, hide_comment}
use slashclaw.Store.Ballots.{OneVote}

-- A property of the votes.
pub record OfVotes (Q : Db → Type 0) : Type 0 where
  pub carry : (db db' : Db) → db'.votes ≡ db.votes → Q db → Q db'

abbrev pub One : Db → Type 0
One db = OneVote db.votes

pub One-OfVotes : OfVotes One
One-OfVotes = record { carry = λ db db' s h. rw s h }

pub OfVotes-OfContent : {Q : Db → Type 0} → OfVotes Q → OfContent Q
OfVotes-OfContent a = record { carry = λ db db' s h. a.carry db db' s.votes h }

insert_story-votes :
    (row : StoryRow) (db db' : Db) → insert_story row db ≡ ok db' → db'.votes ≡ db.votes
unfolding insert_story
insert_story-votes row db db' e = ground arith

insert_comment-votes :
    (row : CommentRow) (db db' : Db) → insert_comment row db ≡ ok db' → db'.votes ≡ db.votes
unfolding insert_comment
insert_comment-votes row db db' e = ground arith

module _ (env : Env) {Q : Db → Type 0} (a : OfVotes Q) where
  other_write :
      (f : Db → Result Error Db)
      → ((db db' : Db) → f db ≡ ok db' → db'.votes ≡ db.votes)
      → Keeps Q (execute env f)
  other_write f same = Keeps-execute env f (λ db db' h e. a.carry db db' (same db db' e) h)

  pub create_story-Keeps : (x : Story) → Keeps Q (create_story env x)
  unfolding create_story
  create_story-Keeps x = search (keeps_rules, other_write, insert_story-votes)

  pub update_story_score-Keeps : (id : String) (d : ℤ) → Keeps Q (update_story_score env id d)
  unfolding update_story_score
  update_story_score-Keeps id d = other_write _ (λ db db' e. ground arith)

  pub update_story_comment_count-Keeps :
      (id : String) (d : ℤ) → Keeps Q (update_story_comment_count env id d)
  unfolding update_story_comment_count
  update_story_comment_count-Keeps id d = other_write _ (λ db db' e. ground arith)

  pub hide_story-Keeps : (id : String) → Keeps Q (hide_story env id)
  unfolding hide_story
  hide_story-Keeps id = other_write _ (λ db db' e. ground arith)

  pub create_comment-Keeps : (x : Comment) → Keeps Q (create_comment env x)
  unfolding create_comment
  create_comment-Keeps x = search (keeps_rules, other_write, insert_comment-votes)

  pub update_comment_score-Keeps : (id : String) (d : ℤ) → Keeps Q (update_comment_score env id d)
  unfolding update_comment_score
  update_comment_score-Keeps id d = other_write _ (λ db db' e. ground arith)

  pub hide_comment-Keeps : (id : String) → Keeps Q (hide_comment env id)
  unfolding hide_comment
  hide_comment-Keeps id = other_write _ (λ db db' e. ground arith)

-- The writes that are not to the votes.
pub ruleset unvoted_writes = (
  create_story-Keeps, update_story_score-Keeps, update_story_comment_count-Keeps, hide_story-Keeps,
  create_comment-Keeps, update_comment_score-Keeps, hide_comment-Keeps,
)
