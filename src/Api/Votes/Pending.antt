-- ===== src/Api/Votes/Pending.antt =====
-- What is stored while the score has still to follow a vote.
use slashclaw.Prelude.{
  String, true, false, Option, some, none, List, [], ◌∷◌, ◌++◌, ◌≡◌, refl, ◌==◌, eq_iff, ℤ, ◌-ℤ◌,
  any, update, arith, IsIn, inl, inr, subst, ◌∙◌, ◌+ℤ◌, ◌⊎◌,
}
use slashclaw.Exec.{ok}
use slashclaw.Store.Models.{Vote}
use slashclaw.Store.Rows.{VoteRow, Db}
use slashclaw.Store.Triples.{inserted, or-eq_false}
use slashclaw.Store.Stories.{has_id}
use slashclaw.Store.Comments.{is_comment}
use slashclaw.Store.Votes.{scan_vote, is_vote, is_from, insert_vote}
use slashclaw.Store.Tally.{IsTallied, Tallied, set_value}
use slashclaw.Store.Tally.Casts.{
  add_story_vote-IsTallied, add_comment_vote-IsTallied, change_story_vote-IsTallied,
  change_comment_vote-IsTallied,
}
use slashclaw.Api.Votes.{CreateVoteRequest}
use slashclaw.Api.Votes.Target.{Target}

-- The score has still to follow a new vote.
pub record Pending (req : CreateVoteRequest) (db : Db) : Type 0 where
  pub before : List VoteRow
  pub row : VoteRow
  pub split : db.votes ≡ before ++ row ∷ []
  pub tallied : IsTallied db.stories db.comments before
  pub fresh : any (is_vote row.id) before ≡ false
  pub kind : row.target_type ≡ req.target_type
  pub target : row.target_id ≡ req.target_id
  pub value : row.value ≡ req.value
  pub found : Target req db

abbrev pub IsKind : CreateVoteRequest → Type 0
IsKind req = (req.target_type ≡ "story") ⊎ (req.target_type ≡ "comment")

pub insert_vote-Pending :
    (req : CreateVoteRequest) (row : VoteRow) (db db' : Db)
    → row.target_type ≡ req.target_type
    → row.target_id ≡ req.target_id
    → row.value ≡ req.value
    → Tallied db × Target req db
    → insert_vote row db ≡ ok db'
    → Pending req db'
unfolding insert_vote
insert_vote-Pending req row db db' k t v h e =
    let (test, same) = inserted _ _ _ db' e in
    subst (Pending req) same (record {
      before = db.votes;
      row = row;
      split = refl;
      tallied = h.0;
      fresh = (or-eq_false _ _ test).0;
      kind = k;
      target = t;
      value = v;
      found = record { story = h.1.story; comment = h.1.comment };
    })

-- The table still holds the value from before the change, in `row`.
pub record Changing (req : CreateVoteRequest) (old : ℤ) (db : Db) : Type 0 where
  pub before : List VoteRow
  pub row : VoteRow
  pub listed : IsIn row before
  pub tallied : IsTallied db.stories db.comments before
  pub split : db.votes ≡ update (is_vote row.id) (set_value req.value) before
  pub kind : row.target_type ≡ req.target_type
  pub target : row.target_id ≡ req.target_id
  pub value : row.value ≡ old

other_kind :
    (req : CreateVoteRequest)
    → (req.target_type == "story") ≡ false
    → IsKind req
    → req.target_type ≡ "comment"
other_kind req h (inl e) = cc ((eq_iff req.target_type "story").1 e, h)
other_kind req h (inr e) = e

-- Both records after the score has followed.
module _ (req : CreateVoteRequest) (db : Db) where
  abbrev pub StoryRaised : ℤ → Type 0
  StoryRaised delta =
      IsTallied
        (update (has_id req.target_id) (λ r. record r { score = r.score +ℤ delta }) db.stories)
        db.comments db.votes

  abbrev pub CommentRaised : ℤ → Type 0
  CommentRaised delta =
      IsTallied db.stories
        (update (is_comment req.target_id) (λ r. record r { score = r.score +ℤ delta }) db.comments)
        db.votes

  pub new_story : (req.target_type == "story") ≡ true → Pending req db → StoryRaised req.value
  new_story h p =
      rw (p.split, ← p.target, ← p.value)
        (add_story_vote-IsTallied p.tallied p.row p.fresh (p.kind ∙ (eq_iff _ _).0 h)
          (rw p.target (p.found.story h)))

  pub new_comment :
      (req.target_type == "story") ≡ false → IsKind req → Pending req db → CommentRaised req.value
  new_comment h k p =
      rw (p.split, ← p.target, ← p.value)
        (add_comment_vote-IsTallied p.tallied p.row p.fresh (p.kind ∙ other_kind req h k)
          (rw p.target (p.found.comment h)))

  pub changed_story :
      (old : ℤ)
      → (req.target_type == "story") ≡ true
      → Changing req old db
      → StoryRaised (req.value -ℤ old)
  changed_story old h p =
      rw (p.split, ← p.target, ← p.value)
        (change_story_vote-IsTallied p.tallied p.row req.value p.listed (p.kind ∙ (eq_iff _ _).0 h))

  pub changed_comment :
      (old : ℤ)
      → (req.target_type == "story") ≡ false
      → IsKind req
      → Changing req old db
      → CommentRaised (req.value -ℤ old)
  changed_comment old h k p =
      rw (p.split, ← p.target, ← p.value)
        (change_comment_vote-IsTallied p.tallied p.row req.value p.listed
          (p.kind ∙ other_kind req h k))

-- The row behind the vote that `GetVote` returned.
abbrev pub Found : CreateVoteRequest → Option Vote → Db → Type 0
Found req none db = Unit
Found req (some vote) db =
    (row : VoteRow) × IsIn row db.votes
    × (scan_vote row ≡ vote)
    × (row.target_type ≡ req.target_type)
    × (row.target_id ≡ req.target_id)

pub is_from_target :
    (kind target ip agent : String) (row : VoteRow)
    → is_from kind target ip agent row ≡ true
    → (row.target_type ≡ kind) × (row.target_id ≡ target)
is_from_target kind target ip agent row h =
    ground (arith, eq_iff row.target_type kind, eq_iff row.target_id target)
