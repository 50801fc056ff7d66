-- ===== src/Api/Commenting.antt =====
-- `CreateComment`: what a comment that is accepted satisfies, and that nothing is stored otherwise.
use slashclaw.Prelude.{
  String, false, Option, some, [], ◌∷◌, ◌++◌, ◌≡◌, refl, sym, ◌∙◌, subst, ℤ, pos, ◌+ℤ◌, ◌==◌, any,
  update, ◌⊎◌,
}
use slashclaw.Env.{Env}
use slashclaw.Env.Laws.{IsUp}
use slashclaw.Exec.{ok, ignore_err}
use slashclaw.Exec.Keeps.{keeps_rules}
use slashclaw.Exec.Steps.{Triple-skip, Triple-given, Triple-test}
use slashclaw.Exec.Triple.{
  Triple, Triple-pure, Triple-bind, Triple-on_err, Triple-fact, Triple-ignore_err,
}
use slashclaw.Config.{Config}
use slashclaw.Store.Models.{Comment, zero_time}
use slashclaw.Store.Rows.{CommentRow, Db}
use slashclaw.Store.Sql.{null_string, bool_to_int}
use slashclaw.Store.Triples.{Triple-execute, inserted, or-eq_false, ok_injective}
use slashclaw.Store.Stories.{has_id, update_story_comment_count}
use slashclaw.Store.Comments.{
  comment_row, is_comment, insert_comment, create_comment as store_comment,
}
use slashclaw.Store.Counted.{count_up}
use slashclaw.Api.Http.{
  Request, Response, create_comment_response, write_json, context_agent, context_verified,
}
use slashclaw.Api.Keeps.{check_rate_limit-Keeps}
use slashclaw.Api.Comments.{CreateCommentRequest, create_comment}
use slashclaw.Api.Seen.{SeenStory, SeenComment, get_story-Seen, when-Seen}

-- The request follows the rules for a comment.
pub record IsReply (req : CreateCommentRequest) (db : Db) : Type 0 where
  pub has_text : (req.text == "") ≡ false
  pub on_story : SeenStory req.story_id db
  pub to_comment : (req.parent_id ≡ "") ⊎ SeenComment req.parent_id req.story_id db

-- The comment of the request, by the agent of the request, is appended, the count of its story goes
-- up by one, and the answer has the identifier.
pub record Replied (r : Request) (req : CreateCommentRequest) (db : Db) (answer : Response)
    (db' : Db) : Type 0 where
  pub row : CommentRow
  pub is_story : row.story_id ≡ req.story_id
  pub is_parent : row.parent_id ≡ null_string req.parent_id
  pub is_text : row.text ≡ req.text
  pub no_score : row.score ≡ pos 0
  pub is_seen : row.hidden ≡ 0
  pub is_agent : row.agent_id ≡ null_string (context_agent r)
  pub is_verified : row.agent_verified ≡ bool_to_int (context_verified r)
  pub is_fresh : any (is_comment row.id) db.comments ≡ false
  pub stored : db' ≡ record db {
    comments = db.comments ++ row ∷ [];
    stories =
        update
          (has_id req.story_id)
          (λ s. record s { comment_count = s.comment_count +ℤ pos 1 })
          db.stories;
  }
  pub is_answer : answer ≡ write_json 201 (create_comment_response row.id)

-- The tables after the insertion, and after the count.
abbrev with_comment : Comment → Db → Db
with_comment x db = record db { comments = db.comments ++ comment_row x ∷ [] }

abbrev counted : String → Db → Db
counted id db = record db { stories = update (has_id id) count_up db.stories }

-- A stored comment differs from the given one by its identifier and time.
record Stamped (x saved : Comment) (db : Db) : Type 0 where
  id : String
  created : ℤ
  is_saved : saved ≡ record x { id = id; created_at = created }
  is_fresh : any (is_comment id) db.comments ≡ false

module _ (env : Env) (up : IsUp env) (db : Db) where
  insert-Stamped :
      (x : Comment) (id : String) (created : ℤ) (d d' : Db)
      → d ≡ db
      → insert_comment (comment_row (record x { id = id; created_at = created })) d ≡ ok d'
      → (d' ≡ with_comment (record x { id = id; created_at = created }) db)
        × Stamped x (record x { id = id; created_at = created }) db
  unfolding insert_comment comment_row
  insert-Stamped x id created d d' h e =
      let (test, same) = inserted _ _ _ d' e in
      (
        sym same ∙ (rw h refl),
        record {
          id = id;
          created = created;
          is_saved = refl;
          is_fresh =
              subst (λ (y : Db). any (is_comment id) y.comments ≡ false) h (or-eq_false _ _ test).0;
        },
      )

  store_comment-Stamped :
      (x : Comment)
      → Triple
          (λ d. d ≡ db)
          (store_comment env x)
          (λ saved d. (d ≡ with_comment saved db) × Stamped x saved db)
          (λ _ d. d ≡ db)
  unfolding store_comment
  store_comment-Stamped x =
      Triple-skip (λ d h. h) (search keeps_rules)
        λ id.
          Triple-skip (λ d h. h) (search keeps_rules)
            λ created.
              Triple-bind
                (λ _ d.
                  (d ≡ with_comment (record x { id = id; created_at = created }) db)
                  × Stamped x (record x { id = id; created_at = created }) db)
                (Triple-execute env up _ _ _ _ (λ d d' h e. insert-Stamped x id created d d' h e)
                  (λ d e h x. h))
                λ _. Triple-pure _ _ _ (λ d h. h)

  count_once :
      (id : String) (d1 : Db)
      → Triple
          (λ d. d ≡ d1)
          (ignore_err {F = Response} (update_story_comment_count env id (pos 1)))
          (λ _ d. d ≡ counted id d1)
          (λ _ d. d ≡ db)
  unfolding update_story_comment_count
  count_once id d1 = Triple-ignore_err _ _ (
      Triple-execute env up _ _ _ _ (λ d d' h e. sym (ok_injective e) ∙ (rw h refl))
        (λ d e h x. cc))

-- The comment that the handler builds.
abbrev draft : Request → CreateCommentRequest → Comment
draft r req = record {
  id = "";
  story_id = req.story_id;
  parent_id = req.parent_id;
  text = req.text;
  score = pos 0;
  created_at = zero_time;
  hidden = false;
  agent_id = context_agent r;
  agent_verified = context_verified r;
}

Replied-row :
    (r : Request) (req : CreateCommentRequest) (id : String) (created : ℤ) (db db' : Db)
    → any (is_comment id) db.comments ≡ false
    → db'
      ≡ counted req.story_id
          (with_comment (record (draft r req) { id = id; created_at = created }) db)
    → Replied r req db (write_json 201 (create_comment_response id)) db'
unfolding comment_row
Replied-row r req id created db db' fresh e = record {
  row = comment_row (record (draft r req) { id = id; created_at = created });
  is_story = refl;
  is_parent = refl;
  is_text = refl;
  no_score = refl;
  is_seen = refl;
  is_agent = refl;
  is_verified = refl;
  is_fresh = fresh;
  stored = e;
  is_answer = refl;
}

Replied-of_draft :
    (r : Request) (req : CreateCommentRequest) (saved : Comment) (db db' : Db)
    → Stamped (draft r req) saved db
    → db' ≡ counted req.story_id (with_comment saved db)
    → Replied r req db (write_json 201 (create_comment_response saved.id)) db'
Replied-of_draft r req saved db db' s e =
    subst (λ (y : Comment). Replied r req db (write_json 201 (create_comment_response y.id)) db')
      (sym s.is_saved)
      (Replied-row r req s.id s.created db db' s.is_fresh
        (subst (λ y. db' ≡ counted req.story_id (with_comment y db)) s.is_saved e))

-- If no call of the database fails: when CreateComment reaches its end, the body was decoded, its
-- text is not empty, its story is one that readers see, its parent, if it names one, is a comment
-- on that story that readers see, one such comment, by the agent of the request and with score 0,
-- is appended under a new identifier, the comment count of the story goes up by one and nothing
-- else changes, and the answer is 201 with the identifier; with any early answer the tables are as
-- before.
pub create_comment-Replied :
    (env : Env) (cfg : Config) (db : Db) (r : Request) (body : Option CreateCommentRequest)
    → IsUp env
    → Triple
        (λ d. d ≡ db)
        (create_comment env cfg r body)
        (λ answer d.
          (req : CreateCommentRequest) × (body ≡ some req)
          × IsReply req db
          × Replied r req db answer d)
        (λ _ d. d ≡ db)
unfolding create_comment
create_comment-Replied env cfg db r body up =
    Triple-skip (λ d h. h) (check_rate_limit-Keeps env cfg r "comment" cfg.comment_rate_limit)
      λ rate.
        Triple-test (λ d h. h) _ _ _
          λ allowed.
            Triple-given (λ d h. h) _ _ _
              λ req given.
                Triple-test (λ d h. h) _ _ _
                  λ story.
                    Triple-test (λ d h. h) _ _ _
                      λ text.
                        Triple-bind _ (Triple-on_err _ _ (get_story-Seen env cfg db req.story_id))
                          λ o. Triple-fact _ λ seen.
                            Triple-given (λ d h. h) o _ _
                              λ on found. Triple-bind _ (when-Seen env cfg db req) λ _.
                                Triple-fact _ λ parent.
                                  Triple-bind _
                                    (Triple-on_err _ _
                                      (store_comment-Stamped env up db (draft r req)))
                                    λ saved. Triple-fact _ λ stamped.
                                      Triple-bind _
                                        (count_once env up db req.story_id (with_comment saved db))
                                        λ _. Triple-pure _ _ _ λ d h. (
                                          req,
                                          given,
                                          record {
                                            has_text = text;
                                            on_story = seen on found;
                                            to_comment = parent;
                                          },
                                          Replied-of_draft r req saved db d stamped h,
                                        )
