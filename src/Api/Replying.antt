-- ===== src/Api/Replying.antt =====
-- `CreateComment` keeps the comment counts and the references of comments, if no call of the
-- database fails.
use slashclaw.Prelude.{
  String, true, false, not, Option, some, none, List, [], ◌∷◌, ◌++◌, ◌≡◌, refl, ◌==◌, eq_iff, ℤ,
  pos, any, update, arith, ◌∙◌, ap, subst, Bool-cases, inl, inr,
}
use slashclaw.Env.{Env}
use slashclaw.Env.Laws.{IsUp}
use slashclaw.Exec.{ok, or_fail, when, ignore_err}
use slashclaw.Exec.Keeps.{Keeps, Keeps-same, keeps_rules}
use slashclaw.Exec.Triple.{
  Triple, Triple-pure, Triple-read, Triple-bind, Triple-on_err, Triple-fail_if, Triple-ignore_err,
  Keeps-Triple,
}
use slashclaw.Exec.Steps.{Triple-skip, Triple-given, Triple-test}
use slashclaw.Config.{Config}
use slashclaw.Store.Models.{Story, Comment}
use slashclaw.Store.Rows.{CommentRow, Db}
use slashclaw.Store.Sql.{null_string}
use slashclaw.Store.Keeps.{get_story-Keeps, get_comment-Keeps}
use slashclaw.Store.Triples.{Triple-execute, inserted, ok_injective}
use slashclaw.Store.Stories.{has_id, get_story, update_story_comment_count}
use slashclaw.Store.Comments.{
  comment_row, is_comment, insert_comment, create_comment as store_comment, get_comment,
}
use slashclaw.Store.Found.{story_found, comment_found}
use slashclaw.Store.Counted.{
  is_parent, HasParent, HasStory, IsCounted, Counted, count_up, add_comment-IsCounted,
}
use slashclaw.Api.Http.{Request, Response}
use slashclaw.Api.Keeps.{check_rate_limit-Keeps}
use slashclaw.Api.Comments.{CreateCommentRequest, check_parent, create_comment}

-- What the checks of a comment have found in the tables.
record Ready (req : CreateCommentRequest) (db : Db) : Type 0 where
  counted : Counted db
  story : any (has_id req.story_id) db.stories ≡ true
  parent :
      (req.parent_id == "") ≡ false → any (is_parent req.parent_id req.story_id) db.comments ≡ true

root-Ready :
    (req : CreateCommentRequest) (db : Db)
    → (req.parent_id == "") ≡ true
    → Counted db × (any (has_id req.story_id) db.stories ≡ true)
    → Ready req db
root-Ready req db root h = record { counted = h.0; story = h.1; parent = λ reply. cc }

reply_to :
    {req : CreateCommentRequest} (parent story : String) (db : Db)
    → parent ≡ req.parent_id
    → story ≡ req.story_id
    → Ready req db
    → (id : String) → null_string parent ≡ some id
    → any (is_parent id story) db.comments ≡ true
reply_to {req} parent story db p s h id e = elim (Bool-cases (req.parent_id == "")) [
  | inl root ↦ cc (rw (p, root) at e)
  | inr reply ↦
      let found = h.parent reply in
      let same : req.parent_id ≡ id = cc (rw (p, reply) at e) in rw (s, ← same) found
]

-- The count of the story has still to follow a new comment.
record Pending (req : CreateCommentRequest) (db : Db) : Type 0 where
  before : List CommentRow
  row : CommentRow
  split : db.comments ≡ before ++ row ∷ []
  counted : IsCounted db.stories before
  story : HasStory db.stories row
  parent : HasParent before row
  fresh : any (is_comment row.id) before ≡ false
  on : row.story_id ≡ req.story_id

Pending-IsCounted :
    (req : CreateCommentRequest) (db : Db)
    → Pending req db
    → IsCounted (update (has_id req.story_id) count_up db.stories) db.comments
Pending-IsCounted req db p =
    rw (p.split, ← p.on) (add_comment-IsCounted p.counted p.row p.story p.parent p.fresh)

abbrev Stored : CreateCommentRequest → Option Story → Db → Type 0
Stored req o db =
    Counted db × ((s : Story) → o ≡ some s → any (has_id req.story_id) db.stories ≡ true)

abbrev Known : CreateCommentRequest → Db → Type 0
Known req db = Counted db × (any (has_id req.story_id) db.stories ≡ true)

abbrev Replies : CreateCommentRequest → Option Comment → Db → Type 0
Replies req o db =
    Known req db
    × ((c : Comment) → o ≡ some c → any (is_parent req.parent_id c.story_id) db.comments ≡ true)

module _ (env : Env) (cfg : Config) (up : IsUp env) (req : CreateCommentRequest) where
  get_story-Stored : Triple Counted (get_story env req.story_id) (Stored req) (λ _. Counted)
  get_story-Stored =
      Triple-read _ _ _ _ (Keeps-same _ (λ Q. get_story-Keeps env {Q = Q} req.story_id))
        (λ w o h e. (h, λ s q. story_found env req.story_id w s (e ∙ ap ok q))) (λ w e h x. h)

  or_fail-Known :
      (o : Option Story) (a : Response)
      → Triple (Stored req o) (or_fail o a) (λ _. Known req) (λ _. Counted)
  unfolding or_fail
  or_fail-Known none a = record { at = λ w h. h.0 }
  or_fail-Known (some s) a = record { at = λ w h. (h.0, h.1 s refl) }

  get_comment-Replies :
      Triple (Known req) (get_comment env req.parent_id) (Replies req) (λ _. Counted)
  get_comment-Replies =
      Triple-read _ _ _ _ (Keeps-same _ (λ Q. get_comment-Keeps env {Q = Q} req.parent_id))
        (λ w o h e. (h, λ c q. comment_found env req.parent_id w c (e ∙ ap ok q))) (λ w e h x. h.0)

  or_fail-Replies :
      (o : Option Comment) (a : Response)
      → Triple (Replies req o) (or_fail o a) (λ c. Replies req (some c)) (λ _. Counted)
  unfolding or_fail
  or_fail-Replies none a = record { at = λ w h. h.0.0 }
  or_fail-Replies (some c) a = record { at = λ w h. h }

  same_story :
      (c : Comment) (db : Db)
      → not (c.story_id == req.story_id) ≡ false
      → Replies req (some c) db
      → Ready req db
  same_story c db test (known, reply) = record {
    counted = known.0;
    story = known.1;
    parent = λ given.
        subst (λ s. any (is_parent req.parent_id s) db.comments ≡ true)
          (ground (arith, test, eq_iff c.story_id req.story_id)) (reply c refl);
  }

  check_parent-Ready : Triple (Known req) (check_parent env cfg req) (λ _. Ready req) (λ _. Counted)
  unfolding check_parent
  check_parent-Ready = Triple-bind _ (Triple-on_err _ _ get_comment-Replies) λ o.
      Triple-bind _ (or_fail-Replies o _)
        λ c. Triple-fail_if _ _ _ _ (λ d e h. same_story c d e h) (λ d e h. h.0.0)

  when-Ready :
      Triple
        (Known req)
        (when (not (req.parent_id == "")) (check_parent env cfg req))
        (λ _. Ready req)
        (λ _. Counted)
  unfolding when
  when-Ready = elim (Bool-cases (req.parent_id == "")) [
    | inl root ↦ rw root (Triple-pure _ _ _ (λ d h. root-Ready req d root h))
    | inr reply ↦ rw reply check_parent-Ready
  ]

  insert-Pending :
      (x : Comment) (id : String) (created : ℤ) (d d' : Db)
      → x.story_id ≡ req.story_id
      → x.parent_id ≡ req.parent_id
      → Ready req d
      → insert_comment (comment_row (record x { id = id; created_at = created })) d ≡ ok d'
      → Pending req d'
  unfolding insert_comment comment_row
  insert-Pending x id created d d' story parent h e =
      let (test, same) = inserted _ _ _ d' e in
      subst (Pending req) same (record {
        before = d.comments;
        row = comment_row (record x { id = id; created_at = created });
        split = refl;
        counted = h.counted;
        story = rw story h.story;
        parent = reply_to x.parent_id x.story_id d parent story h;
        fresh = ground (arith, test);
        on = story;
      })

  store_comment-Pending :
      (x : Comment)
      → x.story_id ≡ req.story_id
      → x.parent_id ≡ req.parent_id
      → Triple (Ready req) (store_comment env x) (λ _. Pending req) (λ _. Counted)
  unfolding store_comment
  store_comment-Pending x story parent =
      Triple-skip (λ d h. h.counted) (search keeps_rules)
        λ id.
          Triple-skip (λ d h. h.counted) (search keeps_rules)
            λ created.
              Triple-bind (λ _. Pending req)
                (Triple-execute env up _ _ _ _
                  (λ d d' h e. insert-Pending x id created d d' story parent h e)
                  (λ d e h x. h.counted))
                λ _. Triple-pure _ _ _ (λ d h. h)

  count-Counted :
      Triple
        (Pending req)
        (ignore_err {F = Response} (update_story_comment_count env req.story_id (pos 1)))
        (λ _. Counted)
        (λ _. Counted)
  unfolding update_story_comment_count
  count-Counted = Triple-ignore_err _ _ (
      Triple-execute env up _ _ _ _
        (λ d d' h e. subst Counted (ok_injective e) (Pending-IsCounted req d h)) (λ d e h x. cc))

module _ (env : Env) (cfg : Config) (up : IsUp env) where
  -- Whatever the request and however it ends, the counts and the references stay right.
  pub create_comment-Counted :
      (r : Request) (body : Option CreateCommentRequest)
      → Keeps Counted (create_comment env cfg r body)
  unfolding create_comment
  create_comment-Counted r body = Keeps-Triple (
      Triple-skip (λ d h. h) (check_rate_limit-Keeps env cfg r "comment" cfg.comment_rate_limit)
        λ rate.
          Triple-test (λ d h. h) _ _ _
            λ allowed.
              Triple-given (λ d h. h) _ _ _
                λ req given.
                  Triple-test (λ d h. h) _ _ _
                    λ story.
                      Triple-test (λ d h. h) _ _ _
                        λ text.
                          Triple-bind _ (Triple-on_err _ _ (get_story-Stored env cfg up req)) λ o.
                            Triple-bind _ (or_fail-Known env cfg up req o _) λ _.
                              Triple-bind _ (when-Ready env cfg up req) λ _.
                                Triple-bind _
                                  (Triple-on_err _ _
                                    (store_comment-Pending env cfg up req _ refl refl))
                                  λ saved.
                                    Triple-bind _ (count-Counted env cfg up req)
                                      λ _. Triple-pure _ _ _ (λ d h. h))
