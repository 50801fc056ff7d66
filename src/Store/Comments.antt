-- ===== src/Store/Comments.antt =====
-- The comments in internal/store/sqlite.go, but for the tree.
use mathlib.Core.Option
use slashclaw.Prelude.{
  String, Bool, ◌&&◌, ◌||◌, Option, List, [], ◌∷◌, ◌++◌, map, ℤ, ◌+ℤ◌, ltb_ℤ, leb_ℤ, eq_ℤ, nat_eq,
  ◌==◌, not, first, select, update, any, if◌then◌else◌,
}
use slashclaw.Env.{Env}
use slashclaw.Exec.{Exec, Result, ok, err, pure, now, new_uuid, ◌>>=◌, ◌>>◌}
use slashclaw.Store.Models.{Comment, SortOrder, top, new, discussed, is_zero}
use slashclaw.Store.Rows.{CommentRow, Db}
use slashclaw.Store.Sql.{Error, constraint, query, execute, null_string, string_of, bool_to_int}
use slashclaw.Store.Stories.{has_id}

-- the row that `CreateComment` inserts
unfoldable pub comment_row : Comment → CommentRow
comment_row comment = record {
  id = comment.id;
  story_id = comment.story_id;
  parent_id = null_string comment.parent_id;
  text = comment.text;
  score = comment.score;
  created_at = comment.created_at;
  hidden = bool_to_int comment.hidden;
  agent_id = null_string comment.agent_id;
  agent_verified = bool_to_int comment.agent_verified;
}

-- `scanComment` and `scanCommentRows`
unfoldable pub scan_comment : CommentRow → Comment
scan_comment row = record {
  id = row.id;
  story_id = row.story_id;
  parent_id = string_of row.parent_id;
  text = row.text;
  score = row.score;
  created_at = row.created_at;
  hidden = nat_eq row.hidden 1;
  agent_id = string_of row.agent_id;
  agent_verified = nat_eq row.agent_verified 1;
}

abbrev pub is_comment : String → CommentRow → Bool
is_comment id row = row.id == id

abbrev pub is_visible_comment : String → CommentRow → Bool
is_visible_comment id row = row.id == id && nat_eq row.hidden 0

abbrev pub is_listed : String → CommentRow → Bool
is_listed story row = row.story_id == story && nat_eq row.hidden 0

-- the insertion, with the primary key and the foreign key
unfoldable pub insert_comment : CommentRow → Db → Result Error Db
insert_comment row db =
    if any (is_comment row.id) db.comments || not (any (has_id row.story_id) db.stories)
    then err constraint
    else ok (record db { comments = db.comments ++ row ∷ [] })

abbrev pub newest_comment : CommentRow → CommentRow → Bool
newest_comment a b = leb_ℤ b.created_at a.created_at

abbrev pub top_comment : CommentRow → CommentRow → Bool
top_comment a b = ltb_ℤ b.score a.score || (eq_ℤ a.score b.score && leb_ℤ a.created_at b.created_at)

unfoldable pub order_comments_by : SortOrder → CommentRow → CommentRow → Bool
order_comments_by new = newest_comment
order_comments_by top = top_comment
order_comments_by discussed = top_comment

module _ (env : Env) where
  unfoldable pub create_comment : Comment → Exec Error Comment
  unfolding execute insert_comment comment_row
  create_comment comment = do
    id ← if comment.id == "" then new_uuid env else pure comment.id
    created ← if is_zero comment.created_at then now env else pure comment.created_at
    let saved = record comment { id = id; created_at = created }
    execute env (insert_comment (comment_row saved))
    pure saved

  unfoldable pub get_comment : String → Exec Error (Option Comment)
  unfolding query scan_comment
  get_comment id =
      query env
        λ db. ok (Option.map scan_comment (first (select (is_visible_comment id) db.comments)))

  -- the query of `ListComments`; `Store.Tree` has the view
  unfoldable pub query_comments : String → SortOrder → Exec Error (List Comment)
  unfolding query scan_comment order_comments_by
  query_comments story sort = query env λ db. ok (
      map scan_comment
        (env.order_comments (order_comments_by sort) (select (is_listed story) db.comments)))

  unfoldable pub update_comment_score : String → ℤ → Exec Error Unit
  unfolding execute
  update_comment_score id delta = execute env λ db. ok (record db {
    comments = update (is_comment id) (λ r. record r { score = r.score +ℤ delta }) db.comments;
  })

  unfoldable pub hide_comment : String → Exec Error Unit
  unfolding execute
  hide_comment id = execute env λ db.
      ok
        (record db { comments = update (is_comment id) (λ r. record r { hidden = 1 }) db.comments })
