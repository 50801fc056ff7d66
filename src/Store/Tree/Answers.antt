-- ===== src/Store/Tree/Answers.antt =====
-- What `ListComments` returns in the tree view.
use mathlib.Core.List.Permᴰ
use mathlib.Core.WellFounded.{Acc}
use slashclaw.Prelude.{
  ℕ, String, List, map, some, get_elem?, ◌↔◌, ◌≡◌, refl, IsIn-select, IsIn-Perm, IsIn-of_map,
  HasDistinct, HasDistinct-select, HasDistinct-map, HasDistinct-Perm, Perm-map, Permᴰ, select,
}
use slashclaw.Env.{Env}
use slashclaw.Env.Laws.{IsUp, OrdersComments}
use slashclaw.Exec.{World, ok, ◌>>=◌}
use slashclaw.Store.Models.{Comment, SortOrder, tree}
use slashclaw.Store.Rows.{CommentRow, Db}
use slashclaw.Store.Sql.{query}
use slashclaw.Store.Comments.{is_listed, scan_comment, order_comments_by, query_comments}
use slashclaw.Store.Counted.{Counted}
use slashclaw.Store.Tree.{Forest, comment_tree, build_comment_tree, as_view, list_comments}
use slashclaw.Store.Tree.Shape.{forest_of, build_comment_tree-forest_of}
use slashclaw.Store.Tree.Reach.{Reached, Shown, Reached-iff-Shown}
use slashclaw.Store.Tree.Ends.{IsChild, AreRows, ends}

-- The forest of the visible comments on a story, each below the comment that it replies to. Its roots
-- reach the comments whose ancestors are all visible, and no others.
pub record IsThread (story : String) (db : Db) (f : Forest) : Type 0 where
  pub listed : List Comment
  pub visible : Permᴰ (map scan_comment (select (is_listed story) db.comments)) listed
  pub shape : f ≡ forest_of listed
  pub reached : (i : ℕ) (c : Comment) → get_elem? listed i ≡ some c → Reached f i ↔ Shown listed c
  pub finite : (i : ℕ) → Acc (IsChild f) i

module _ (env : Env) (story : String) (sort : SortOrder) (db : Db) (o : OrdersComments env)
    (h : Counted db) where
  abbrev found : List CommentRow
  found = select (is_listed story) db.comments

  abbrev comments : List Comment
  comments = map scan_comment (env.order_comments (order_comments_by sort) found)

  same_comments : Permᴰ (map scan_comment found) comments
  same_comments = Perm-map scan_comment (o (order_comments_by sort) found)

  distinct : HasDistinct (λ (c : Comment). c.id) comments
  unfolding scan_comment
  distinct =
      HasDistinct-Perm (λ (c : Comment). c.id) same_comments
        (HasDistinct-map scan_comment (λ (c : Comment). c.id) found
          (HasDistinct-select (λ (r : CommentRow). r.id) (is_listed story) db.comments h.ids))

  are_rows : AreRows db.comments comments
  are_rows c i =
      let (r, there, same) =
        IsIn-of_map scan_comment c found (IsIn-Perm c (Permᴰ.symm same_comments) i) in
      (r, (IsIn-select (is_listed story) r db.comments there).0, same)

  built-IsThread : IsThread story db (build_comment_tree comments)
  built-IsThread = record {
    listed = comments;
    visible = same_comments;
    shape = build_comment_tree-forest_of comments distinct;
    reached = rw (build_comment_tree-forest_of comments distinct) (Reached-iff-Shown comments);
    finite =
        rw (build_comment_tree-forest_of comments distinct)
          (ends db.comments h.ids h.parents_first comments are_rows);
  }

-- If no call of the database fails, ORDER BY rearranges the rows, and the ids and the references of
-- the comments are as `Counted` says, then ListComments in the tree view returns the roots of a forest
-- over the visible comments on the story: the roots are those without a parent, and the children of
-- a comment are the visible replies to it. What the roots reach, which is what is returned, are just
-- the visible comments without a parent and the replies to comments so reached: a visible reply below
-- a hidden comment is left out. There is no cycle, so that a walk down the children ends.
pub list_comments-IsThread :
    (env : Env) (story : String) (sort : SortOrder) (w : World)
    → IsUp env
    → OrdersComments env
    → Counted w.db
    → (f : Forest) × ((list_comments env story (record { sort = sort; view = tree }) w).0
        ≡ ok (comment_tree f))
      × IsThread story w.db f
unfolding list_comments query_comments query as_view ◌>>=◌
list_comments-IsThread env story sort w up o h =
    (_, rw (up w.step) refl, built-IsThread env story sort w.db o h)
