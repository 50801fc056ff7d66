-- ===== src/Store/Tree.antt =====
-- `buildCommentTree` and `ListComments` in internal/store/sqlite.go. A pointer to a comment is its
-- place in the list; the field `Children` is a list of such places.
pub mod Shape
pub mod Ends
pub mod Reach
pub mod Answers
use slashclaw.Prelude.{
  ℕ, zero, suc, String, Option, none, some, List, [], ◌∷◌, ◌++◌, map, ◌==◌, if◌then◌else◌,
}
use slashclaw.Env.{Env}
use slashclaw.Exec.{Exec, pure, ◌>>=◌}
use slashclaw.Store.Models.{Comment, ViewMode, tree, flat, CommentListOptions}
use slashclaw.Store.Sql.{Error}
use slashclaw.Store.Comments.{query_comments}

pub record Node : Type 0 where
  pub comment : Comment
  pub children : List ℕ

-- The objects that the loop changes in place, and the roots. Go returns the roots, and by their pointers
-- what the roots reach; an object that no root reaches is garbage, and no part of the result.
pub record Forest : Type 0 where
  pub nodes : List Node
  pub roots : List ℕ

-- the map `byID`: a later entry covers an earlier one
unfoldable pub by_id : ℕ → List Comment → List (String × ℕ) → List (String × ℕ)
by_id i [] m = m
by_id i (c ∷ cs) m = by_id (suc i) cs ((c.id, i) ∷ m)

unfoldable pub find : String → List (String × ℕ) → Option ℕ
find id [] = none
find id ((k, i) ∷ m) = if k == id then some i else find id m

-- `parent.Children = append(parent.Children, c)`
unfoldable pub append_child : ℕ → ℕ → List Node → List Node
append_child parent child [] = []
append_child zero child (n ∷ ns) = record n { children = n.children ++ child ∷ [] } ∷ ns
append_child (suc p) child (n ∷ ns) = n ∷ append_child p child ns

-- one round of the loop, for the comment at place `i`
unfoldable pub attach : Option ℕ → ℕ → Forest → Forest
unfolding append_child
attach none i f = f
attach (some p) i f = record f { nodes = append_child p i f.nodes }

unfoldable pub place : List (String × ℕ) → ℕ → Comment → Forest → Forest
unfolding attach find
place m i c f =
    if c.parent_id == ""
    then record f { roots = f.roots ++ i ∷ [] }
    else attach (find c.parent_id m) i f

unfoldable pub place_all : List (String × ℕ) → ℕ → List Comment → Forest → Forest
unfolding place
place_all m i [] f = f
place_all m i (c ∷ cs) f = place_all m (suc i) cs (place m i c f)

abbrev pub bare : Comment → Node
bare c = record { comment = c; children = [] }

unfoldable pub build_comment_tree : List Comment → Forest
unfolding by_id place_all
build_comment_tree comments =
    place_all (by_id 0 comments []) 0 comments (record { nodes = map bare comments; roots = [] })

-- What `ListComments` returns: the list, or the roots of the tree.
pub data CommentList : Type 0 where
  comment_list : List Comment → CommentList
  comment_tree : Forest → CommentList

unfoldable pub as_view : ViewMode → List Comment → CommentList
unfolding build_comment_tree
as_view tree comments = comment_tree (build_comment_tree comments)
as_view flat comments = comment_list comments

module _ (env : Env) where
  unfoldable pub list_comments : String → CommentListOptions → Exec Error CommentList
  unfolding query_comments as_view
  list_comments story opts = do
    comments ← query_comments env story opts.sort
    pure (as_view opts.view comments)
