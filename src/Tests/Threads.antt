-- ===== src/Tests/Threads.antt =====
-- Comments and their tree on concrete tables.
use mathlib.Core.Option.{some-injective}
use slashclaw.Prelude.{
  ℕ, String, Bool, true, subst, Option, none, some, List, [], ◌∷◌, map, ◌≡◌, refl, pos,
}
use slashclaw.Exec.{World, ok}
use slashclaw.Store.Models.{Comment, top, tree}
use slashclaw.Store.Rows.{StoryRow, CommentRow}
use slashclaw.Store.Comments.{scan_comment}
use slashclaw.Store.Counted.{Counted, comments_on}
use slashclaw.Store.Tree.{Node, Forest, comment_tree, build_comment_tree, list_comments}
use slashclaw.Store.Tree.Shape.{forest_of, build_comment_tree-forest_of}
use slashclaw.Store.Tree.Answers.{IsThread, list_comments-IsThread}
use slashclaw.Tests.Setup.{test_env, test-IsUp, test-OrdersComments, start}

abbrev comment_of : String → Option String → ℕ → CommentRow
comment_of id parent hidden = record {
  id = id;
  story_id = "s1";
  parent_id = parent;
  text = "text";
  score = pos 0;
  created_at = pos 5;
  hidden = hidden;
  agent_id = some "ann";
  agent_verified = 1;
}

-- A comment with two replies, and a hidden one with a reply.
abbrev table : List CommentRow
table =
    comment_of "c1" none 0
    ∷ comment_of "c2" (some "c1") 0
    ∷ comment_of "h" none 1
    ∷ comment_of "c3" (some "h") 0
    ∷ comment_of "c4" (some "c1") 0
    ∷ []

abbrev comments : List Comment
comments =
    map scan_comment
      (comment_of "c1" none 0 ∷ comment_of "c3" (some "h") 0 ∷ comment_of "c2" (some "c1") 0 ∷ [])

the_roots : (build_comment_tree comments).roots ≡ 0 ∷ []
unfolding build_comment_tree scan_comment
the_roots = refl

the_replies :
    map (λ (n : Node). n.children) (build_comment_tree comments).nodes ≡ (2 ∷ []) ∷ [] ∷ [] ∷ []
unfolding build_comment_tree scan_comment
the_replies = refl

build_comment_tree-forest_of_example : build_comment_tree comments ≡ forest_of comments
unfolding scan_comment
build_comment_tree-forest_of_example =
    build_comment_tree-forest_of comments (refl, (refl, (refl, tt)))

abbrev talk : World
talk = record start {
  db = record start.db {
    stories = map {A = StoryRow} (λ s. record s { comment_count = pos 5 }) start.db.stories;
    comments = table;
  };
}

-- a reference to a known comment
refers :
    (t : String → Bool) (p : String)
    → t p ≡ true
    → (id : String) → ◌≡◌ {A = Option String} (some p) (some id)
    → t id ≡ true
refers t p h id e = subst (λ x. t x ≡ true) (some-injective _ _ e) h

no_reference :
    (t : String → Bool) (id : String) → ◌≡◌ {A = Option String} none (some id) → t id ≡ true
no_reference t id e = cc

talk-Counted : Counted talk.db
unfolding comments_on
talk-Counted = record {
  counts = (refl, tt);
  on_stories = (refl, (refl, (refl, (refl, (refl, tt)))));
  replies = (
    no_reference _,
    (refers _ "c1" refl, (no_reference _, (refers _ "h" refl, (refers _ "c1" refl, tt)))),
  );
  ids = (refl, (refl, (refl, (refl, (refl, tt)))));
  parents_first = (
    no_reference _,
    (refers _ "c1" refl, (no_reference _, (refers _ "h" refl, (refers _ "c1" refl, tt)))),
  );
}

list_comments-IsThread_example :
    (f : Forest) × ((list_comments test_env "s1" (record { sort = top; view = tree }) talk).0
      ≡ ok (comment_tree f))
    × IsThread "s1" talk.db f
list_comments-IsThread_example =
    list_comments-IsThread test_env "s1" top talk test-IsUp test-OrdersComments talk-Counted
