-- ===== src/Store/Found.antt =====
-- What a query for one story or one comment has found in the tables.
use mathlib.Core.Option
use text.Mathlib.TextPositions.{eq_refl}
use slashclaw.Prelude.{
  String, true, Option, some, none, ◌≡◌, refl, any, first, select, arith, any-first-select,
  any-weaken, IsIn, any-IsIn, IsIn-first, IsIn-select,
}
use slashclaw.Env.{Env}
use slashclaw.Exec.{World, ok}
use slashclaw.Store.Models.{Story, Comment}
use slashclaw.Store.Rows.{StoryRow, CommentRow}
use slashclaw.Store.Triples.{ok_injective, query_found}
use slashclaw.Store.Stories.{has_id, is_visible, scan_story, get_story}
use slashclaw.Store.Comments.{is_visible_comment, scan_comment, get_comment}
use slashclaw.Store.Counted.{is_parent}

some_first :
    {A B : Type 0} (f : A → B) (o : Option A) (b : B)
    → Option.map f o ≡ some b
    → (a : A) × (o ≡ some a) × (b ≡ f a)
some_first f none b e = cc
some_first f (some a) b e = (a, refl, cc)

parent_test :
    (id : String) (row : CommentRow) (c : Comment)
    → is_visible_comment id row ≡ true
    → c ≡ scan_comment row
    → is_parent id c.story_id row ≡ true
unfolding scan_comment
parent_test id row c q e = rw e (ground (arith, q, eq_refl row.story_id))

module _ (env : Env) where
  pub story_found :
      (id : String) (w : World) (s : Story)
      → (get_story env id w).0 ≡ ok (some s)
      → any (has_id id) w.db.stories ≡ true
  unfolding get_story
  story_found id w s e =
      let (row, found, same) = some_first (scan_story env) _ s (
        ok_injective (
          query_found env
            (λ d. ok (Option.map (scan_story env) (first (select (is_visible id) d.stories)))) w _
            e)) in
      any-weaken (is_visible id) (has_id id) w.db.stories (λ x q. ground arith)
        (any-first-select (is_visible id) w.db.stories row found)

  pub comment_found :
      (id : String) (w : World) (c : Comment)
      → (get_comment env id w).0 ≡ ok (some c)
      → any (is_parent id c.story_id) w.db.comments ≡ true
  unfolding get_comment scan_comment
  comment_found id w c e =
      let (row, found, same) = some_first scan_comment _ c (
        ok_injective (
          query_found env
            (λ d. ok (Option.map scan_comment (first (select (is_visible_comment id) d.comments))))
            w _ e)) in
      let (i, q) = IsIn-select (is_visible_comment id) row w.db.comments (IsIn-first row _ found) in
      any-IsIn (is_parent id c.story_id) row w.db.comments i (parent_test id row c q same)

  -- The row itself.
  pub story_at :
      (id : String) (w : World) (s : Story)
      → (get_story env id w).0 ≡ ok (some s)
      → (row : StoryRow) × IsIn row w.db.stories
        × (is_visible id row ≡ true)
        × (s ≡ scan_story env row)
  unfolding get_story
  story_at id w s e =
      let (row, found, same) = some_first (scan_story env) _ s (
        ok_injective (
          query_found env
            (λ d. ok (Option.map (scan_story env) (first (select (is_visible id) d.stories)))) w _
            e)) in
      let (i, q) = IsIn-select (is_visible id) row w.db.stories (IsIn-first row _ found) in
      (row, i, q, same)

  pub comment_at :
      (id : String) (w : World) (c : Comment)
      → (get_comment env id w).0 ≡ ok (some c)
      → (row : CommentRow) × IsIn row w.db.comments
        × (is_visible_comment id row ≡ true)
        × (c ≡ scan_comment row)
  unfolding get_comment
  comment_at id w c e =
      let (row, found, same) = some_first scan_comment _ c (
        ok_injective (
          query_found env
            (λ d. ok (Option.map scan_comment (first (select (is_visible_comment id) d.comments))))
            w _ e)) in
      let (i, q) = IsIn-select (is_visible_comment id) row w.db.comments (IsIn-first row _ found) in
      (row, i, q, same)
