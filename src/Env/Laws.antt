-- ===== src/Env/Laws.antt =====
-- What the proofs assume of the environment, as documented for it.
use slashclaw.Prelude.{ℕ, Bool, false, List, ◌≡◌, ◌↔◌, IsIn, Permᴰ, IsOrder, IsSorted}
use slashclaw.Store.Rows.{StoryRow, CommentRow, VoteRow}
use slashclaw.Env.{Env}

-- No call of the database fails.
abbrev pub IsUp : Env → Type 0
IsUp env = (n : ℕ) → env.down n ≡ false

-- A query returns the rows that satisfy its clause, in some order.
abbrev pub ScansVotes : Env → Type 0
ScansVotes env = (vs : List VoteRow) (v : VoteRow) → IsIn v (env.scan_votes vs) ↔ IsIn v vs

-- `ORDER BY` rearranges the rows, in the order of its keys.
pub record OrdersStories (env : Env) : Type 0 where
  pub same_rows :
      (before : StoryRow → StoryRow → Bool) (rows : List StoryRow)
      → Permᴰ rows (env.order_stories before rows)
  pub sorted :
      (before : StoryRow → StoryRow → Bool) (rows : List StoryRow)
      → IsOrder before
      → IsSorted before (env.order_stories before rows)

abbrev pub OrdersComments : Env → Type 0
OrdersComments env =
    (before : CommentRow → CommentRow → Bool) (rows : List CommentRow)
    → Permᴰ rows (env.order_comments before rows)
