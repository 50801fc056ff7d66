-- ===== src/Store/Top.antt =====
-- `ListStories`: the page shows the stories that come first in its order.
use Prim.Native.Nat.{min}
use slashclaw.Prelude.{
  ℕ, zero, suc, [], ◌∷◌, ◌+◌, ◌≤◌, String, Bool, true, ◌||◌, List, ◌++◌, ◌≡◌, refl, ap, ◌∙◌, ℤ, ltb,
  nat_eq, length, take, drop, take-append-drop, take-take-suc, take_all, length-take, length-Perm,
  select, map, arith, ltb_ℤ, ltb_ℤ→lt, eq_ℤ, eq_of_eq_ℤ, ◌≤ℤ◌, ◌<ℤ◌, All, All-map, ◌⊎◌, Permᴰ,
  IsOrder, IsSorted, Bool-cases, inl, inr, leb_ℤ,
}
use slashclaw.Env.{Env}
use slashclaw.Env.Laws.{IsUp, OrdersStories}
use slashclaw.Exec.{World, ok, ◌>>=◌}
use slashclaw.Store.Models.{Story, SortOrder, top, new, discussed, ListOptions}
use slashclaw.Store.Rows.{StoryRow, Db}
use slashclaw.Store.Sql.{query}
use slashclaw.Store.Stories.{
  scan_story, newest_first, discussed_first, top_first, rank, order_by, clamp_limit, page,
  list_stories,
}
use slashclaw.Store.Listing.{length-map}

pub newest_first-IsOrder : IsOrder newest_first
newest_first-IsOrder = record { total = λ x y. ground arith; trans = λ x y z p q. ground arith }

ge_of_leb : (a b : ℤ) → leb_ℤ a b ≡ true → a ≤ℤ b
ge_of_leb a b h = ground arith

discussed_first-IsOrder : IsOrder discussed_first
discussed_first-IsOrder = record { total = λ x y. ground arith; trans = λ x y z p q. ground arith }

leb_ℤ-total : (a b : ℤ) → (leb_ℤ a b || leb_ℤ b a) ≡ true
leb_ℤ-total a b = ground arith

leb_ℤ-trans : (a b c : ℤ) → leb_ℤ a b ≡ true → leb_ℤ b c ≡ true → leb_ℤ a c ≡ true
leb_ℤ-trans a b c p q = ground arith

top_first-IsOrder : (env : Env) (time : ℤ) → IsOrder (top_first env time)
unfolding top_first
top_first-IsOrder env time = record {
  total = λ x y. leb_ℤ-total (rank env time y) (rank env time x);
  trans = λ x y z p q. leb_ℤ-trans (rank env time z) (rank env time y) (rank env time x) q p;
}

order_by-IsOrder : (env : Env) (sort : SortOrder) (time : ℤ) → IsOrder (order_by env sort time)
unfolding order_by
order_by-IsOrder env new time = newest_first-IsOrder
order_by-IsOrder env discussed time = discussed_first-IsOrder
order_by-IsOrder env top time = top_first-IsOrder env time

-- One story may stand before another on the page.
abbrev pub Precedes : Env → SortOrder → ℤ → StoryRow → StoryRow → Type 0
Precedes env new time a b = b.created_at ≤ℤ a.created_at
Precedes env discussed time a b =
    (b.comment_count <ℤ a.comment_count)
    ⊎ ((a.comment_count ≡ b.comment_count) × (b.created_at ≤ℤ a.created_at))
Precedes env top time a b =
    env.story_rank b.score time b.created_at ≤ℤ env.story_rank a.score time a.created_at

abbrev pub Ordered : (StoryRow → StoryRow → Type 0) → List StoryRow → Type 0
Ordered R [] = Unit
Ordered R (x ∷ xs) = All (R x) xs × Ordered R xs

order_by-Precedes :
    (env : Env) (sort : SortOrder) (time : ℤ) (a b : StoryRow)
    → order_by env sort time a b ≡ true
    → Precedes env sort time a b
unfolding order_by top_first rank
order_by-Precedes env new time a b h = ge_of_leb b.created_at a.created_at h
order_by-Precedes env discussed time a b h =
    elim (Bool-cases (ltb_ℤ b.comment_count a.comment_count)) [
      | inl fewer ↦ inl (ltb_ℤ→lt b.comment_count a.comment_count fewer)
      | inr other ↦
          let both : (eq_ℤ a.comment_count b.comment_count ≡ true)
              × (leb_ℤ b.created_at a.created_at ≡ true) =
            (ground arith, ground arith) in
          inr (
            eq_of_eq_ℤ a.comment_count b.comment_count both.0,
            ge_of_leb b.created_at a.created_at both.1,
          )
    ]
order_by-Precedes env top time a b h = ge_of_leb (rank env time b) (rank env time a) h

IsSorted-Ordered :
    (before : StoryRow → StoryRow → Bool) (R : StoryRow → StoryRow → Type 0)
    → ((a b : StoryRow) → before a b ≡ true → R a b)
    → (xs : List StoryRow) → IsSorted before xs
    → Ordered R xs
IsSorted-Ordered before R k [] h = tt
IsSorted-Ordered before R k (x ∷ xs) h =
    (All-map _ _ xs (λ y q. k x y q) h.0, IsSorted-Ordered before R k xs h.1)

-- The visible stories in their order, cut after `limit` of them.
pub record IsTop (env : Env) (limit : ℕ) (sort : SortOrder) (time : ℤ) (db : Db)
    (stories : List Story) : Type 0 where
  pub rows : List StoryRow
  pub rest : List StoryRow
  pub is_all : Permᴰ (select (λ r. nat_eq r.hidden 0) db.stories) (rows ++ rest)
  pub sorted : Ordered (Precedes env sort time) (rows ++ rest)
  pub size : length rows ≡ min limit (length (select (λ r. nat_eq r.hidden 0) db.stories))
  pub is_page : stories ≡ map (scan_story env) rows

take-map : {A B : Type 0} (f : A → B) (n : ℕ) (xs : List A) → take n (map f xs) ≡ map f (take n xs)
take-map f zero xs = refl
take-map f (suc n) [] = refl
take-map f (suc n) (x ∷ xs) = ap (λ ys. f x ∷ ys) (take-map f n xs)

page-take :
    (env : Env) (limit : ℕ) (rows : List StoryRow)
    → (page limit (map (scan_story env) (take (suc limit) rows))).0
      ≡ map (scan_story env) (take limit rows)
unfolding page
page-take env limit rows =
    let stories = map (scan_story env) (take (suc limit) rows) in
    elim (Bool-cases (ltb limit (length stories))) [
      | inl more ↦ rw more (
          take-map (scan_story env) limit (take (suc limit) rows)
          ∙ ap (map (scan_story env)) (take-take-suc limit rows))
      | inr short ↦
          let few : length rows ≤ limit = ground (
            arith,
            length-map (scan_story env) (take (suc limit) rows),
            length-take (suc limit) rows,
          ) in
          rw (short, take_all (suc limit) rows (omega arith), take_all limit rows few) refl
    ]

-- If no call of the database fails and ORDER BY sorts the rows by its keys, then the page that
-- ListStories returns shows the first stories, as many as the limit or all of them if there are
-- fewer, of the visible ones in the order asked for: by `new`, no story is newer than one before it;
-- by `discussed`, each story has fewer comments than those before it, or as many and is no newer; by
-- `top`, the REAL value that SQLite computes from score and age does not rise.
pub list_stories-IsTop :
    (env : Env) (opts : ListOptions) (w : World)
    → IsUp env
    → OrdersStories env
    → (stories : List Story) × (cursor : String) × ((list_stories env opts w).0
        ≡ ok (stories, cursor))
      × IsTop env (clamp_limit opts.limit) opts.sort (env.now w.step) w.db stories
unfolding list_stories query ◌>>=◌
list_stories-IsTop env opts w up o =
    let before = order_by env opts.sort (env.now w.step) in
    let limit = clamp_limit opts.limit in
    let visible = select (λ (r : StoryRow). nat_eq r.hidden 0) w.db.stories in
    let rows = env.order_stories before visible in
    let shown = page limit (map (scan_story env) (take (suc limit) rows)) in
    (
      shown.0,
      shown.1,
      rw (up (w.step + 1)) refl,
      record {
        rows = take limit rows;
        rest = drop limit rows;
        is_all = rw (take-append-drop limit rows) (o.same_rows before visible);
        sorted = rw (take-append-drop limit rows) (
            IsSorted-Ordered before (Precedes env opts.sort (env.now w.step))
              (order_by-Precedes env opts.sort (env.now w.step)) rows
              (o.sorted before visible (order_by-IsOrder env opts.sort (env.now w.step))));
        size = omega (arith, length-take limit rows, length-Perm (o.same_rows before visible));
        is_page = page-take env limit rows;
      },
    )
