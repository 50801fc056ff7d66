-- ===== src/Store/Listing.antt =====
-- `ListStories`: how many stories a page has, and which.
use mathlib.Core.List.Permᴰ
use slashclaw.Prelude.{
  sym, take_all, IsIn-Perm, length-Perm, ℕ, suc, ◌+◌, ◌≤◌, String, Bool, true, false, List, [], ◌∷◌,
  ◌≡◌, refl, ℤ, ltb, nat_eq, length, take, select, map, arith, All, All-take, All-of_IsIn, IsIn,
  IsIn-select, length-take, ap, Bool-cases, inl, inr,
}
use slashclaw.Env.{Env}
use slashclaw.Env.Laws.{IsUp, OrdersStories}
use slashclaw.Exec.{World, ok, ◌>>=◌}
use slashclaw.Store.Models.{Story, ListOptions}
use slashclaw.Store.Rows.{StoryRow, Db}
use slashclaw.Store.Sql.{query}
use slashclaw.Store.Stories.{scan_story, order_by, clamp_limit, page, list_stories}

abbrev shown : StoryRow → Bool
shown r = nat_eq r.hidden 0

-- A page shows at most `limit` stories, each of them stored and not hidden; and if no more are
-- stored, it shows them all and has no cursor.
pub record IsPage (env : Env) (limit : ℕ) (db : Db) (stories : List Story) (cursor : String)
    : Type 0 where
  pub bounded : length stories ≤ limit
  pub visible :
      All
        (λ s. (row : StoryRow) × IsIn row db.stories × (row.hidden ≡ 0) × (s ≡ scan_story env row))
        stories
  pub complete :
      length (select (λ r. nat_eq r.hidden 0) db.stories) ≤ limit
      → ((row : StoryRow)
          → IsIn row db.stories
          → row.hidden ≡ 0
          → IsIn (scan_story env row) stories)
        × (cursor ≡ "")

module _ {A B : Type 0} (f : A → B) where
  pub length-map : (xs : List A) → length (map f xs) ≡ length xs
  length-map [] = refl
  length-map (x ∷ xs) = omega (arith, length-map xs)

  IsIn-map : (a : A) (xs : List A) → IsIn a xs → IsIn (f a) (map f xs)
  IsIn-map a [] i = absurd i
  IsIn-map a (x ∷ xs) (inl e) = inl (ap f e)
  IsIn-map a (x ∷ xs) (inr i) = inr (IsIn-map a xs i)

  All-map_of : (P : B → Type 0) (xs : List A) → All (λ a. P (f a)) xs → All P (map f xs)
  All-map_of P [] h = tt
  All-map_of P (x ∷ xs) h = (h.0, All-map_of P xs h.1)

pub IsIn-select_back :
    {A : Type 0} (p : A → Bool) (a : A) (xs : List A)
    → IsIn a xs
    → p a ≡ true
    → IsIn a (select p xs)
IsIn-select_back p a [] i e = absurd i
IsIn-select_back p a (x ∷ xs) (inl q) e = rw (q, e) (inl refl)
IsIn-select_back p a (x ∷ xs) (inr i) e = elim (Bool-cases (p x)) [
  | inl kept ↦ rw kept (inr (IsIn-select_back p a xs i e))
  | inr out ↦ rw out (IsIn-select_back p a xs i e)
]

module _ (limit : ℕ) where
  page_bounded : (xs : List Story) → length (page limit xs).0 ≤ limit
  unfolding page
  page_bounded xs = elim (Bool-cases (ltb limit (length xs))) [
    | inl more ↦ rw more (omega (arith, length-take limit xs))
    | inr short ↦ rw short (ground (arith, short))
  ]

  page-All : (P : Story → Type 0) (xs : List Story) → All P xs → All P (page limit xs).0
  unfolding page
  page-All P xs h = elim (Bool-cases (ltb limit (length xs))) [
    | inl more ↦ rw more (All-take P limit xs h)
    | inr short ↦ rw short h
  ]

  page_short : (xs : List Story) → ltb limit (length xs) ≡ false → page limit xs ≡ (xs, "")
  unfolding page
  page_short xs e = rw e refl

pub clamp_limit_bounds : (limit : ℤ) → (1 ≤ clamp_limit limit) × (clamp_limit limit ≤ 100)
unfolding clamp_limit
clamp_limit_bounds limit = (ground arith, ground arith)

module _ (env : Env) (o : OrdersStories env) (before : StoryRow → StoryRow → Bool) (limit : ℕ)
    (db : Db) where
  abbrev rows : List StoryRow
  rows = env.order_stories before (select shown db.stories)

  abbrev Shows : Story → Type 0
  Shows s = (row : StoryRow) × IsIn row db.stories × (row.hidden ≡ 0) × (s ≡ scan_story env row)

  row_shown : (row : StoryRow) → IsIn row rows → Shows (scan_story env row)
  row_shown row i =
      let (j, q) =
        IsIn-select shown row db.stories
          (IsIn-Perm row (Permᴰ.symm (o.same_rows before (select shown db.stories))) i) in
      (row, j, ground (arith, q), refl)

  All-shown : All Shows (map (scan_story env) (take (suc limit) rows))
  All-shown =
      All-map_of (scan_story env) Shows (take (suc limit) rows)
        (All-take _ (suc limit) rows (All-of_IsIn _ rows row_shown))

  abbrev listed : List Story
  listed = map (scan_story env) (take (suc limit) rows)

  listed-whole :
      length (select shown db.stories) ≤ limit
      → (listed ≡ map (scan_story env) rows) × (ltb limit (length listed) ≡ false)
  listed-whole h =
      let size = sym (length-Perm (o.same_rows before (select shown db.stories))) in
      let whole = take_all (suc limit) rows (omega (arith, h, size)) in
      (
        ap (map (scan_story env)) whole,
        (ground (
          arith,
          h,
          size,
          length-map (scan_story env) (take (suc limit) rows),
          length-take (suc limit) rows,
        )),
      )

  pub page-IsPage : IsPage env limit db (page limit listed).0 (page limit listed).1
  unfolding page
  page-IsPage = record {
    bounded = page_bounded limit listed;
    visible = page-All limit Shows listed All-shown;
    complete = λ few.
        let (whole, short) = listed-whole few in
        rw (page_short limit listed short, whole)
          (
            λ row i h. IsIn-map (scan_story env) row rows (
                IsIn-Perm row (o.same_rows before (select shown db.stories))
                  (IsIn-select_back shown row db.stories i (rw h refl))),
            refl,
          );
  }

-- If no call of the database fails and ORDER BY rearranges the rows, ListStories returns a page: at
-- most as many stories as the limit, which is between 1 and 100 whatever is asked for; each story
-- is the content of a stored row that is not hidden; and if no more than the limit are visible, all
-- of them are on the page and there is no cursor.
pub list_stories-IsPage :
    (env : Env) (opts : ListOptions) (w : World)
    → IsUp env
    → OrdersStories env
    → (stories : List Story) × (cursor : String) × ((list_stories env opts w).0
        ≡ ok (stories, cursor))
      × (1 ≤ clamp_limit opts.limit)
      × (clamp_limit opts.limit ≤ 100)
      × IsPage env (clamp_limit opts.limit) w.db stories cursor
unfolding list_stories ◌>>=◌ query
list_stories-IsPage env opts w up o =
    let before = order_by env opts.sort (env.now w.step) in
    let bounds = clamp_limit_bounds opts.limit in
    (
      _,
      _,
      rw (up (w.step + 1)) refl,
      bounds.0,
      bounds.1,
      page-IsPage env o before (clamp_limit opts.limit) w.db,
    )
