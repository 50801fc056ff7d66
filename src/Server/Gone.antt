-- ===== src/Server/Gone.antt =====
-- A hidden story in the views, over a run of the server.
use slashclaw.Prelude.{
  String, false, Option, some, none, List, ◌≡◌, refl, ◌∙◌, ap, ◌==◌, any-IsIn, All, All-map, IsIn,
  ◌⊎◌, ◌+◌, inl, inr, Bool-cases,
}
use slashclaw.Env.{Env}
use slashclaw.Env.Laws.{OrdersStories}
use slashclaw.Exec.{World, Exec, Result, ok, err, or_fail, fail_if, on_err, ◌>>=◌}
use slashclaw.Exec.Keeps.{Keeps-same}
use slashclaw.Exec.Triple.{Post, Triple, Triple-read, Triple-bind, Triple-on_err, Triple-fact}
use slashclaw.Config.{Config}
use slashclaw.Store.Models.{Story, ListOptions}
use slashclaw.Store.Rows.{StoryRow, Db}
use slashclaw.Store.Sql.{Error, query}
use slashclaw.Store.Keeps.{get_story-Keeps}
use slashclaw.Store.Found.{story_at}
use slashclaw.Store.Hidden.{HiddenStory}
use slashclaw.Store.Stories.{is_visible, scan_story, get_story, list_stories, order_by, clamp_limit}
use slashclaw.Store.Listing.{page-IsPage}
use slashclaw.Api.Http.{Request, write_error, database_error}
use slashclaw.Api.Stories.{get_story_handler}
use slashclaw.Api.Comments.{list_comments_handler}
use slashclaw.Web.{server_error, not_found, story_page}
use slashclaw.Server.{Event, run}
use slashclaw.Server.Hidden.{run-HiddenStory}

-- An early answer of one of two kinds.
abbrev pub Fails : {E A : Type 0} → E → (Error → E) → Result E A → Type 0
Fails missing broken (ok a) = ⊥
Fails missing broken (err e) = (e ≡ missing) ⊎ ((x : Error) × (e ≡ broken x))

-- The stories of a page have other identifiers.
abbrev pub Without : String → Result Error (List Story × String) → Type 0
Without id (ok page) = All (λ s. (s.id == id) ≡ false) page.0
Without id (err e) = Unit

must_none : {A : Type 0} (o : Option A) → ((a : A) → o ≡ some a → ⊥) → o ≡ none
must_none none k = refl
must_none (some a) k = absurd (k a refl)

-- The early answer of a handler that never reaches its end.
to_fail :
    {E A : Type 0} (missing : E) (broken : Error → E) (r : Result E A) (db : Db)
    → Post (λ _ _. ⊥) (λ e _. (e ≡ missing) ⊎ ((x : Error) × (e ≡ broken x))) r db
    → Fails missing broken r
to_fail missing broken (ok a) db h = h
to_fail missing broken (err e) db h = h

module _ (env : Env) (id : String) where
  unseen_here :
      (w : World) (s : Story) → HiddenStory id w.db → (get_story env id w).0 ≡ ok (some s) → ⊥
  unseen_here w s h e =
      let (row, i, seen, same) = story_at env id w s e in
      cc (any-IsIn (is_visible id) row w.db.stories i seen, h.is_unseen)

  get_story-none :
      (X : Error → Type 0)
      → ((e : Error) → X e)
      → Triple (HiddenStory id) (get_story env id) (λ o _. Unit × (o ≡ none)) (λ e _. X e)
  get_story-none X broken =
      Triple-read _ _ _ _ (Keeps-same _ (λ Q. get_story-Keeps env {Q = Q} id))
        (λ w o h e. (tt, must_none o λ s q. unseen_here w s h (e ∙ ap ok q))) (λ w e h x. broken e)

  module _ {E A : Type 0} (missing : E) (f : Story → Exec E A) where
    none-stops :
        (X : E → Type 0) (o : Option Story)
        → X missing
        → Triple (λ _. Unit × (o ≡ none)) (or_fail o missing >>= f) (λ _ _. ⊥) (λ e _. X e)
    unfolding ◌>>=◌
    none-stops X o m = Triple-fact _ λ gone. rw gone (record { at = λ w h. m })

  -- A handler that looks for the story first.
  stops :
      {E A : Type 0} (missing : E) (broken : Error → E) (f : Story → Exec E A) (w : World)
      → HiddenStory id w.db
      → Fails missing broken
          ((on_err broken (get_story env id) >>= (λ o. or_fail o missing >>= f)) w).0
  stops missing broken f w h = to_fail missing broken _ _ (
      (Triple-bind _ (Triple-on_err _ broken (get_story-none _ (λ e. inr (e, refl))))
          (λ o. none-stops missing f _ o (inl refl))).at
        w h)

  other_row :
      (db : Db) (s : Story) (row : StoryRow)
      → IsIn row db.stories
      → row.hidden ≡ 0
      → s ≡ scan_story env row
      → HiddenStory id db
      → (s.id == id) ≡ false
  unfolding scan_story
  other_row db s row i z e h = elim (Bool-cases (row.id == id)) [
    | inl same ↦ cc (any-IsIn (is_visible id) row db.stories i (rw (same, z) refl), h.is_unseen)
    | inr other ↦ rw e other
  ]

  list_stories-Without :
      (opts : ListOptions) (w : World)
      → OrdersStories env
      → HiddenStory id w.db
      → Without id (list_stories env opts w).0
  unfolding list_stories query ◌>>=◌
  list_stories-Without opts w o h = elim (Bool-cases (env.down (w.step + 1))) [
    | inl down ↦ rw down tt
    | inr up ↦ rw up (
        All-map _ _ _ (λ s (row, i, z, e). other_row w.db s row i z e h)
          (page-IsPage env o (order_by env opts.sort (env.now w.step)) (clamp_limit opts.limit)
            w.db).visible)
  ]

views_fail :
    (env : Env) (cfg : Config) (r : Request) (w : World)
    → (r.path_id == "") ≡ false
    → HiddenStory r.path_id w.db
    → Fails (write_error 404 "story not found") database_error (get_story_handler env cfg r w).0
      × Fails
          (write_error 404 "story not found")
          database_error
          (list_comments_handler env cfg r w).0
      × Fails not_found server_error (story_page env cfg r w).0
unfolding get_story_handler list_comments_handler story_page fail_if ◌>>=◌
views_fail env cfg r w named h = (
  rw named (stops env r.path_id _ _ _ w h),
  rw named (stops env r.path_id _ _ _ w h),
  rw named (stops env r.path_id _ _ _ w h),
)

-- A hidden story is gone for good. From a state in which a story is stored and hidden, after any
-- list of requests, whichever calls of the database fail: a request for the story, for its comments
-- or for its page is answered by 'not found', or by the error of a call of the database that
-- failed, and no list of stories has it, in whatever order and up to whatever limit (ORDER BY
-- rearranges the rows).
pub hidden_gone :
    (env : Env) (cfg : Config) (events : List Event) (w : World) (r : Request) (opts : ListOptions)
    → OrdersStories env
    → (r.path_id == "") ≡ false
    → HiddenStory r.path_id w.db
    → Fails
        (write_error 404 "story not found")
        database_error
        (get_story_handler env cfg r (run env cfg events w)).0
      × Fails
          (write_error 404 "story not found")
          database_error
          (list_comments_handler env cfg r (run env cfg events w)).0
      × Fails not_found server_error (story_page env cfg r (run env cfg events w)).0
      × Without r.path_id (list_stories env opts (run env cfg events w)).0
hidden_gone env cfg events w r opts o named h =
    let later = run-HiddenStory env cfg events w r.path_id h in
    let (story, comments, shown) = views_fail env cfg r (run env cfg events w) named later in
    (story, comments, shown, list_stories-Without env r.path_id opts _ o later)
