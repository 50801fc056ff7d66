-- ===== src/Api/Links.antt =====
-- The check of a link in `CreateStory`, and what the proofs about that handler share.
use mathlib.Core.Option
use mathlib.Core.Option.{some-injective}
use slashclaw.Prelude.{
  ap, ℕ, ◌≤◌, ◌+◌, ◌≤ℤ◌, ltb_ℤ→ge, any-IsIn, String, Bool, true, false, Option, some, none, List,
  [], ◌∷◌, ◌≡◌, refl, ◌∙◌, subst, ℤ, ◌-ℤ◌, ltb_ℤ, any, first, select, arith, IsIn, Permᴰ,
  length-Perm, length, Bool-cases, inl, inr,
}
use slashclaw.Env.{Env}
use slashclaw.Env.Laws.{OrdersStories}
use slashclaw.Exec.{World, ok, now, pure, on_err, ◌>>=◌}
use slashclaw.Exec.Keeps.{Keeps-same}
use text.Mathlib.TextPositions.{eq_refl}
use slashclaw.Api.Http.{database_error}
use slashclaw.Store.Sql.{query}
use slashclaw.Exec.Clocked.{
  TripleW, TripleW-test, TripleW-bind, TripleW-fact, TripleW-post, TripleW-steps, bind-step,
}
use slashclaw.Exec.Triple.{Triple, Triple-read, Triple-bind, Triple-on_err}
use slashclaw.Config.{Config}
use slashclaw.Store.Models.{Story}
use slashclaw.Store.Rows.{StoryRow, Db}
use slashclaw.Store.Triples.{ok_injective, query_found}
use slashclaw.Store.Keeps.{find_story_by_url-Keeps}
use slashclaw.Store.Stories.{scan_story, is_recent, newest_first, find_story_by_url}
use slashclaw.Api.Stories.{CreateStoryRequest, refuse_existing, check_url}

-- The link is a valid one, and each visible story that has it is older than the window.
pub record NewLink (env : Env) (cfg : Config) (url : String) (time : ℤ) (db : Db) : Type 0 where
  pub parses : env.parse_request_uri url ≡ true
  pub is_new :
      (row : StoryRow)
      → IsIn row db.stories
      → row.url ≡ some url
      → row.hidden ≡ 0
      → row.created_at ≤ℤ time -ℤ cfg.duplicate_window

-- Every story of the agent is at least as old as the pause.
pub record Rested (cfg : Config) (agent : String) (time : ℤ) (db : Db) : Type 0 where
  pub is_rested :
      (row : StoryRow)
      → IsIn row db.stories
      → row.agent_id ≡ some agent
      → cfg.post_cooldown ≤ℤ time -ℤ row.created_at

not_recent :
    (url : String) (since : ℤ) (stories : List StoryRow)
    → any (is_recent url since) stories ≡ false
    → (row : StoryRow) → IsIn row stories
    → row.url ≡ some url
    → row.hidden ≡ 0
    → row.created_at ≤ℤ since
not_recent url since stories free row i named seen =
    elim (Bool-cases (ltb_ℤ since row.created_at)) [
      | inl young ↦ absurd (
          cc (
            free,
            any-IsIn (is_recent url since) row stories i
                (rw (named, eq_refl url, young, seen) refl),
          ))
      | inr old ↦ ltb_ℤ→ge since row.created_at old
    ]

some_selected :
    (p : StoryRow → Bool) (xs : List StoryRow) → any p xs ≡ true → 1 ≤ length (select p xs)
some_selected p [] h = absurd ground arith
some_selected p (x ∷ xs) h = ground (arith, some_selected p xs)

-- a query that finds no row
none_found :
    {A : Type 0} (f : StoryRow → A) (p : StoryRow → Bool) (rows stories : List StoryRow)
    → Permᴰ (select p stories) rows
    → Option.map f (first rows) ≡ none
    → any p stories ≡ false
none_found f p [] stories k e = elim (Bool-cases (any p stories)) [
  | inl there ↦ absurd (omega (arith, some_selected p stories there, length-Perm k))
  | inr nowhere ↦ nowhere
]
none_found f p (r ∷ rs) stories k e = cc

refuse_existing-step :
    (found : Option Story) (w : World) → (refuse_existing found w).1.step ≡ w.step
unfolding refuse_existing pure ◌>>=◌
refuse_existing-step none w = refl
refuse_existing-step (some s) w = refl

find-step :
    (env : Env) (url : String) (since : ℤ) (w : World)
    → (on_err database_error (find_story_by_url env url since) w).1.step ≡ w.step + 1
unfolding find_story_by_url query ◌>>=◌
find-step env url since w = ground arith

-- a reading of the clock
pub now-reads :
    (env : Env) (db : Db) (n : ℕ) {E : Type 0} {X : E → Db → Type 0}
    → TripleW
        (λ w. (w.db ≡ db) × (w.step ≡ n))
        (now env)
        (λ time w. ((w.db ≡ db) × (w.step ≡ n + 1)) × (time ≡ env.now n))
        X
unfolding now
now-reads env db n = record { at = λ w h. ((h.0, ap (λ i. i + 1) h.1), ap env.now h.1) }

module _ (env : Env) (cfg : Config) (o : OrdersStories env) (db : Db) where
  Unseen : String → ℤ → Option Story → Db → Type 0
  Unseen url since found d =
      (d ≡ db) × (found ≡ none → any (is_recent url since) db.stories ≡ false)

  find-Unseen :
      (url : String) (since : ℤ)
      → Triple (λ d. d ≡ db) (find_story_by_url env url since) (Unseen url since) (λ _ d. d ≡ db)
  unfolding find_story_by_url Unseen
  find-Unseen url since =
      Triple-read _ _ _ _ (Keeps-same _ (λ Q. find_story_by_url-Keeps env {Q = Q} url since))
        (λ w found h e. (
          h,
          λ nothing.
              let rows =
                env.order_stories newest_first (select (is_recent url since) w.db.stories) in
              subst (λ d. any (is_recent url since) d.stories ≡ false) h
                (none_found (scan_story env) (is_recent url since) rows w.db.stories
                  (o.same_rows newest_first (select (is_recent url since) w.db.stories))
                  (ok_injective (
                      query_found env
                        (λ d. ok (
                          Option.map (scan_story env) (
                            first (
                              env.order_stories newest_first
                                (select (is_recent url since) d.stories)))))
                        w found e)
                    ∙ nothing)),
        ))
        (λ w e h x. h)

  refuse_existing-Unseen :
      (url : String) (since : ℤ) (found : Option Story)
      → Triple
          (Unseen url since found)
          (refuse_existing found)
          (λ _ d. (d ≡ db) × (any (is_recent url since) db.stories ≡ false))
          (λ _ d. d ≡ db)
  unfolding refuse_existing Unseen pure ◌>>=◌
  refuse_existing-Unseen url since none = record { at = λ w h. (h.0, h.1 refl) }
  refuse_existing-Unseen url since (some s) = record { at = λ w h. h.0 }

  -- from the reading of the clock on
  check_new :
      (req : CreateStoryRequest) (time : ℤ)
      → Triple
          (λ d. d ≡ db)
          (on_err database_error (find_story_by_url env req.url (time -ℤ cfg.duplicate_window))
            >>= refuse_existing)
          (λ _ d.
            (d ≡ db) × (any (is_recent req.url (time -ℤ cfg.duplicate_window)) db.stories ≡ false))
          (λ _ d. d ≡ db)
  check_new req time =
      Triple-bind _ (Triple-on_err _ _ (find-Unseen req.url (time -ℤ cfg.duplicate_window)))
        λ found. refuse_existing-Unseen req.url (time -ℤ cfg.duplicate_window) found

  check_new-step :
      (url : String) (since : ℤ) (w : World)
      → ((on_err database_error (find_story_by_url env url since) >>= refuse_existing) w).1.step
        ≡ w.step + 1
  check_new-step url since w =
      bind-step (on_err database_error (find_story_by_url env url since)) refuse_existing w
        refuse_existing-step
      ∙ find-step env url since w

  -- The link is new at the first reading of the clock.
  pub check_url-NewLink :
      (req : CreateStoryRequest) (n : ℕ)
      → TripleW
          (λ w. (w.db ≡ db) × (w.step ≡ n))
          (check_url env cfg req)
          (λ _ w. ((w.db ≡ db) × NewLink env cfg req.url (env.now n) db) × (w.step ≡ n + 1 + 1))
          (λ _ d. d ≡ db)
  unfolding check_url
  check_url-NewLink req n =
      TripleW-test (λ w h. h.0) _ _ _
        λ parses. TripleW-bind _ (now-reads env db n) λ time. TripleW-fact _ λ reading.
          TripleW-post _
            (λ _ w h. (
              (
                h.0.0,
                record {
                  parses = ground (arith, parses);
                  is_new = not_recent req.url (env.now n -ℤ cfg.duplicate_window) db.stories (
                      subst
                        (λ t.
                          any (is_recent req.url (t -ℤ cfg.duplicate_window)) db.stories ≡ false)
                        reading h.0.1);
                },
              ),
              h.1,
            ))
            (TripleW-steps (n + 1) 1 (check_new req time) (check_new-step req.url _))
