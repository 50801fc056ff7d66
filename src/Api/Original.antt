-- ===== src/Api/Original.antt =====
-- `CreateStory`: no link twice, and a pause between two stories of an agent.
use mathlib.Core.Option
use mathlib.Core.Option.{some-injective}
use slashclaw.Prelude.{
  ℕ, ◌+◌, ◌≤ℤ◌, ltb_ℤ→ge, String, Bool, true, false, not, Option, some, none, List, [], ◌∷◌, ◌≡◌,
  refl, sym, ◌∙◌, subst, ℤ, ◌-ℤ◌, ltb_ℤ, leb_ℤ, ◌==◌, first, select, arith, All-IsIn, IsIn-Perm,
  IsIn, IsSorted, Bool-cases, inl, inr, -ℤ_parts, ap, pos, quot, if◌then◌else◌,
}
use slashclaw.Env.{Env}
use slashclaw.Env.Laws.{IsUp, OrdersStories}
use slashclaw.Exec.{Exec, World, ok, when, fail, pure, on_err, ◌>>=◌}
use slashclaw.Exec.Keeps.{Keeps-same}
use slashclaw.Exec.Triple.{Triple, Triple-read, Triple-on_err}
use slashclaw.Config.{Config}
use slashclaw.Store.Models.{Story, second}
use slashclaw.Store.Rows.{StoryRow, Db}
use slashclaw.Store.Triples.{ok_injective, query_found}
use slashclaw.Store.Keeps.{get_last_story_by_agent-Keeps}
use slashclaw.Store.Stories.{scan_story, by_agent, newest_first, get_last_story_by_agent}
use slashclaw.Store.Top.{newest_first-IsOrder}
use slashclaw.Store.Listing.{IsIn-select_back}
use slashclaw.Api.Http.{
  Request, Response, context_agent, database_error, check_rate_limit, rate_key,
}
use slashclaw.Ratelimit.{allow, retry_after}
use slashclaw.Api.Posting.{store_story-Stored}
use slashclaw.Api.Stories.{
  CreateStoryRequest, has_url, check_age, check_last, check_cooldown, create_story,
}
use slashclaw.Api.Links.{NewLink, Rested, now-reads, check_url-NewLink}
use text.Mathlib.TextPositions.{eq_refl}
use slashclaw.Store.Sql.{query}
use slashclaw.Exec.Clocked.{
  TripleW, TripleW-test, TripleW-given, TripleW-bind, TripleW-fact, TripleW-post, TripleW-pre,
  TripleW-steps, TripleW-Triple,
}

module _ (env : Env) (cfg : Config) (o : OrdersStories env) (db : Db) where
  -- The story that was found is the agent's last: none of its stories is newer.
  IsLast : String → Option Story → Type 0
  IsLast agent found =
      (row : StoryRow)
      → IsIn row db.stories
      → by_agent agent row ≡ true
      → (s : Story) × (found ≡ some s) × (leb_ℤ row.created_at s.created_at ≡ true)

  first_newest :
      (row : StoryRow) (rows : List StoryRow)
      → IsIn row rows
      → IsSorted newest_first rows
      → (s : Story) × (Option.map (scan_story env) (first rows) ≡ some s)
        × (leb_ℤ row.created_at s.created_at ≡ true)
  unfolding scan_story
  first_newest row [] i sorted = absurd i
  first_newest row (r ∷ rs) (inl e) sorted = (scan_story env r, refl, rw e (ground arith))
  first_newest row (r ∷ rs) (inr i) sorted =
      (scan_story env r, refl, All-IsIn (λ x. newest_first r x ≡ true) row rs sorted.0 i)

  get_last_story_by_agent-IsLast :
      (agent : String)
      → Triple
          (λ d. d ≡ db)
          (get_last_story_by_agent env agent)
          (λ found d. (d ≡ db) × IsLast agent found)
          (λ _ d. d ≡ db)
  unfolding get_last_story_by_agent IsLast
  get_last_story_by_agent-IsLast agent =
      Triple-read _ _ _ _ (Keeps-same _ (λ Q. get_last_story_by_agent-Keeps env {Q = Q} agent))
        (λ w found h e. (
          h,
          λ row i q.
              let chosen = select (by_agent agent) w.db.stories in
              let (s, is_found, older) =
                first_newest row (env.order_stories newest_first chosen)
                  (IsIn-Perm row (o.same_rows newest_first chosen) (
                    IsIn-select_back (by_agent agent) row w.db.stories
                      (subst (λ d. IsIn row d.stories) (sym h) i) q))
                  (o.sorted newest_first chosen newest_first-IsOrder) in
              (
                s,
                sym (
                      ok_injective (
                        query_found env
                          (λ d. ok (
                            Option.map (scan_story env) (
                              first (
                                env.order_stories newest_first
                                  (select (by_agent agent) d.stories)))))
                          w found e))
                    ∙ is_found,
                older,
              ),
        ))
        (λ w e h x. h)

  rested :
      (agent : String) (time : ℤ) (found : Option Story)
      → IsLast agent found
      → ((s : Story) → found ≡ some s → ltb_ℤ (time -ℤ s.created_at) cfg.post_cooldown ≡ false)
      → Rested cfg agent time db
  unfolding IsLast
  rested agent time found last old = record {
    is_rested = λ row i q.
        let (t, same, older) = last row i (rw q (eq_refl agent)) in
        let aged = ltb_ℤ→ge (time -ℤ t.created_at) cfg.post_cooldown (old t same) in
        let later : row.created_at ≤ℤ t.created_at = ground arith in
        omega (arith, aged, later, -ℤ_parts time t.created_at, -ℤ_parts time row.created_at);
  }

  check_age-old :
      (time : ℤ) (s : Story) (n : ℕ) (found : Option Story)
      → found ≡ some s
      → TripleW
          (λ w. (w.db ≡ db) × (w.step ≡ n))
          (check_age cfg time s)
          (λ _ w.
            (w.db ≡ db)
            × ((t : Story)
                → found ≡ some t
                → ltb_ℤ (time -ℤ t.created_at) cfg.post_cooldown ≡ false))
          (λ _ d. d ≡ db)
  unfolding check_age fail pure
  check_age-old time s n found is =
      elim (Bool-cases (ltb_ℤ (time -ℤ s.created_at) cfg.post_cooldown)) [
        | inl young ↦ rw young (record { at = λ w h. h.0 })
        | inr old ↦ rw old (record {
          at = λ w h. (
            h.0,
            λ t e.
                subst (λ (x : Story). ltb_ℤ (time -ℤ x.created_at) cfg.post_cooldown ≡ false)
                  (some-injective _ _ (sym is ∙ e)) old,
          );
        })
      ]

  check_last-Rested :
      (agent : String) (n : ℕ) (found : Option Story)
      → IsLast agent found
      → TripleW
          (λ w. (w.db ≡ db) × (w.step ≡ n))
          (check_last env cfg found)
          (λ _ w. (w.db ≡ db) × Rested cfg agent (env.now n) db)
          (λ _ d. d ≡ db)
  unfolding check_last pure
  check_last-Rested agent n none last = record {
    at = λ w h. (h.0, rested agent (env.now n) none last (λ s e. cc));
  }
  check_last-Rested agent n (some s) last = TripleW-bind _ (now-reads env db n) λ time.
      TripleW-fact _ λ reading.
        TripleW-post _
          (λ _ w h. (
            h.0,
            rested agent (env.now n) (some s) last (λ t e.
                subst (λ x. ltb_ℤ (x -ℤ t.created_at) cfg.post_cooldown ≡ false) reading (h.1 t e)),
          ))
          (check_age-old time s (n + 1) (some s) refl)

  get_last-step :
      (agent : String) (w : World)
      → (on_err database_error (get_last_story_by_agent env agent) w).1.step ≡ w.step + 1
  unfolding get_last_story_by_agent query ◌>>=◌
  get_last-step agent w = ground arith

  -- The pause is over at the reading of the clock that follows the query.
  check_cooldown-Rested :
      (agent : String) (n : ℕ)
      → TripleW
          (λ w. (w.db ≡ db) × (w.step ≡ n))
          (check_cooldown env cfg agent)
          (λ _ w. (w.db ≡ db) × Rested cfg agent (env.now (n + 1)) db)
          (λ _ d. d ≡ db)
  unfolding check_cooldown
  check_cooldown-Rested agent n =
      TripleW-bind _
        (TripleW-steps n 1 (Triple-on_err _ _ (get_last_story_by_agent-IsLast agent))
          (get_last-step agent))
        λ found.
          TripleW-pre _ (λ w h. ((h.0.0, h.1), h.0.1))
            (TripleW-fact _ λ last. check_last-Rested agent (n + 1) found last)

allowed_true : (b : Bool) → not b ≡ false → b ≡ true
allowed_true true h = refl
allowed_true false h = cc

-- the answer at the end
ends :
    {E A : Type 0} {P : World → Type 0} {X : E → Db → Type 0} {K : Type 0} (a : A)
    → K
    → TripleW P (pure a) (λ _ _. K) X
unfolding pure
ends a k = record { at = λ w h. k }

-- The number of draws after the check of the link, if there is one.
abbrev after_link : Bool → ℕ → ℕ
after_link true n = n + 1 + 1
after_link false n = n

-- Which reading of the clock the pause is measured at: the fifth draw of the request with a link,
-- the third without.
abbrev pub pause_reading : Bool → ℕ → ℕ
pause_reading link n = after_link link (n + 1) + 1

module _ (db : Db) where
  At : ℕ → World → Type 0
  At n w = (w.db ≡ db) × (w.step ≡ n)

  link-when :
      (b : Bool) (m : Exec Response Unit) (K : Type 0) (n : ℕ)
      → TripleW (At n) m (λ _ w. ((w.db ≡ db) × K) × (w.step ≡ n + 1 + 1)) (λ _ d. d ≡ db)
      → TripleW (At n) (when b m) (λ _ w. At (after_link b n) w × (b ≡ true → K)) (λ _ d. d ≡ db)
  unfolding when At
  link-when true m K n t = TripleW-post _ (λ _ w h. ((h.0.0, h.1), λ e. h.0.1)) t
  link-when false m K n t = record { at = λ w h. (h, λ e. cc) }

  pause-when :
      (b : Bool) (m : Exec Response Unit) (K : Type 0) (n : ℕ)
      → TripleW (At n) m (λ _ w. (w.db ≡ db) × K) (λ _ d. d ≡ db)
      → TripleW (At n) (when b m) (λ _ w. (w.db ≡ db) × (b ≡ true → K)) (λ _ d. d ≡ db)
  unfolding when At
  pause-when true m K n t = TripleW-post _ (λ _ w h. (h.0, λ e. h.1)) t
  pause-when false m K n t = record { at = λ w h. (h.0, λ e. cc) }

  rate_answer :
      (env : Env) (r : Request) (action : String) (limit window : ℤ) (n : ℕ)
      → TripleW
          (At n)
          (allow env {E = Response} (rate_key r action) limit window)
          (λ _ w. At (n + 1) w)
          (λ _ d. d ≡ db)
  unfolding allow At
  rate_answer env r action limit window n = record { at = λ w h. (h.0, ap (λ i. i + 1) h.1) }

  refused :
      (env : Env) (cfg : Config) (r : Request) (action : String) (allowed : Bool) (n : ℕ)
      → TripleW {E = Response} {A = Bool × ℤ}
          (At n)
          (if allowed then pure {E = Response} (true, pos 0) else do
            wait ← retry_after env (rate_key r action) cfg.rate_limit_window
            pure (false, quot wait second))
          (λ rate w. (w.db ≡ db) × (rate.0 ≡ true → w.step ≡ n))
          (λ _ d. d ≡ db)
  unfolding At ◌>>=◌ retry_after
  refused env cfg r action true n = record { at = λ w h. (h.0, λ e. h.1) }
  refused env cfg r action false n = record { at = λ w h. (h.0, λ e. cc) }

  -- A call that is let through has drawn once.
  check_rate-At :
      (env : Env) (cfg : Config) (r : Request) (action : String) (limit : ℤ) (n : ℕ)
      → TripleW {E = Response}
          (At n)
          (check_rate_limit env cfg r action limit)
          (λ rate w. (w.db ≡ db) × (rate.0 ≡ true → w.step ≡ n + 1))
          (λ _ d. d ≡ db)
  unfolding check_rate_limit
  check_rate-At env cfg r action limit n =
      TripleW-bind _ (rate_answer env r action limit cfg.rate_limit_window n)
        λ allowed. refused env cfg r action allowed (n + 1)

-- If no call of the database fails and ORDER BY sorts the rows, for a request that starts at draw
-- `n`: when CreateStory reaches its end, a link that was given is valid and is that of no visible
-- story younger than the window for duplicates, measured at the clock as draw `n + 1` reads it, and
-- every story of the agent of the request is at least as old as the pause between two posts,
-- measured at the clock as draw `n + 4` reads it, or draw `n + 2` if there is no link; a request
-- that is answered early leaves the tables.
pub create_story-Original :
    (env : Env) (cfg : Config) (db : Db) (n : ℕ) (r : Request) (body : Option CreateStoryRequest)
    → IsUp env
    → OrdersStories env
    → TripleW
        (λ w. (w.db ≡ db) × (w.step ≡ n))
        (create_story env cfg r body)
        (λ _ _.
          (req : CreateStoryRequest) × (body ≡ some req)
          × (has_url req ≡ true → NewLink env cfg req.url (env.now (n + 1)) db)
          × (not (context_agent r == "") ≡ true
              → Rested cfg (context_agent r) (env.now (pause_reading (has_url req) n)) db))
        (λ _ d. d ≡ db)
unfolding create_story At
create_story-Original env cfg db n r body up o =
    TripleW-bind _ (check_rate-At db env cfg r "story" cfg.story_rate_limit n) λ rate.
      TripleW-test (λ w h. h.0) _ _ _
        λ allowed.
          TripleW-pre {P = At db (n + 1)} _ (λ w h. (h.0, h.1 (allowed_true rate.0 allowed)))
            (TripleW-given (λ w h. h.0) _ _ _
              λ req given.
                TripleW-test (λ w h. h.0) _ _ _
                  λ title.
                    TripleW-test (λ w h. h.0) _ _ _
                      λ one.
                        TripleW-bind _
                          (link-when db (has_url req) _ _ (n + 1)
                            (check_url-NewLink env cfg o db req (n + 1)))
                          λ _. TripleW-fact _ λ link.
                            TripleW-test (λ w h. h.0) _ _ _
                              λ tags.
                                TripleW-bind _
                                  (pause-when db _ _ _ (after_link (has_url req) (n + 1)) (
                                    check_cooldown-Rested env cfg o db (context_agent r)
                                      (after_link (has_url req) (n + 1))))
                                  λ _. TripleW-fact _ λ pause.
                                    TripleW-bind _
                                      (TripleW-Triple
                                        (Triple-on_err _ _ (store_story-Stored env up db _)))
                                      λ saved. ends _ (req, given, link, pause))
