-- ===== src/Api/Limited.antt =====
-- What the handlers of posts answer when the limiter refuses.
use slashclaw.Prelude.{
  ◌+◌, ap, Bool, String, true, false, not, Option, some, ◌≡◌, refl, ℤ, pos, leb_ℤ, ltb_ℤ, ◌-ℤ◌,
  quot, if◌then◌else◌,
}
use slashclaw.Env.{Env}
use slashclaw.Exec.{Bucket, World, Exec, ok, err, pure, fail_if, ◌>>=◌, ◌>>◌}
use slashclaw.Config.{Config}
use slashclaw.Ratelimit.{
  lookup, is_over, allow_bucket, store_bucket, allow_at, retry_of, retry_after_at, allow,
  retry_after,
}
use slashclaw.Store.Models.{second}
use slashclaw.Api.Http.{
  Request, Response, Handler, rate_key, check_rate_limit, write_rate_limited, reply, error_response,
}
use slashclaw.Api.Stories.{CreateStoryRequest, create_story}
use slashclaw.Api.Comments.{CreateCommentRequest, create_comment}
use slashclaw.Api.Votes.{CreateVoteRequest, create_vote}

-- The bucket of a request is full and its window runs.
pub record IsFull (env : Env) (r : Request) (action : String) (limit : ℤ) (w : World) : Type 0 where
  pub bucket : Bucket
  pub held : lookup (rate_key r action) w.buckets ≡ some bucket
  pub runs : is_over (env.now w.step) bucket ≡ false
  pub full : leb_ℤ limit (pos bucket.count) ≡ true

-- The whole seconds that are left of the window at the second reading of the clock, 0 if it has ended.
abbrev pub wait :
    {env : Env} {r : Request} {action : String} {limit : ℤ} {w : World}
    → IsFull env r action limit w
    → ℤ
wait {env} {w = w} h =
    if ltb_ℤ h.bucket.reset_time (env.now (w.step + 1))
    then pos 0
    else quot (h.bucket.reset_time -ℤ env.now (w.step + 1)) 1000000000

-- The answer: 429, with the seconds in the body, and as a code point in the header.
abbrev pub too_many : ℤ → Response
too_many seconds = reply 429 (some seconds) (error_response "rate limit exceeded" seconds)

quot-left :
    (b : Bool) (x : ℤ)
    → quot (if b then pos 0 else x) second ≡ (if b then pos 0 else quot x 1000000000)
unfolding quot
quot-left true x = refl
quot-left false x = refl

module _ (env : Env) (cfg : Config) where
  check_rate_limit-full :
      {E : Type 0} (r : Request) (action : String) (limit : ℤ) (w : World)
      (h : IsFull env r action limit w)
      → check_rate_limit env {E = E} cfg r action limit w
        ≡ (ok (false, wait h), record w { step = w.step + 1 + 1 })
  unfolding check_rate_limit allow retry_after allow_at retry_after_at allow_bucket store_bucket
      retry_of pure ◌>>=◌
  check_rate_limit-full r action limit w h =
      rw (h.held, h.runs, h.full)
        (rw h.held (
          ap (λ (x : ℤ). (ok (false, x), record w { step = w.step + 1 + 1 }))
            (quot-left (ltb_ℤ h.bucket.reset_time (env.now (w.step + 1)))
              (h.bucket.reset_time -ℤ env.now (w.step + 1)))))

  limited :
      {A : Type 0} (r : Request) (action : String) (limit : ℤ) (w : World)
      (h : IsFull env r action limit w) (rest : Exec Response A)
      → (check_rate_limit env cfg r action limit
            >>= (λ rate. fail_if (not rate.0) (write_rate_limited rate.1) >> rest))
          w
        ≡ (err (write_rate_limited (wait h)), record w { step = w.step + 1 + 1 })
  unfolding ◌>>=◌ fail_if
  limited r action limit w h rest = rw (check_rate_limit-full r action limit w h) refl

-- A post of one of the three kinds, with its handler, its name for the limiter and its limit.
pub data Post : Type 0 where
  story : Option CreateStoryRequest → Post
  comment : Option CreateCommentRequest → Post
  vote : Option CreateVoteRequest → Post

abbrev pub post_handler : Env → Config → Post → Request → Handler
post_handler env cfg (story body) r = create_story env cfg r body
post_handler env cfg (comment body) r = create_comment env cfg r body
post_handler env cfg (vote body) r = create_vote env cfg r body

abbrev pub action_of : Post → String
action_of (story body) = "story"
action_of (comment body) = "comment"
action_of (vote body) = "vote"

abbrev pub limit_of : Config → Post → ℤ
limit_of cfg (story body) = cfg.story_rate_limit
limit_of cfg (comment body) = cfg.comment_rate_limit
limit_of cfg (vote body) = cfg.vote_rate_limit

-- While the bucket of a request for its kind of post is full and the window runs: CreateStory,
-- CreateComment and CreateVote answer 429 with the seconds that are left of the window, whatever
-- the body, and change neither the tables nor the buckets.
pub post_handler-IsFull :
    (env : Env) (cfg : Config) (post : Post) (r : Request) (w : World)
    → (h : IsFull env r (action_of post) (limit_of cfg post) w)
    → post_handler env cfg post r w ≡ (err (too_many (wait h)), record w { step = w.step + 1 + 1 })
unfolding create_story create_comment create_vote
post_handler-IsFull env cfg (story body) r w h =
    limited env cfg r "story" cfg.story_rate_limit w h _
post_handler-IsFull env cfg (comment body) r w h =
    limited env cfg r "comment" cfg.comment_rate_limit w h _
post_handler-IsFull env cfg (vote body) r w h = limited env cfg r "vote" cfg.vote_rate_limit w h _
