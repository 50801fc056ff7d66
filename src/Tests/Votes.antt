-- ===== src/Tests/Votes.antt =====
-- Votes on the test data.
use slashclaw.Prelude.{List, [], ◌∷◌, String, some, none, ℤ, pos, ◌≡◌, refl, map}
use slashclaw.Exec.Triple.{Triple}
use slashclaw.Api.Votes.Others.{Votable}
use slashclaw.Api.Votes.Ballot.{create_vote-Votable}
use slashclaw.Api.Http.{context_agent}
use slashclaw.Prelude.{Option, negsuc, ◌⊎◌, ◌==◌, false}
use slashclaw.Exec.{World}
use slashclaw.Auth.{hash_ip}
use slashclaw.Store.Rows.{VoteRow}
use slashclaw.Store.Ballots.{OneVote}
use slashclaw.Api.Votes.Cast.{HasVote, create_vote-HasVote}
use slashclaw.Api.Http.{Request, no_context, client_ip}
use slashclaw.Server.Ballots.{run-OneVote}
use slashclaw.Exec.{◌>>=◌}
use slashclaw.Api.Votes.{CreateVoteRequest}
use slashclaw.Api.Http.{require_auth}
use slashclaw.Api.Votes.{create_vote}
use slashclaw.Store.Stories.{get_story, update_story_score}
use slashclaw.Store.Votes.{get_vote, create_vote as store_vote, update_vote}
use slashclaw.Store.Sessions.{get_token}
use slashclaw.Store.Tally.{tally, Tallied}
use slashclaw.Server.{Event, request, post_vote, run}
use slashclaw.Server.Tally.{run-Tallied}
use slashclaw.Tests.Setup.{test_env, test_config, test-IsUp, test_scans, plain, start}

abbrev upvote : CreateVoteRequest
upvote = record { target_type = "story"; target_id = "s1"; value = pos 1 }

abbrev vote_events : List Event
vote_events = request plain (post_vote (some upvote)) ∷ request plain (post_vote (some upvote)) ∷ []

-- A vote that is repeated counts once.
score_after_votes :
    map (λ s. s.score) (run test_env test_config vote_events start).db.stories ≡ pos 1 ∷ []
unfolding run require_auth create_vote get_story update_story_score get_vote store_vote update_vote
    get_token ◌>>=◌ slashclaw.Prelude.◌+ℤ◌
score_after_votes = refl

run-Tallied_example : Tallied (run test_env test_config vote_events start).db
unfolding tally
run-Tallied_example =
    run-Tallied test_env test_config vote_events start test-IsUp test_scans (record {
      vote_ids = tt;
      on_stories = tt;
      on_comments = tt;
      story_scores = (refl, tt);
      comment_scores = tt;
    })

create_vote-Votable_example :
    Triple
      (λ d. d ≡ start.db)
      (create_vote test_env test_config plain (some upvote))
      (λ answer d.
        (req : CreateVoteRequest) × (◌≡◌ {A = Option CreateVoteRequest} (some upvote) (some req))
        × ((req.value ≡ pos 1) ⊎ (req.value ≡ negsuc 0))
        × Votable (context_agent plain) req start.db)
      (λ _ d. d ≡ start.db)
create_vote-Votable_example =
    create_vote-Votable test_env test_config start.db plain (some upvote) test-IsUp

-- Bob has voted for the story.
abbrev vote_of : String → VoteRow
vote_of agent = record {
  id = "v1";
  target_type = "story";
  target_id = "s1";
  value = pos 1;
  created_at = pos 1600000000000000000;
  ip_hash = none;
  agent_id = some agent;
  agent_verified = 1;
}

abbrev voted : World
voted = record start { db = record start.db { votes = vote_of "bob" ∷ vote_of "carl" ∷ [] } }

abbrev downvote : CreateVoteRequest
downvote = record upvote { value = negsuc 0 }

abbrev downvotes : List Event
downvotes =
    request plain (post_vote (some downvote)) ∷ request plain (post_vote (some downvote)) ∷ []

run-OneVote_example : OneVote (run test_env test_config downvotes voted).db.votes
run-OneVote_example = run-OneVote test_env test_config downvotes voted test_scans (refl, (refl, tt))

abbrev by_bob : Request
by_bob = record plain { context = record no_context { agent_id = some "bob" } }

bob_known : (context_agent by_bob == "") ≡ false
unfolding context_agent
bob_known = refl

create_vote-HasVote_example :
    Triple
      (λ _. Unit)
      (create_vote test_env test_config by_bob (some downvote))
      (λ answer db.
        (req : CreateVoteRequest) × (◌≡◌ {A = Option CreateVoteRequest} (some downvote) (some req))
        × HasVote req.target_type req.target_id
            (hash_ip test_env (client_ip by_bob))
            (context_agent by_bob)
            req.value
            db.votes)
      (λ _ _. Unit)
create_vote-HasVote_example =
    create_vote-HasVote test_env test_config by_bob (some downvote) test_scans bob_known
