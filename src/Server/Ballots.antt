-- ===== src/Server/Ballots.antt =====
-- The votes of a voter on a target, over a run of the server. The unique index of the table tells apart
-- votes that differ in the address or in the agent, so it does not limit them by itself.
use slashclaw.Prelude.{Option, List}
use slashclaw.Env.{Env}
use slashclaw.Env.Laws.{ScansVotes}
use slashclaw.Exec.{World}
use slashclaw.Exec.Keeps.{Keeps, keeps_rules}
use slashclaw.Config.{Config}
use slashclaw.Store.Keeps.{read_rules}
use slashclaw.Store.Ballots.{OneVote}
use slashclaw.Store.Ballots.Writes.{One, One-OfVotes, OfVotes-OfContent, unvoted_writes}
use slashclaw.Api.Http.{Request}
use slashclaw.Api.Keeps.{
  check_rate_limit-Keeps, check_url-Keeps, check_cooldown-Keeps, check_parent-Keeps,
}
use slashclaw.Api.Stories.{CreateStoryRequest, create_story}
use slashclaw.Api.Comments.{CreateCommentRequest, create_comment}
use slashclaw.Api.Admin.{HideRequest, hide_visible_story, hide_visible_comment, hide}
use slashclaw.Api.Votes.One.{create_vote-One}
use slashclaw.Server.{Event, run}
use slashclaw.Server.Invariants.{content_run}

module _ (env : Env) (cfg : Config) where
  create_story-One :
      (r : Request) (body : Option CreateStoryRequest) → Keeps One (create_story env cfg r body)
  unfolding create_story
  create_story-One r body =
      search
        (
          keeps_rules, check_rate_limit-Keeps, check_url-Keeps, check_cooldown-Keeps,
          unvoted_writes, One-OfVotes,
        )
        depth 12

  create_comment-One :
      (r : Request) (body : Option CreateCommentRequest) → Keeps One (create_comment env cfg r body)
  unfolding create_comment
  create_comment-One r body =
      search (read_rules, check_rate_limit-Keeps, check_parent-Keeps, unvoted_writes, One-OfVotes)
        depth 14

  hide-One : (r : Request) (body : Option HideRequest) → Keeps One (hide env cfg r body)
  unfolding hide hide_visible_story hide_visible_comment
  hide-One r body = search (read_rules, unvoted_writes, One-OfVotes) depth 12

-- From a state in which no two votes on the same target are from the same address or by the same
-- agent (an address or agent that is not known is not the same as any): if queries for votes find
-- the stored ones, this holds again after any list of requests, whichever calls of the database
-- fail.
pub run-OneVote :
    (env : Env) (cfg : Config) (events : List Event) (w : World)
    → ScansVotes env
    → OneVote w.db.votes
    → OneVote (run env cfg events w).db.votes
run-OneVote env cfg events w scans h =
    content_run env cfg
      (record {
        of_content = OfVotes-OfContent One-OfVotes;
        story = create_story-One env cfg;
        comment = create_comment-One env cfg;
        vote = create_vote-One env cfg scans;
        hidden = hide-One env cfg;
      })
      events w h
