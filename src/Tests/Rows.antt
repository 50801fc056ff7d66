-- ===== src/Tests/Rows.antt =====
-- Rows, instants and ranks on the test data.
use slashclaw.Prelude.{[], true, pos, ◌≡◌, refl, ◌+ℤ◌, ◌≤ℤ◌, ◌<ℤ◌}
use slashclaw.Store.Models.{Story, Comment, Vote, Account, Challenge, Token, second}
use slashclaw.Store.Stories.{story_row, scan_story}
use slashclaw.Store.Comments.{comment_row, scan_comment}
use slashclaw.Store.Votes.{vote_row, scan_vote}
use slashclaw.Store.Accounts.{account_row, scan_account}
use slashclaw.Store.Sessions.{is_live_token, is_live_challenge, token_row, challenge_row}
use slashclaw.Store.Roundtrip.{scan-row, expiry_in_seconds}
use slashclaw.Prelude.{◌+◌, arith}
use slashclaw.Store.Sessions.{get_token, delete_expired_tokens}
use slashclaw.Store.Expiry.{get_token-delete_expired_tokens}
use slashclaw.Tests.Setup.{test_env, start}

abbrev a_story : Story
a_story = record {
  id = "s";
  title = "A story title";
  url = "";
  text = "text";
  tags = [];
  score = pos 2;
  comment_count = pos 0;
  created_at = pos 5;
  hidden = true;
  agent_id = "";
  agent_verified = true;
}

abbrev a_comment : Comment
a_comment = record {
  id = "c";
  story_id = "s";
  parent_id = "";
  text = "text";
  score = pos 0;
  created_at = pos 6;
  hidden = true;
  agent_id = "ann";
  agent_verified = true;
}

abbrev a_vote : Vote
a_vote = record {
  id = "v";
  target_type = "story";
  target_id = "s";
  value = pos 1;
  created_at = pos 7;
  ip_hash = "";
  agent_id = "ann";
  agent_verified = true;
}

abbrev an_account : Account
an_account = record {
  id = "a";
  display_name = "Ann";
  bio = "";
  homepage_url = "https://example.org";
  created_at = pos 8;
}

scan-row_example :
    (scan_story test_env (story_row test_env a_story) ≡ a_story)
    × (scan_comment (comment_row a_comment) ≡ a_comment)
    × (scan_vote (vote_row a_vote) ≡ a_vote)
    × (scan_account (account_row an_account) ≡ an_account)
scan-row_example = scan-row test_env a_story a_comment a_vote an_account refl refl

abbrev a_token : Token
a_token = record {
  id = "t";
  account_id = "";
  key_id = "k";
  agent_id = "ann";
  token = "text";
  expires_at = pos 7500000000;
}

abbrev a_challenge : Challenge
a_challenge = record {
  id = "c";
  agent_id = "ann";
  algorithm = "ed25519";
  challenge = "text";
  expires_at = pos 7500000000;
}

expiry_in_seconds_example :
    ((is_live_token "text" (pos 6900000000) (token_row a_token) ≡ true
        → pos 6900000000 <ℤ pos 7500000000)
      × (pos 6900000000 +ℤ pos second ≤ℤ pos 7500000000
          → is_live_token "text" (pos 6900000000) (token_row a_token) ≡ true))
    × (is_live_challenge "text" (pos 6900000000) (challenge_row a_challenge) ≡ true
        → pos 6900000000 <ℤ pos 7500000000)
    × (pos 6900000000 +ℤ pos second ≤ℤ pos 7500000000
        → is_live_challenge "text" (pos 6900000000) (challenge_row a_challenge) ≡ true)
expiry_in_seconds_example = expiry_in_seconds (pos 6900000000) a_token a_challenge

get_token-delete_expired_tokens_example :
    (get_token test_env "t1" (delete_expired_tokens test_env start).1).0
    ≡ (get_token test_env "t1" (record start { step = start.step + 1 + 1 })).0
get_token-delete_expired_tokens_example =
    get_token-delete_expired_tokens test_env "t1" start (omega arith)
