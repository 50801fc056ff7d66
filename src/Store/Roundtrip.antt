-- ===== src/Store/Roundtrip.antt =====
-- What is stored is read back: the rows that the writes insert, and the scans of the queries.
use slashclaw.Prelude.{
  String, Bool, true, false, some, List, ◌≡◌, refl, ◌==◌, eq_iff, nat_eq, ℤ, pos, negsuc, ◌+ℤ◌,
  ◌≤ℤ◌, ◌<ℤ◌, ltb_ℤ, arith, Bool-cases, inl, inr,
}
use text.Mathlib.TextPositions.{eq_refl}
use slashclaw.Env.{Env}
use slashclaw.Store.Models.{Story, Comment, Vote, Account, Challenge, Token, second}
use slashclaw.Store.Sql.{null_string, string_of, bool_to_int}
use slashclaw.Store.Stories.{story_row, scan_tags, scan_story}
use slashclaw.Store.Comments.{comment_row, scan_comment}
use slashclaw.Store.Votes.{vote_row, scan_vote}
use slashclaw.Store.Accounts.{account_row, scan_account}
use slashclaw.Store.Sessions.{
  to_seconds, is_live_token, is_live_challenge, token_row, challenge_row,
}

string_of-null_string : (s : String) → string_of (null_string s) ≡ s
string_of-null_string s = elim (Bool-cases (s == "")) [
  | inl empty ↦ ground (arith, empty, eq_iff s "")
  | inr given ↦ rw given refl
]

bool_back : (b : Bool) → nat_eq (bool_to_int b) 1 ≡ b
bool_back true = refl
bool_back false = refl

scan_tags_back :
    (env : Env) (tags : List String)
    → env.unmarshal_tags (env.marshal_tags tags) ≡ tags
    → (env.marshal_tags tags == "") ≡ false
    → scan_tags env (some (env.marshal_tags tags)) ≡ tags
unfolding scan_tags
scan_tags_back env tags back text = rw (text, back) refl

story_back :
    (env : Env) (s : Story)
    → env.unmarshal_tags (env.marshal_tags s.tags) ≡ s.tags
    → (env.marshal_tags s.tags == "") ≡ false
    → scan_story env (story_row env s) ≡ s
unfolding scan_story story_row
story_back env s back text =
    rw
      (
        string_of-null_string s.url,
        string_of-null_string s.text,
        string_of-null_string s.agent_id,
        bool_back s.hidden,
        bool_back s.agent_verified,
        scan_tags_back env s.tags back text,
      )
      refl

comment_back : (c : Comment) → scan_comment (comment_row c) ≡ c
unfolding scan_comment comment_row
comment_back c =
    rw
      (
        string_of-null_string c.parent_id,
        string_of-null_string c.agent_id,
        bool_back c.hidden,
        bool_back c.agent_verified,
      )
      refl

vote_back : (v : Vote) → scan_vote (vote_row v) ≡ v
unfolding scan_vote vote_row
vote_back v =
    rw
      (
        string_of-null_string v.ip_hash,
        string_of-null_string v.agent_id,
        bool_back v.agent_verified,
      )
      refl

account_back : (a : Account) → scan_account (account_row a) ≡ a
unfolding scan_account account_row
account_back a = rw (string_of-null_string a.bio, string_of-null_string a.homepage_url) refl

-- A story whose tags JSON encodes and decodes faithfully, to a text that is not empty, is read back
-- as it was stored, and so is every comment, vote and account: the empty texts that become NULL and
-- the flags that become numbers lose nothing.
pub scan-row :
    (env : Env) (s : Story) (c : Comment) (v : Vote) (a : Account)
    → env.unmarshal_tags (env.marshal_tags s.tags) ≡ s.tags
    → (env.marshal_tags s.tags == "") ≡ false
    → (scan_story env (story_row env s) ≡ s)
      × (scan_comment (comment_row c) ≡ c)
      × (scan_vote (vote_row v) ≡ v)
      × (scan_account (account_row a) ≡ a)
scan-row env s c v a back text =
    (story_back env s back text, comment_back c, vote_back v, account_back a)

-- A stored instant is past by its whole seconds only if it is past, and it is seen as past at most
-- a second early.
seconds_order :
    (now t : ℤ)
    → (ltb_ℤ (to_seconds now) (to_seconds t) ≡ true → now <ℤ t)
      × (now +ℤ pos second ≤ℤ t → ltb_ℤ (to_seconds now) (to_seconds t) ≡ true)
unfolding to_seconds ◌+ℤ◌
seconds_order (pos n) (pos m) = (λ h. ground arith, λ h. ground arith)
seconds_order (pos n) (negsuc m) = (λ h. ground arith, λ h. ground arith)
seconds_order (negsuc n) (pos m) = (λ h. ground arith, λ h. ground arith)
seconds_order (negsuc n) (negsuc m) = (λ h. ground arith, λ h. ground arith)

-- The texts of whole seconds are safe: the query for a token finds the row of a token only before
-- the token expires, and finds it for sure as long as a second is left; the same holds of
-- challenges.
pub expiry_in_seconds :
    (now : ℤ) (t : Token) (c : Challenge)
    → ((is_live_token t.token now (token_row t) ≡ true → now <ℤ t.expires_at)
        × (now +ℤ pos second ≤ℤ t.expires_at → is_live_token t.token now (token_row t) ≡ true))
      × (is_live_challenge c.challenge now (challenge_row c) ≡ true → now <ℤ c.expires_at)
      × (now +ℤ pos second ≤ℤ c.expires_at
          → is_live_challenge c.challenge now (challenge_row c) ≡ true)
unfolding token_row challenge_row
expiry_in_seconds now t c =
    let (before, early) = seconds_order now t.expires_at in
    let (before', early') = seconds_order now c.expires_at in
    (
      (λ h. before (ground (arith, h)), λ h. ground (arith, early h, eq_refl t.token)),
      λ h. before' (ground (arith, h)),
      λ h. ground (arith, early' h, eq_refl c.challenge),
    )
