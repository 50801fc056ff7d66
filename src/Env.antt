-- ===== src/Env.antt =====
-- What the program uses and does not implement: the clock, UUIDs, the random source, faults of the
-- database and the orders it leaves open, cryptography, and encoders. Each draw from outside has an
-- index, the number of the draws before it.
pub mod Laws
use slashclaw.Prelude.{ℕ, String, Bool, Option, List, ℤ}
use slashclaw.Store.Rows.{StoryRow, CommentRow, VoteRow}

-- `x509.ParsePKIXPublicKey` returns an RSA key, or a key of another kind.
pub data PublicKey : Type 0 where
  rsa : List ℕ → PublicKey
  other_key : PublicKey

pub record Env : Type 0 where
  -- `time.Now()`, and the clock of SQLite
  pub now : ℕ → ℤ
  -- `uuid.New().String()`
  pub uuid : ℕ → String
  -- 32 bytes by `rand.Read`, or its error
  pub random : ℕ → Option (List ℕ)
  -- does the database call with this index fail (a closed file, a cancelled context)?
  pub down : ℕ → Bool
  -- `ORDER BY` with a comparison that may have ties, and the order of a query that has none
  pub order_stories : (StoryRow → StoryRow → Bool) → List StoryRow → List StoryRow
  pub order_comments : (CommentRow → CommentRow → Bool) → List CommentRow → List CommentRow
  -- the value of the REAL expression `score - (julianday('now') - julianday(created_at)) * 24` for a
  -- score, the instant of the query and that of the story, as a place in the order of REAL values
  pub story_rank : ℤ → ℤ → ℤ → ℤ
  pub scan_votes : List VoteRow → List VoteRow
  -- `json.Marshal` and `json.Unmarshal` of a list of texts
  pub marshal_tags : List String → String
  pub unmarshal_tags : String → List String
  -- `url.ParseRequestURI` succeeds
  pub parse_request_uri : String → Bool
  -- encodings and cryptography of the standard library
  pub base64_encode : List ℕ → String
  pub base64_decode : String → Option (List ℕ)
  pub hex_encode : List ℕ → String
  pub sha256 : String → List ℕ
  pub pem_decode : String → Option (List ℕ)
  pub parse_pkix : List ℕ → Option PublicKey
  pub ed25519_verify : List ℕ → String → List ℕ → Bool
  pub verify_pss : List ℕ → List ℕ → List ℕ → Bool
  pub verify_pkcs1v15 : List ℕ → List ℕ → List ℕ → Bool
