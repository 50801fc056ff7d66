-- ===== src/Tests/Setup.antt =====
-- An environment in which the assumptions hold: the clock stands at a fixed instant unless a test
-- moves it, identifiers are numerals, and the orders are insertion sorts.
use Prim.Native.String.{String}
use mathlib.Core.List.Permᴰ
use slashclaw.Prelude.{
  Permᴰ, IsOrder, IsSorted, All-map, All-Perm, ◌≡◌, inl, inr, Bool-cases, arith, ℕ, zero, suc, ◌+◌,
  Bool, true, false, none, some, List, [], ◌∷◌, pos, refl, ◌==◌, if◌then◌else◌,
}
use slashclaw.Prelude.{scale, ◌-ℤ◌}
use slashclaw.Strings.{cat}
use slashclaw.Env.{Env, rsa}
use slashclaw.Env.Laws.{IsUp, ScansVotes, OrdersStories, OrdersComments}
use slashclaw.Exec.{World}
use slashclaw.Config.{Config}
use slashclaw.Store.Rows.{empty_db, TokenRow, StoryRow}
use slashclaw.Api.Http.{Request, no_context}

module _ {A : Type 0} (before : A → A → Bool) where
  abbrev pub put : A → List A → List A
  put x [] = x ∷ []
  put x (y ∷ ys) = let rest = put x ys in if before x y then x ∷ y ∷ ys else y ∷ rest

  abbrev pub sort : List A → List A
  sort [] = []
  sort (x ∷ xs) = put x (sort xs)

abbrev pub name_of : ℕ → String
name_of zero = "id"
name_of (suc n) = cat "i" (name_of n)

abbrev pub join : List String → String
join [] = "null"
join (t ∷ ts) = cat t (cat "," (join ts))

abbrev pub test_env : Env
test_env = record {
  now = λ n. pos (1700000000000000000 + n);
  uuid = name_of;
  random = λ n. some (n ∷ []);
  down = λ n. false;
  order_stories = sort;
  order_comments = sort;
  story_rank = λ score time created. scale 3600000000000 score -ℤ (time -ℤ created);
  scan_votes = λ vs. vs;
  marshal_tags = join;
  unmarshal_tags = λ s. [];
  parse_request_uri = λ s. true;
  base64_encode = λ bytes. "token";
  base64_decode = λ s. if s == "" then none else some (1 ∷ []);
  hex_encode = λ bytes. "hash";
  sha256 = λ s. 1 ∷ 2 ∷ [];
  pem_decode = λ s. some (1 ∷ []);
  parse_pkix = λ bytes. some (rsa bytes);
  ed25519_verify = λ key message signature. true;
  verify_pss = λ key hash signature. true;
  verify_pkcs1v15 = λ key hash signature. true;
}

pub test-IsUp : IsUp test_env
test-IsUp n = refl

pub test_scans : ScansVotes test_env
test_scans vs v = (λ i. i, λ i. i)

abbrev pub test_config : Config
test_config = record {
  port = pos 8080;
  host = "0.0.0.0";
  base_url = "http://localhost:8080";
  admin_secret = "secret";
  database_path = "slashclaw.db";
  story_rate_limit = pos 10;
  comment_rate_limit = pos 60;
  vote_rate_limit = pos 120;
  rate_limit_window = pos 3600000000000;
  challenge_ttl = pos 300000000000;
  token_ttl = pos 86400000000000;
  duplicate_window = pos 2592000000000000;
  post_cooldown = pos 60000000000;
}

abbrev pub plain : Request
plain = record {
  method = "POST";
  path = "/";
  x_agent_id = "";
  x_forwarded_for = "";
  x_real_ip = "";
  remote_addr = "10.0.0.1:5000";
  authorization = "Bearer t1";
  x_admin_secret = "secret";
  accept = "";
  path_id = "";
  path_key_id = "";
  query_sort = "";
  query_limit = "";
  query_cursor = "";
  query_view = "";
  query_format = "";
  context = no_context;
}

abbrev pub token_of : String → String → TokenRow
token_of agent text = record {
  id = cat "token-" text;
  account_id = none;
  key_id = "unregistered:0123456789abcdef";
  agent_id = agent;
  token = text;
  expires_at = pos 1800000000;
}

abbrev pub story_of : String → String → StoryRow
story_of id agent = record {
  id = id;
  title = "A story title";
  url = none;
  text = some "text";
  tags = some "null";
  score = pos 0;
  comment_count = pos 0;
  created_at = pos 1600000000000000000;
  hidden = 0;
  agent_id = some agent;
  agent_verified = 1;
}

-- Two agents with a token each, and a story by one of them.
abbrev pub start : World
start = record {
  step = 0;
  db = record empty_db {
    stories = story_of "s1" "ann" ∷ [];
    tokens = token_of "ann" "t0" ∷ token_of "bob" "t1" ∷ [];
  };
  buckets = [];
}

module _ {A : Type 0} (before : A → A → Bool) where
  Perm-put : (x : A) (ys : List A) → Permᴰ (x ∷ ys) (put before x ys)
  Perm-put x [] = Permᴰ.cons refl Permᴰ.nil
  Perm-put x (y ∷ ys) = elim (Bool-cases (before x y)) [
    | inl e ↦ rw e (Permᴰ.cons refl (Permᴰ.refl (y ∷ ys)))
    | inr e ↦ rw e (Permᴰ.trans (Permᴰ.swap refl refl) (Permᴰ.cons refl (Perm-put x ys)))
  ]

  Perm-sort : (xs : List A) → Permᴰ xs (sort before xs)
  Perm-sort [] = Permᴰ.nil
  Perm-sort (x ∷ xs) = Permᴰ.trans (Permᴰ.cons refl (Perm-sort xs)) (Perm-put x (sort before xs))

module _ {A : Type 0} (before : A → A → Bool) (o : IsOrder before) where
  put-IsSorted : (x : A) (ys : List A) → IsSorted before ys → IsSorted before (put before x ys)
  put-IsSorted x [] h = (tt, tt)
  put-IsSorted x (y ∷ ys) h = elim (Bool-cases (before x y)) [
    | inl e ↦ rw e ((e, All-map _ _ ys (λ z q. o.trans x y z e q) h.0), h)
    | inr e ↦
        let back : before y x ≡ true = ground (arith, o.total x y) in
        rw e (
          All-Perm (λ z. before y z ≡ true) (Perm-put before x ys) (back, h.0),
          put-IsSorted x ys h.1,
        )
  ]

  sort-IsSorted : (xs : List A) → IsSorted before (sort before xs)
  sort-IsSorted [] = tt
  sort-IsSorted (x ∷ xs) = put-IsSorted x (sort before xs) (sort-IsSorted xs)

pub test-OrdersStories : OrdersStories test_env
test-OrdersStories = record {
  same_rows = Perm-sort;
  sorted = λ before rows o. sort-IsSorted before o rows;
}

pub test-OrdersComments : OrdersComments test_env
test-OrdersComments before rows = Perm-sort before rows
