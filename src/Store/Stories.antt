-- ===== src/Store/Stories.antt =====
-- The stories in internal/store/sqlite.go.
use mathlib.Core.Option
use slashclaw.Prelude.{
  ℕ, suc, String, Bool, ◌&&◌, ◌||◌, Option, none, some, List, [], ◌∷◌, ◌++◌, map, ℤ, pos, pos_part,
  ◌+ℤ◌, ltb_ℤ, leb_ℤ, eq_ℤ, ltb, nat_eq, ◌==◌, length, take, first, select, update, any,
  if◌then◌else◌,
}
use slashclaw.Env.{Env}
use slashclaw.Exec.{Exec, Result, ok, err, pure, now, new_uuid, ◌>>=◌, ◌>>◌}
use slashclaw.Store.Models.{Story, SortOrder, top, new, discussed, ListOptions, is_zero}
use slashclaw.Store.Rows.{StoryRow, Db}
use slashclaw.Store.Sql.{
  Error, constraint, query, execute, null_string, string_of, sql_eq, bool_to_int,
}

-- the row that `CreateStory` inserts
unfoldable pub story_row : Env → Story → StoryRow
story_row env story = record {
  id = story.id;
  title = story.title;
  url = null_string story.url;
  text = null_string story.text;
  tags = some (env.marshal_tags story.tags);
  score = story.score;
  comment_count = story.comment_count;
  created_at = story.created_at;
  hidden = bool_to_int story.hidden;
  agent_id = null_string story.agent_id;
  agent_verified = bool_to_int story.agent_verified;
}

unfoldable pub scan_tags : Env → Option String → List String
scan_tags env none = []
scan_tags env (some s) = if s == "" then [] else env.unmarshal_tags s

-- `scanStory` and `scanStoryRows`
unfoldable pub scan_story : Env → StoryRow → Story
unfolding scan_tags
scan_story env row = record {
  id = row.id;
  title = row.title;
  url = string_of row.url;
  text = string_of row.text;
  tags = scan_tags env row.tags;
  score = row.score;
  comment_count = row.comment_count;
  created_at = row.created_at;
  hidden = nat_eq row.hidden 1;
  agent_id = string_of row.agent_id;
  agent_verified = nat_eq row.agent_verified 1;
}

abbrev pub has_id : String → StoryRow → Bool
has_id id row = row.id == id

abbrev pub is_visible : String → StoryRow → Bool
is_visible id row = row.id == id && nat_eq row.hidden 0

-- the insertion, with the primary key
unfoldable pub insert_story : StoryRow → Db → Result Error Db
insert_story row db =
    if any (has_id row.id) db.stories
    then err constraint
    else ok (record db { stories = db.stories ++ row ∷ [] })

-- The first instant of a `NULL`-free `ORDER BY` key list.
abbrev pub newest_first : StoryRow → StoryRow → Bool
newest_first a b = leb_ℤ b.created_at a.created_at

abbrev pub discussed_first : StoryRow → StoryRow → Bool
discussed_first a b =
    ltb_ℤ b.comment_count a.comment_count
    || (eq_ℤ a.comment_count b.comment_count && leb_ℤ b.created_at a.created_at)

-- the REAL value that `ORDER BY` sorts the front page by
unfoldable pub rank : Env → ℤ → StoryRow → ℤ
rank env time row = env.story_rank row.score time row.created_at

unfoldable pub top_first : Env → ℤ → StoryRow → StoryRow → Bool
unfolding rank
top_first env time a b = leb_ℤ (rank env time b) (rank env time a)

unfoldable pub order_by : Env → SortOrder → ℤ → StoryRow → StoryRow → Bool
unfolding top_first
order_by env new time = newest_first
order_by env discussed time = discussed_first
order_by env top time = top_first env time

-- a limit that is not within 1 and 100 becomes 30
unfoldable pub clamp_limit : ℤ → ℕ
clamp_limit limit = if leb_ℤ limit (pos 0) || ltb_ℤ (pos 100) limit then 30 else pos_part limit

abbrev pub last_id : List Story → String
last_id [] = ""
last_id (s ∷ []) = s.id
last_id (s ∷ t ∷ rest) = last_id (t ∷ rest)

-- one row more than the limit shows that there is a next page
unfoldable pub page : ℕ → List Story → List Story × String
page limit stories =
    if ltb limit (length stories)
    then (take limit stories, last_id (take limit stories))
    else (stories, "")

abbrev pub is_recent : String → ℤ → StoryRow → Bool
is_recent url since row = sql_eq row.url url && ltb_ℤ since row.created_at && nat_eq row.hidden 0

abbrev pub by_agent : String → StoryRow → Bool
by_agent agent row = sql_eq row.agent_id agent

module _ (env : Env) where
  unfoldable pub create_story : Story → Exec Error Story
  unfolding execute insert_story story_row
  create_story story = do
    id ← if story.id == "" then new_uuid env else pure story.id
    created ← if is_zero story.created_at then now env else pure story.created_at
    let saved = record story { id = id; created_at = created }
    execute env (insert_story (story_row env saved))
    pure saved

  unfoldable pub get_story : String → Exec Error (Option Story)
  unfolding query scan_story
  get_story id =
      query env λ db. ok (Option.map (scan_story env) (first (select (is_visible id) db.stories)))

  unfoldable pub list_stories : ListOptions → Exec Error (List Story × String)
  unfolding query scan_story clamp_limit order_by page
  list_stories opts = do
    time ← now env
    let limit = clamp_limit opts.limit
    rows ← query env λ db. ok (
        take (suc limit) (
          env.order_stories (order_by env opts.sort time)
            (select (λ r. nat_eq r.hidden 0) db.stories)))
    pure (page limit (map (scan_story env) rows))

  unfoldable pub find_story_by_url : String → ℤ → Exec Error (Option Story)
  unfolding query scan_story
  find_story_by_url url since = query env λ db. ok (
      Option.map (scan_story env)
        (first (env.order_stories newest_first (select (is_recent url since) db.stories))))

  unfoldable pub get_last_story_by_agent : String → Exec Error (Option Story)
  unfolding query scan_story
  get_last_story_by_agent agent = query env λ db. ok (
      Option.map (scan_story env)
        (first (env.order_stories newest_first (select (by_agent agent) db.stories))))

  unfoldable pub update_story_score : String → ℤ → Exec Error Unit
  unfolding execute
  update_story_score id delta = execute env λ db. ok (record db {
    stories = update (has_id id) (λ r. record r { score = r.score +ℤ delta }) db.stories;
  })

  unfoldable pub update_story_comment_count : String → ℤ → Exec Error Unit
  unfolding execute
  update_story_comment_count id delta = execute env λ db. ok (record db {
    stories =
        update (has_id id) (λ r. record r { comment_count = r.comment_count +ℤ delta }) db.stories;
  })

  unfoldable pub hide_story : String → Exec Error Unit
  unfolding execute
  hide_story id = execute env λ db.
      ok (record db { stories = update (has_id id) (λ r. record r { hidden = 1 }) db.stories })
