-- ===== src/Api/Posting.antt =====
-- `CreateStory`: what a story that is accepted satisfies, and that nothing is stored otherwise.
use Prim.Native.String.{count}
use slashclaw.Prelude.{
  ◌≤◌, String, Bool, true, false, not, Option, some, [], ◌∷◌, ◌++◌, ◌≡◌, refl, sym, ℤ, pos, any,
  ltb, length, arith, ◌∙◌, subst,
}
use slashclaw.Env.{Env}
use slashclaw.Env.Laws.{IsUp}
use slashclaw.Exec.{ok}
use slashclaw.Exec.Keeps.{keeps_rules}
use slashclaw.Exec.Steps.{Triple-skip, Triple-given, Triple-test}
use slashclaw.Exec.Triple.{Triple, Triple-keep, Triple-pure, Triple-bind, Triple-on_err}
use slashclaw.Config.{Config}
use slashclaw.Store.Models.{Story, zero_time}
use slashclaw.Store.Rows.{StoryRow, Db}
use slashclaw.Store.Sql.{null_string, bool_to_int}
use slashclaw.Store.Triples.{Triple-execute, inserted}
use slashclaw.Store.Stories.{has_id, story_row, insert_story, create_story as store_story}
use slashclaw.Api.Http.{
  Request, Response, create_story_response, write_json, context_agent, context_verified,
}
use slashclaw.Api.Keeps.{check_rate_limit-Keeps, check_url-Keeps, check_cooldown-Keeps}
use slashclaw.Api.Stories.{
  CreateStoryRequest, has_url, has_text, same_bool, bad_title, create_story,
}

-- The request follows the rules for a story.
pub record IsPost (req : CreateStoryRequest) : Type 0 where
  pub title_min : 8 ≤ count req.title
  pub title_max : count req.title ≤ 180
  pub one_of : has_url req ≡ not (has_text req)
  pub few_tags : length req.tags ≤ 5

-- The story of the request, by the agent of the request, is appended, and the answer has its id.
pub record Posted (env : Env) (r : Request) (req : CreateStoryRequest) (db : Db) (answer : Response)
    (db' : Db) : Type 0 where
  pub row : StoryRow
  pub is_title : row.title ≡ req.title
  pub is_url : row.url ≡ null_string req.url
  pub is_text : row.text ≡ null_string req.text
  pub is_tags : row.tags ≡ some (env.marshal_tags req.tags)
  pub no_score : row.score ≡ pos 0
  pub no_comments : row.comment_count ≡ pos 0
  pub is_visible : row.hidden ≡ 0
  pub is_agent : row.agent_id ≡ null_string (context_agent r)
  pub is_verified : row.agent_verified ≡ bool_to_int (context_verified r)
  pub is_fresh : any (has_id row.id) db.stories ≡ false
  pub stored : db' ≡ record db { stories = db.stories ++ row ∷ [] }
  pub is_answer : answer ≡ write_json 201 (create_story_response row.id false)

-- A stored story differs from the given one by its identifier and time.
pub record Stored (env : Env) (x saved : Story) (db db' : Db) : Type 0 where
  pub id : String
  pub created : ℤ
  pub is_saved : saved ≡ record x { id = id; created_at = created }
  pub is_fresh : any (has_id id) db.stories ≡ false
  pub stored : db' ≡ record db { stories = db.stories ++ story_row env saved ∷ [] }

module _ (env : Env) (up : IsUp env) (db : Db) where
  insert-Stored :
      (x : Story) (id : String) (created : ℤ) (d d' : Db)
      → d ≡ db
      → insert_story (story_row env (record x { id = id; created_at = created })) d ≡ ok d'
      → Stored env x (record x { id = id; created_at = created }) db d'
  unfolding insert_story story_row
  insert-Stored x id created d d' h e =
      let (test, same) = inserted _ _ _ d' e in
      record {
        id = id;
        created = created;
        is_saved = refl;
        is_fresh = subst (λ y. any (has_id id) y.stories ≡ false) h test;
        stored = sym same ∙ (rw h refl);
      }

  pub store_story-Stored :
      (x : Story)
      → Triple
          (λ d. d ≡ db)
          (store_story env x)
          (λ saved d. Stored env x saved db d)
          (λ _ d. d ≡ db)
  unfolding store_story
  store_story-Stored x =
      Triple-bind (λ _ d. d ≡ db) (Triple-keep _ (λ d h. h) (search keeps_rules))
        λ id.
          Triple-bind (λ _ d. d ≡ db) (Triple-keep _ (λ d h. h) (search keeps_rules))
            λ created.
              Triple-bind (λ _ d. Stored env x (record x { id = id; created_at = created }) db d)
                (Triple-execute env up _ _ _ _ (λ d d' h e. insert-Stored x id created d d' h e)
                  (λ d e h x. h))
                λ _. Triple-pure _ _ _ (λ d h. h)

differ : (a b : Bool) → same_bool a b ≡ false → a ≡ not b
differ true b h = ground arith
differ false b h = ground arith

is_post :
    (req : CreateStoryRequest)
    → bad_title req ≡ false
    → same_bool (has_url req) (has_text req) ≡ false
    → ltb 5 (length req.tags) ≡ false
    → IsPost req
unfolding bad_title
is_post req title one tags = record {
  title_min = ground (arith, title);
  title_max = ground (arith, title);
  one_of = differ (has_url req) (has_text req) one;
  few_tags = ground (arith, tags);
}

-- The story that the handler builds.
abbrev draft : Request → CreateStoryRequest → Story
draft r req = record {
  id = "";
  title = req.title;
  url = req.url;
  text = req.text;
  tags = req.tags;
  score = pos 0;
  comment_count = pos 0;
  created_at = zero_time;
  hidden = false;
  agent_id = context_agent r;
  agent_verified = context_verified r;
}

Posted-row :
    (env : Env) (r : Request) (req : CreateStoryRequest) (id : String) (created : ℤ) (db db' : Db)
    → any (has_id id) db.stories ≡ false
    → db' ≡ record db {
      stories =
          db.stories ++ story_row env (record (draft r req) { id = id; created_at = created }) ∷ [];
    }
    → Posted env r req db (write_json 201 (create_story_response id false)) db'
unfolding story_row
Posted-row env r req id created db db' fresh e = record {
  row = story_row env (record (draft r req) { id = id; created_at = created });
  is_title = refl;
  is_url = refl;
  is_text = refl;
  is_tags = refl;
  no_score = refl;
  no_comments = refl;
  is_visible = refl;
  is_agent = refl;
  is_verified = refl;
  is_fresh = fresh;
  stored = e;
  is_answer = refl;
}

Posted-of_draft :
    (env : Env) (r : Request) (req : CreateStoryRequest) (saved : Story) (db db' : Db)
    → Stored env (draft r req) saved db db'
    → Posted env r req db (write_json 201 (create_story_response saved.id false)) db'
Posted-of_draft env r req saved db db' s =
    subst (λ y. Posted env r req db (write_json 201 (create_story_response y.id false)) db')
      (sym s.is_saved)
      (Posted-row env r req s.id s.created db db' s.is_fresh (
        subst (λ y. db' ≡ record db { stories = db.stories ++ story_row env y ∷ [] }) s.is_saved
          s.stored))

-- If no call of the database fails: when CreateStory reaches its end, the body was decoded, its
-- title has 8 to 180 characters, exactly one of link and text is given, there are at most 5 tags,
-- one visible story with these contents, by the agent of the request and with score and comment
-- count 0, is appended under a new identifier, and the answer is 201 with that identifier; with any
-- early answer the tables are as before.
pub create_story-Posted :
    (env : Env) (cfg : Config) (db : Db) (r : Request) (body : Option CreateStoryRequest)
    → IsUp env
    → Triple
        (λ d. d ≡ db)
        (create_story env cfg r body)
        (λ answer d.
          (req : CreateStoryRequest) × (body ≡ some req)
          × IsPost req
          × Posted env r req db answer d)
        (λ _ d. d ≡ db)
unfolding create_story
create_story-Posted env cfg db r body up =
    Triple-skip (λ d h. h) (check_rate_limit-Keeps env cfg r "story" cfg.story_rate_limit)
      λ rate.
        Triple-test (λ d h. h) _ _ _
          λ allowed.
            Triple-given (λ d h. h) _ _ _
              λ req given.
                Triple-test (λ d h. h) _ _ _
                  λ title.
                    Triple-test (λ d h. h) _ _ _
                      λ one.
                        Triple-skip (λ d h. h) (search (keeps_rules, check_url-Keeps))
                          λ _.
                            Triple-test (λ d h. h) _ _ _
                              λ tags.
                                Triple-skip (λ d h. h) (search (keeps_rules, check_cooldown-Keeps))
                                  λ _.
                                    Triple-bind _
                                      (Triple-on_err _ _
                                        (store_story-Stored env up db (draft r req)))
                                      λ saved. Triple-pure _ _ _ λ d s. (
                                        req,
                                        given,
                                        is_post req title one tags,
                                        Posted-of_draft env r req saved db d s,
                                      )
