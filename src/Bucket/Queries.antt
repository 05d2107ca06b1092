-- ===== src/Bucket/Queries.antt =====
-- The queries of a bucket: web/src/queries/bucket.ts. A query is its key, and the request that
-- answers it.
pub mod Laws
use Prim.Native.String
use safebucket.Prelude.{
  ◌≡◌, ◌≢◌, refl, Bool, true, false, not, ◌==◌, ◌&&◌, Option, none, some, List, [], ◌∷◌, String,
  if◌then◌else◌,
}
use safebucket.Auth.Platform.{
  Json, Items, Fields, Platform, Store, Async, Result, ok, err, type_error, get_field,
}
use safebucket.Auth.Api.{api_get}

-- which query, and of which bucket
pub data Query : Type 0 where
  buckets : Query
  buckets_activity : Query
  bucket_data : (bucket_id : String) → Query
  bucket_activity : (bucket_id : String) → Query
  bucket_members : (bucket_id : String) → Query
  bucket_trashed_files : (bucket_id : String) → Query

-- `queryKey`
unfoldable pub query_key : Query → List String
query_key buckets = "buckets" ∷ []
query_key buckets_activity = "buckets" ∷ "activity" ∷ []
query_key (bucket_data id) = "buckets" ∷ id ∷ []
query_key (bucket_activity id) = "buckets" ∷ id ∷ "activity" ∷ []
query_key (bucket_members id) = "buckets" ∷ id ∷ "members" ∷ []
query_key (bucket_trashed_files id) = "buckets" ∷ id ∷ "trash" ∷ []

-- the address that the query asks
pub query_url : Query → String
query_url buckets = "/buckets"
query_url buckets_activity = "/buckets/activity"
query_url (bucket_data id) = String.◌++◌ "/buckets/" id
query_url (bucket_activity id) = String.◌++◌ "/buckets/" (String.◌++◌ id "/activity")
query_url (bucket_members id) = String.◌++◌ "/buckets/" (String.◌++◌ id "/members")
query_url (bucket_trashed_files id) = String.◌++◌ "/buckets/" (String.◌++◌ id "?status=deleted")

-- `select`, and what the query of the trash makes of its answer: `none` is `undefined`
abbrev field_of : String → Json → Result (Option Json)
field_of name Json.null = err type_error
field_of name (Json.obj fields) = ok (get_field name fields)
field_of name _ = ok none

-- `response.files || []`, of an answer where it is a list, if it is there
abbrev list_or_empty : Option Json → Json
list_or_empty none = Json.arr Items.nil
list_or_empty (some Json.null) = Json.arr Items.nil
list_or_empty (some j) = j

pub trash_of : Json → Result (Json × Json)
trash_of Json.null = err type_error
trash_of (Json.obj fields) =
    ok (list_or_empty (get_field "files" fields), list_or_empty (get_field "folders" fields))
trash_of _ = ok (Json.arr Items.nil, Json.arr Items.nil)

-- What the pages read of an answer.
pub selected : Query → Json → Result (Option Json)
selected buckets json = field_of "data" json
selected buckets_activity json = field_of "data" json
selected (bucket_data id) json = ok (some json)
selected (bucket_activity id) json = field_of "data" json
selected (bucket_members id) json = field_of "data" json
selected (bucket_trashed_files id) json = ok (some json)

-- `enabled`
pub is_enabled : Query → Bool
is_enabled (bucket_trashed_files id) = not (id == "")
is_enabled _ = true

module _ (p : Platform) where
  -- `queryFn`
  pub query_request : Query → Async (Store p.Jar) Json
  unfolding query_url
  query_request q = api_get p (query_url q)

-- `invalidateQueries({ queryKey: key })` is for the queries whose key begins with it.
abbrev pub is_prefix : List String → List String → Bool
is_prefix [] ks = true
is_prefix (k ∷ ks) [] = false
is_prefix (k ∷ ks) (j ∷ js) = (k == j) && is_prefix ks js
