-- ===== src/Bucket/Queries/Laws.antt =====
-- What is fetched again after a change: the keys that the requests of a bucket invalidate, against
-- the keys of its queries.
use mathlib.Core.Path.{subst}
use safebucket.Prelude.{
  ◌≡◌, refl, sym, Bool, true, ◌==◌, List, [], ◌∷◌, String, any, Bool-cases, inl, inr,
}
use safebucket.Auth.Platform.{Json, Platform, Store, Result, ok, Failure}
use safebucket.Auth.Api.{api_patch}
use safebucket.Bucket.Requests.{
  View, ItemType, item_path, status_body, delete_file, restore_item, mutated, invalidate, succeed,
}
use safebucket.Bucket.FileActions.{trash_item, on_trashed}
use safebucket.Bucket.Queries.{
  Query, buckets, buckets_activity, bucket_data, bucket_activity, bucket_members,
  bucket_trashed_files, query_key, is_prefix,
}

-- The query is fetched again.
abbrev pub IsFetched : Query → List (List String) → Type 0
IsFetched q keys = any (λ k. is_prefix k (query_key q)) keys ≡ true

begins : (q : Query) (keys : List (List String)) → IsFetched q (("buckets" ∷ []) ∷ keys)
unfolding query_key
begins buckets keys = refl
begins buckets_activity keys = refl
begins (bucket_data id) keys = refl
begins (bucket_activity id) keys = refl
begins (bucket_members id) keys = refl
begins (bucket_trashed_files id) keys = refl

on_trashed-IsFetched :
    {Jar : Type 0} (filename : String) (v : View Jar) (q : Query)
    → IsFetched q (on_trashed filename v).invalidated
unfolding on_trashed
on_trashed-IsFetched filename v q = elim (Bool-cases (filename == "")) [
  | inl unnamed ↦ rw unnamed (begins q v.invalidated)
  | inr named ↦ rw named (begins q v.invalidated)
]

module _ (p : Platform) (message_of : Failure → String) where
  -- When an item has been put into the trash, every query of buckets is fetched again, so that the
  -- folder, the trash and the activity show it.
  pub trash_item-IsFetched :
      (bucket_id file_id filename : String) (is_folder : Bool) (v : View p.Jar) {j : Json}
      {s : Store p.Jar} (q : Query)
      → delete_file p bucket_id file_id is_folder v.store ≡ (ok j, s)
      → IsFetched q (trash_item p message_of bucket_id file_id filename is_folder v).invalidated
  unfolding trash_item
  trash_item-IsFetched bucket_id file_id filename is_folder v {j} {s} q done =
      subst
        (λ (r : Result Json × Store p.Jar).
          IsFetched q (mutated p message_of (on_trashed filename) v r).invalidated)
        (sym done) (on_trashed-IsFetched filename (record v { store = s }) q)

  -- When an item of a bucket has been restored, its folder, the trash, the members and the activity of
  -- that bucket are fetched again.
  pub restore_item-IsFetched :
      (t : String → String → String) (bucket_id id name : String) (kind : ItemType) (v : View p.Jar)
      {j : Json} {s : Store p.Jar} (q : Query)
      → api_patch p (item_path bucket_id kind id) (status_body "uploaded") v.store ≡ (ok j, s)
      → is_prefix ("buckets" ∷ bucket_id ∷ []) (query_key q) ≡ true
      → IsFetched q (restore_item p message_of t bucket_id id name kind v).invalidated
  unfolding restore_item
  restore_item-IsFetched t bucket_id id name kind v {j} {s} q done of_bucket =
      subst
        (λ (r : Result Json × Store p.Jar).
          IsFetched q
            (mutated p message_of
              (λ w. succeed (t "bucket.trash_view.restore_success" name) (
                invalidate ("buckets" ∷ bucket_id ∷ [])
                  (invalidate ("buckets" ∷ bucket_id ∷ "trash" ∷ []) w)))
              v r).invalidated)
        (sym done) (rw of_bucket refl)
