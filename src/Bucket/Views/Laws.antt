-- ===== src/Bucket/Views/Laws.antt =====
-- What the views offer to a user who is no contributor, and that two of them offer the same.
use safebucket.Prelude.{
  ℕ, Bool, true, false, Option, none, some, List, [], ◌∷◌, ◌++◌, String, map, All, All-append,
}
use safebucket.Ui.{Element, Can, embed, All-embed, text}
use safebucket.Bucket.Items.{BucketItem, Folder, item_id}
use safebucket.Bucket.Cells.{
  Badge, list_status, render_status_badge, trash_status, item_type, original_location,
  bucket_trash_view,
}
use safebucket.Bucket.Requests.{ItemType}
use safebucket.Bucket.Menu.{menu_content, item_status, TrashedItem, trash_actions}
use safebucket.Bucket.Menu.Laws.{IsReading, viewer_only_reads, no_trash_menu}
use safebucket.Bucket.Views.{
  ViewAction, selects, opens, menu, trash, trash_menu, MenuDialogs, badge, badge_or_dash, location,
  file_actions, list_row, grid_card, trash_row, each, bucket_list_view, bucket_grid_view,
  bucket_trash_table,
}

-- The action leaves the bucket as it is.
abbrev pub ViewIsReading : ViewAction → Type 0
ViewIsReading (selects item) = Unit
ViewIsReading (opens item) = Unit
ViewIsReading (menu in_column item a) = IsReading item a
ViewIsReading _ = ⊥

abbrev Reads : List (Element ViewAction) → Type 0
Reads es = All (Can ViewIsReading) es

badge-Reads : (o : Option Badge) → Reads (badge o)
badge-Reads none = tt
badge-Reads (some b) = (tt, (tt, tt))

badge_or_dash-Reads : (o : Option Badge) → Reads (badge_or_dash o)
badge_or_dash-Reads none = (tt, tt)
badge_or_dash-Reads (some b) = (tt, (tt, tt))

location-Reads : (o : Option String) → Reads (location o)
location-Reads none = tt
location-Reads (some path) = (tt, tt)

file_actions-Reads :
    (in_column : Bool) (d : MenuDialogs) (item : BucketItem)
    → Reads (file_actions in_column false d item)
unfolding file_actions
file_actions-Reads in_column d item =
    let t : TrashedItem = record { item = item; item_type = ItemType.file } in
    let (content, no_dialogs, _) = viewer_only_reads false d.new_folder_open d.delete_open item t in
    All-append (Can ViewIsReading)
      (map (embed (menu in_column item)) (menu_content false false item)) _
      (All-embed ViewIsReading (menu in_column item) (menu_content false false item) content)
      (rw no_dialogs tt)

list_row-Reads :
    (format_size : ℕ → String) (context dropdown : MenuDialogs) (item : BucketItem)
    → Reads (list_row format_size false context dropdown item)
unfolding list_row
list_row-Reads format_size context dropdown item =
    let actions =
      All-append (Can ViewIsReading) (file_actions true false dropdown item)
        (file_actions false false context item) (file_actions-Reads true dropdown item)
        (file_actions-Reads false context item) in
    let cells =
      All-append (Can ViewIsReading) (badge_or_dash (list_status (item_status item)))
        (file_actions true false dropdown item ++ file_actions false false context item)
        (badge_or_dash-Reads (list_status (item_status item))) actions in
    ((λ e. tt), ((λ e. tt), ((λ e. tt), (tt, (tt, cells)))))

grid_card-Reads :
    (format_size : ℕ → String) (context : MenuDialogs) (item : BucketItem)
    → Reads (grid_card format_size false context item)
unfolding grid_card
grid_card-Reads format_size context item =
    let cells =
      All-append (Can ViewIsReading) (badge (render_status_badge (item_status item)))
        (text (item_type item) ∷ file_actions false false context item)
        (badge-Reads (render_status_badge (item_status item)))
        (tt, file_actions-Reads false context item) in
    ((λ e. tt), ((λ e. tt), (tt, cells)))

each-Reads :
    {A : Type 0} (f : A → List (Element ViewAction)) (xs : List A)
    → ((x : A) → Reads (f x))
    → Reads (each f xs)
unfolding each
each-Reads f [] h = tt
each-Reads f (x ∷ xs) h = All-append (Can ViewIsReading) (f x) (each f xs) (h x) (each-Reads f xs h)

trash_row-Reads :
    (format_size : ℕ → String) (fuel : ℕ) (folders : List Folder) (t : TrashedItem)
    → Reads (trash_row format_size fuel folders false t)
unfolding trash_row
trash_row-Reads format_size fuel folders t =
    let (_, _, no_actions) = viewer_only_reads true false false t.item t in
    let menus : Reads (
        map (embed trash) (trash_actions false t)
        ++ map (embed trash_menu) (menu_content true false t.item)) =
      rw no_actions (rw (no_trash_menu t.item) tt) in
    let cells =
      All-append (Can ViewIsReading) (badge_or_dash (trash_status (item_status t.item)))
        (map (embed trash) (trash_actions false t)
          ++ map (embed trash_menu) (menu_content true false t.item))
        (badge_or_dash-Reads (trash_status (item_status t.item))) menus in
    (
      tt,
      All-append (Can ViewIsReading) (location (original_location fuel folders t)) _
          (location-Reads (original_location fuel folders t)) (tt, cells),
    )

module _ (format_size : ℕ → String) (context dropdown : String → MenuDialogs) where
  -- A user who is no contributor is offered nothing in the list and on the cards but to select and
  -- to open items, and to download files that are not in the trash.
  pub bucket_list_view-Reads :
      (items : List BucketItem)
      → All (Can ViewIsReading) (bucket_list_view format_size false context dropdown items)
  unfolding bucket_list_view
  bucket_list_view-Reads [] = (tt, tt)
  bucket_list_view-Reads (i ∷ is) =
      each-Reads (λ j. list_row format_size false (context (item_id j)) (dropdown (item_id j)) j)
        (i ∷ is) (λ j. list_row-Reads format_size (context (item_id j)) (dropdown (item_id j)) j)

  pub bucket_grid_view-Reads :
      (items : List BucketItem)
      → All (Can ViewIsReading) (bucket_grid_view format_size false context dropdown items)
  unfolding bucket_grid_view
  bucket_grid_view-Reads [] = (tt, (tt, (tt, (tt, tt))))
  bucket_grid_view-Reads (i ∷ is) =
      each-Reads (λ j. grid_card format_size false (context (item_id j)) j) (i ∷ is)
        (λ j. grid_card-Reads format_size (context (item_id j)) j)

-- And in the trash, as long as its dialog is closed, nothing at all.
pub bucket_trash_table-Reads :
    (format_size : ℕ → String) (fuel : ℕ) (folders : List Folder) (items : List TrashedItem)
    → All (Can ViewIsReading) (bucket_trash_table format_size fuel folders false false items)
unfolding bucket_trash_table bucket_trash_view embed
bucket_trash_table-Reads format_size fuel folders [] = (tt, (tt, (tt, tt)))
bucket_trash_table-Reads format_size fuel folders (t ∷ ts) = (
  tt,
  each-Reads (trash_row format_size fuel folders false) (t ∷ ts)
      (trash_row-Reads format_size fuel folders),
)
