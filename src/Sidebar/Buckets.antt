-- ===== src/Sidebar/Buckets.antt =====
-- The sidebar itself and the creation of a bucket: web/src/components/app-sidebar/AppSidebar.tsx,
-- web/src/components/app-sidebar/helpers/nav.ts, `useBucketsData` of
-- web/src/components/bucket-view/hooks/useBucketsData.ts, `useDialog` of
-- web/src/components/dialogs/hooks, and `onSubmitWrapper` of FormDialog.tsx.
pub mod Laws
use Prim.Native.String
use safebucket.Prelude.{
  Bool, true, false, not, ◌==◌, Option, none, some, List, [], ◌∷◌, ◌++◌, String, map, if◌then◌else◌,
}
use safebucket.Ui.{Element, text, icon, separator, link, button, input, form}
use safebucket.Auth.Platform.{
  Json, Fields, field, Platform, Store, Async, Result, ok, err, Failure, type_error, get_field,
  Role, guest,
}
use safebucket.Auth.Platform as Platform_of
use safebucket.Auth.Api.{api_post, api_put}
use safebucket.Bucket.Requests.{View, mutate, invalidate, succeed, update_members}
use safebucket.Bucket.Sharing.{Member}

-- `bucket.id`: `none` where reading it throws; a missing field is asked for as `undefined`.
unfoldable pub bucket_id_of : Json → Option String
bucket_id_of Json.null = none
bucket_id_of (Json.obj fields) = elim (get_field "id" fields) [
  | some (Json.str id) ↦ some id
  | _ ↦ some "undefined"
]
bucket_id_of _ = some "undefined"

module _ (p : Platform) (message_of : Failure → String) where
  -- what follows the request for the members
  abbrev pub shared : Json → Result Json × Store p.Jar → Result Json × Store p.Jar
  shared bucket (err e, s) = (err e, s)
  shared bucket (ok _, s) = (ok bucket, s)

  -- the members are sent, where there are any
  pub share_bucket : List Member → Json → Async (Store p.Jar) Json
  unfolding bucket_id_of
  share_bucket [] bucket s = (ok bucket, s)
  share_bucket (m ∷ ms) bucket s = elim (bucket_id_of bucket) [
    | none ↦ (err type_error, s)
    | some id ↦ shared bucket (update_members p id (m ∷ ms) s)
  ]

  -- what follows the creation
  abbrev pub then_share : List Member → Result Json × Store p.Jar → Result Json × Store p.Jar
  then_share members (err e, s) = (err e, s)
  then_share members (ok bucket, s) = share_bucket members bucket s

  -- the `mutationFn` of `createBucketMutation`
  pub create_bucket_request : String → List Member → Async (Store p.Jar) Json
  unfolding share_bucket
  create_bucket_request name members s =
      then_share members
        (api_post p "/buckets" (some (Json.obj (field "name" (Json.str name) Fields.end))) s)

  -- `createBucketMutation`; `setIsDialogOpen` of the hook is used by no one
  pub create_bucket : String → List Member → View p.Jar → View p.Jar
  unfolding create_bucket_request
  create_bucket name members =
      mutate p message_of (create_bucket_request name members)
        (λ v. succeed "The bucket has been created" (invalidate ("buckets" ∷ []) v))

-- The state of `AppSidebar`: the dialog, and the people to invite.
pub record Sidebar : Type 0 where
  pub is_open : Bool
  pub share_with : List Member

-- `trigger` and `dismiss` of `useDialog`
pub trigger : Sidebar → Sidebar
trigger s = record s { is_open = true }

unfoldable pub dismiss : Sidebar → Sidebar
dismiss s = record s { is_open = false }

module _ (p : Platform) (message_of : Failure → String) where
  -- The form of the dialog is submitted: `onSubmit`, and the dialog closes.
  pub submit_new_bucket : String → Sidebar → View p.Jar → Sidebar × View p.Jar
  unfolding create_bucket dismiss
  submit_new_bucket name s v =
      (dismiss (record s { share_with = [] }), create_bucket p message_of name s.share_with v)

-- An entry of `nav`, with its items.
pub record NavItem : Type 0 where
  pub title : String
  pub nav_icon : String
  pub items : List (String × String)

abbrev pub nav_main : List NavItem
nav_main =
    record {
      title = "navigation.personal";
      nav_icon = "Home";
      items = ("navigation.home", "/") ∷ ("navigation.activity", "/activity") ∷ [];
    }
    ∷ []

abbrev pub nav_settings : List NavItem
nav_settings =
    record {
      title = "navigation.settings";
      nav_icon = "Settings2";
      items =
          ("navigation.profile", "/settings/profile")
          ∷ ("navigation.preferences", "/settings/preferences")
          ∷ [];
    }
    ∷ []

-- the titles and icons of the help, whose address is `#`
abbrev pub nav_help : List (String × String)
nav_help = ("Support", "LifeBuoy") ∷ ("Feedback", "Send") ∷ []

pub data SidebarAction : Type 0 where
  opens_new_bucket : SidebarAction
  creates_bucket : (name : String) → SidebarAction
  logs_out : SidebarAction

-- `text.startsWith(prefix)`
abbrev pub starts_with : String → String → Bool
starts_with String.[] s = true
starts_with (String.◌∷◌ c prefix) String.[] = false
starts_with (String.◌∷◌ c prefix) (String.◌∷◌ d s) =
    if String.◌∷◌ c String.[] == String.◌∷◌ d String.[] then starts_with prefix s else false

nav_rows : String → List NavItem → List (Element SidebarAction)
nav_rows pathname [] = []
nav_rows pathname (n ∷ ns) =
    icon n.nav_icon
      ∷ text n.title
      ∷ map (λ (i : String × String). link i.0 (pathname == i.1) i.1) n.items
    ++ nav_rows pathname ns

abbrev is_guest : Option Role → Bool
is_guest none = false
is_guest (some r) = elim r [ guest ↦ true | _ ↦ false ]

-- the user at the foot of the sidebar; `first` is `charAt(0)`
pub user_label : (String → String) → String → Option String → List (Element SidebarAction)
user_label first full_name none = text full_name ∷ []
user_label first full_name (some email) = text (first email) ∷ text full_name ∷ text email ∷ []

-- `AppSidebar`: `role` and `email` are those of the user, once he is loaded, `full_name` his names
-- in one text, and the buckets are their ids and names. The menu at the foot is open.
pub app_sidebar :
    (String → String)
    → String
    → Option Role
    → Option String
    → String
    → List (String × String)
    → List (Element SidebarAction)
unfolding nav_rows user_label
app_sidebar first pathname role email full_name buckets =
    nav_rows pathname nav_main
    ++ (text "navigation.shared_buckets"
          ∷ (if not (is_guest role)
              then button "Plus" false opens_new_bucket
                ∷ form "bucket.new_bucket_dialog.title" ("name" ∷ []) "common.create" creates_bucket
                ∷ []
              else [])
        ++ (map
              (λ (b : String × String).
                link b.1 (starts_with (String.◌++◌ "/buckets/" b.0) pathname)
                  (String.◌++◌ "/buckets/" b.0))
              buckets
            ++ (nav_rows pathname nav_settings
                ++ (map (λ (h : String × String). link h.0 false "#") nav_help
                    ++ (user_label first full_name email
                        ++ (user_label first full_name email
                            ++ separator ∷ button "common.logout" false logs_out ∷ []))))))
