-- ===== src/Lib.antt =====
-- Safebucket's web client: the parts of web/src that decide something, modelled as functions on
-- explicit state, with the theorems that they are kept to.
--
-- The program. A page signs a user in, keeps the tokens in cookies, and calls the API with them; an
-- answer of 403 makes it refresh the access token once and try again. On a bucket's page the user
-- drops files and folders: the folders are read through the browser's file system API, created on
-- the server from the top down, and each file is uploaded into its folder by the upload provider,
-- which lists the uploads and can cancel them. What succeeds or fails is told in notifications.
-- Members, permissions, the trash and the activity feed are views of what the API answers. The
-- sidebar lists the buckets and creates one, the bar above a page names the folders that lead to
-- it, and the settings change the profile and the look, which the browser's storage keeps.
--
-- The files.
--   Prelude  Boolean tests, the array methods that the source calls, texts, and paths split at `/`.
--   Ui       What a component puts on a page.
--   Auth     Platform has what the browser and the packages js-cookie and jwt-decode provide, as a
--            record with laws, and the state of the page; Cookies, Session and Refresh are
--            web/src/lib/auth-service.ts (with web/src/lib/route-guards.ts in Session), Config is
--            web/src/hooks/useConfig.ts and web/src/queries/config.ts, Api is web/src/lib/api.ts,
--            Login is web/src/hooks/useAuth.ts and the submit handlers of
--            components/reset-password/PasswordResetValidateForm.tsx and
--            components/invites/components/InviteAcceptForm.tsx under web/src, and Pages has the
--            routes auth/login and auth/complete of web/src/routes, the buttons of the providers,
--            the form that asks for a new password, and the enrolment of an invited user, with
--            what all these forms show in Pages/Forms and Pages/Forms/Challenge. Routes is the
--            start of the page in web/src/main.tsx with web/src/routes/__root.tsx and
--            web/src/routes/_authenticated.tsx.
--   Drop     web/src/components/upload/components/DragDropZone.tsx: Walk reads what is dropped,
--            Folders lists and creates the folders, Drop itself has the handlers, and Placed puts
--            the three together.
--   Upload   Provider is web/src/components/upload/context/UploadProvider.tsx, Transfer is
--            uploadToStorage of web/src/components/upload/helpers/api.ts, Status is utils.tsx
--            there, Life follows one upload from startUpload to its end through both, and Popover
--            is components/UploadPopover.tsx there, with the random ids of web/src/lib/utils.ts.
--   Toast    web/src/components/ui/hooks/use-toast.ts.
--   Bucket   Permissions (web/src/hooks/usePermissions.ts), Sharing
--            (components/app-sidebar/hooks/useAddMembers.ts), Members
--            (components/bucket-members/hooks/useBucketMembersData.ts), Items
--            (components/bucket-view/helpers/utils.ts), Trash (buildFolderPath of
--            components/bucket-view/components/BucketTrashView.tsx), Email (EMAIL_REGEX of
--            types/bucket.ts), Requests (what those pages ask of the API), Queries
--            (queries/bucket.ts), Uploads (what drops and uploads ask of the API),
--            FileActions (components/FileActions/hooks and helpers), Menu
--            (components/FileActions and the column of actions of the trash), Cells (the columns
--            of the list and of the trash), Views (the list, the cards and the trash, with
--            components/common/components/DataTable), Page (the rest of components/bucket-view and
--            components/bucket-members), Handlers (what the handlers of all these do to the states
--            of the components and hooks) and Run (the steps that the page can take), all under
--            web/src.
--   Sidebar  web/src/components/app-sidebar: Buckets is AppSidebar.tsx with the dialog of a new
--            bucket and its hooks, Sharing is AddMembers.tsx and its list, and Trail the
--            breadcrumbs of a page.
--   Settings web/src/components/settings-view (Profile) and web/src/components/theme: Theme is the
--            provider of the theme and Style the style sheets that it loads.
--   Activity web/src/components/activity-view/helpers and the messages of web/src/types/activity.ts;
--            Format is formatMessage there, which fills the placeholders of a text.
-- A module Laws, or one named for a predicate or for what it proves, has theorems of the module
-- above it; a module Examples has theorems applied to concrete inputs.
--
-- How the source is read. A function that writes a module's variable or a React state takes the
-- state and returns the new one. An async function is the function of the state in which its
-- promise settles; where callers interleave, as in Auth/Refresh/Flights, Upload/Provider and
-- Upload/Life, the pieces between two waits are the steps; the events and timers of an upload may
-- come in any order and more than once, and a style sheet begins and finishes its load in steps of
-- their own. `fetch` is a function of the number of requests sent and of the request, so a request
-- that is repeated may be answered otherwise. Exceptions are values of Result; `undefined` is
-- `none`, and the truth value of a text is `present`. What a component renders is a list of Ui's
-- elements, each with the action of its handler: the order and the conditions are the source's,
-- markup and styles are left out; a row or a card is a button for each of its handlers of the
-- mouse. The page of a bucket is run by a step relation: a user does what the page offers, drops
-- something, or leaves a dialog, and queries are answered; the requests of a drop or an upload are
-- made there, up to the answer that creates the file, after which Upload/Life follows it. The ids
-- of the folders of a drop, as the API gives them, are arguments, and so is whether the list of
-- what is dropped can still be read after the first wait. The page is served over https, so that a
-- secure cookie is stored; localStorage is a record with laws. Tokens in the API's answers are texts. Numbers are
-- natural numbers; a difference that may be negative is an integer. `Math.round` and `Math.floor`
-- are taken of the exact quotient. Ids drawn at random are arguments.
--
-- Fuel. Only buildFolderPath has it, that of the trash and that of the breadcrumbs: the loop goes
-- on for ever if a folder lies in itself. Any fuel above a rank that falls from each folder to the
-- one it lies in is enough.
--
-- Not modelled: the server in Go; markup, styles, skeletons and the components of
-- web/src/components/ui, which decide nothing of the program's own; translations, whose keys stand
-- for the texts; the query library (a query is its answer, a mutation is run to its end); the
-- router's generated tree, and its routes that only render; the start page, the sorting of tables
-- and the fields of a dialog, which show what they are given; and the formats of sizes and
-- dates, which the browser's own functions give.
pub mod Prelude
pub mod Ui
pub mod Auth
pub mod Drop
pub mod Upload
pub mod Toast
pub mod Bucket
pub mod Sidebar
pub mod Settings
pub mod Activity
