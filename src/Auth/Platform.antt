-- ===== src/Auth/Platform.antt =====
-- What the client is given by the browser and by packages, and the types of its state: cookies
-- (js-cookie), token decoding (jwt-decode), `fetch`, `Date.now`, and the state of the page.
use safebucket.Prelude.{
  ℕ, suc, ◌≡◌, Bool, Option, none, some, List, ◌∷◌, String, ◌==◌, if◌then◌else◌, length,
}

-- What `response.json()` yields.
mutual
  pub data Json : Type 0 where
    null : Json
    bool : Bool → Json
    num : ℕ → Json
    str : String → Json
    arr : Items → Json
    obj : Fields → Json

  pub data Items : Type 0 where
    nil : Items
    cons : Json → Items → Items

  pub data Fields : Type 0 where
    end : Fields
    field : String → Json → Fields → Fields

-- `value[name]` of an object's own fields; `none` is `undefined`
abbrev pub get_field : String → Fields → Option Json
get_field name end = none
get_field name (field k v fs) = if k == name then some v else get_field name fs

pub data Role : Type 0 where
  admin user guest : Role

-- `IJWTPayload`, less the claims that nothing reads
pub record Payload : Type 0 where
  pub user_id : String
  pub email : String
  pub role : Role
  pub exp : ℕ

-- `Session`
pub record Session : Type 0 where
  pub user_id : String
  pub email : String
  pub role : Role
  pub auth_provider : String

pub data Environment : Type 0 where
  development production : Environment

-- `IConfig`
pub record Config : Type 0 where
  pub api_url : String
  pub environment : Environment

pub record Request : Type 0 where
  pub method : String
  pub url : String
  pub headers : List (String × String)
  pub body : Option Json

-- `content_length` is that header's text; the body is `none` where `response.json()` rejects.
pub record Response : Type 0 where
  pub status : ℕ
  pub content_length : Option String
  pub body : Option Json

pub data Param : Type 0 where
  undefined null : Param
  text : String → Param
  num : ℕ → Param
  bool : Bool → Param

-- `fetch n r` is the answer to the n-th request that the page sends, `none` where the promise
-- rejects; `now n` is the clock once n requests have been sent. `jwt_decode` is `none` where it
-- throws. `query` is the text of `new URLSearchParams(…)`. The laws are the documented behaviour
-- of a cookie store: a cookie that is set or removed reads as such, and no other one changes.
pub record Platform : Type 1 where
  pub Jar : Type 0
  pub get : String → Jar → Option String
  pub set : String → String → Jar → Jar
  pub remove : String → Jar → Jar
  pub jwt_decode : String → Option Payload
  pub fetch : ℕ → Request → Option Response
  pub now : ℕ → ℕ
  pub query : List (String × Param) → String
  pub get-set :
      (k j v : String) (jar : Jar) → get j (set k v jar) ≡ (if k == j then some v else get j jar)
  pub get-remove :
      (k j : String) (jar : Jar) → get j (remove k jar) ≡ (if k == j then none else get j jar)

-- The promise in `refreshPromise`, as far as it is settled.
pub data Flight : Type 0 where
  pending : Flight
  settled : Bool → Flight

-- The state of the page: cookies, `refreshPromise`, the cached configuration, the session in the
-- router's context, the address, and the requests sent so far, the latest first.
pub record Store (Jar : Type 0) : Type 0 where
  pub jar : Jar
  pub refresh_promise : Option Flight
  pub config : Option Config
  pub session : Option Session
  pub location : String
  pub sent : List Request

pub data Failure : Type 0 where
  network : Failure
  bad_json : Failure
  type_error : Failure
  api_error : Option Json → Failure

pub data Result (A : Type 0) : Type 0 where
  ok : A → Result A
  err : Failure → Result A

-- An async function whose promise has settled: its result, and the state that it leaves.
abbrev pub Async : Type 0 → Type 0 → Type 0
Async S A = S → Result A × S

infixl 5 ◌>>=◌ ◌>>◌
abbrev pub ◌>>=◌ : {S A B : Type 0} → Async S A → (A → Async S B) → Async S B
◌>>=◌ m f s = let (r, s') = m s in elim r [ ok a ↦ f a s' | err e ↦ (err e, s') ]

abbrev pub ◌>>◌ : {S A B : Type 0} → Async S A → Async S B → Async S B
m >> k = m >>= λ _. k

abbrev pub pure : {S A : Type 0} → A → Async S A
pure a s = (ok a, s)

-- Sends a request and waits for its answer.
module _ (p : Platform) where
  abbrev pub send : Request → Store p.Jar → Option Response × Store p.Jar
  send r s = (p.fetch (suc (length s.sent)) r, record s { sent = r ∷ s.sent })

  abbrev pub clock : Store p.Jar → ℕ
  clock s = p.now (length s.sent)
