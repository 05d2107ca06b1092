-- ===== src/Auth/Session.antt =====
-- The session that the cookies hold: `decodeToken`, `getCurrentSession` and `logout` of
-- web/src/lib/auth-service.ts, and `requireAuth` of web/src/lib/route-guards.ts.
use safebucket.Prelude.{
  ℕ, ◌+◌, ◌*◌, ◌≡◌, ◌≢◌, refl, sym, ap, Bool, true, false, Option-cases, inl, inr, Option, none,
  some, String, arith, leb, if◌then◌else◌, present, present-eq-some, present_of_ne, ◌↔◌,
}
use safebucket.Auth.Platform.{Platform, Store, Payload, Session, clock}
use safebucket.Auth.Cookies.{
  get_access_token, get_refresh_token, get_auth_provider, clear_all, get-clear_all,
}

-- TOKEN_EXPIRY_BUFFER_MS
abbrev pub token_expiry_buffer_ms : ℕ
token_expiry_buffer_ms = 30000

pub record DecodedToken : Type 0 where
  pub payload : Payload
  pub is_expired : Bool
  pub expires_at : ℕ

-- `!decoded || decoded.isExpired` taken with what is built from the payload
abbrev pub session_of : String → DecodedToken → Session
session_of provider d = record {
  user_id = d.payload.user_id;
  email = d.payload.email;
  role = d.payload.role;
  auth_provider = provider;
}

infixl 5 ◌>>=◌
abbrev ◌>>=◌ {ℓ κ} : {A : Type ℓ} {B : Type κ} → Option A → (A → Option B) → Option B
none >>= f = none
some a >>= f = f a

>>=-eq-some {ℓ κ} :
    {A : Type ℓ} {B : Type κ} (m : Option A) (f : A → Option B) {b : B}
    → (m >>= f) ≡ some b
    → (a : A) × (m ≡ some a) × (f a ≡ some b)
>>=-eq-some none f h = cc
>>=-eq-some (some a) f h = (a, refl, h)

unless-eq-some {ℓ} :
    {A : Type ℓ} (b : Bool) (a : A) {x : A}
    → (if b then none else some a) ≡ some x
    → (b ≡ false) × (a ≡ x)
unless-eq-some true a h = cc
unless-eq-some false a h = (refl, cc)

-- The payload of a token for a signed-in user at the time `now`: it decodes, and it has more than
-- the buffer left.
pub record IsLive (p : Platform) (now : ℕ) (token : String) (c : Payload) : Type 0 where
  pub decodes : p.jwt_decode token ≡ some c
  pub in_time : leb (c.exp * 1000) (now + token_expiry_buffer_ms) ≡ false

module _ (p : Platform) where
  -- `Date.now() >= exp * 1000 - BUFFER`, with the buffer on the other side: `-` stops at 0 here
  unfoldable pub decode_token : ℕ → String → Option DecodedToken
  decode_token now token = do
    c ← p.jwt_decode token
    some (record {
      payload = c;
      is_expired = leb (c.exp * 1000) (now + token_expiry_buffer_ms);
      expires_at = c.exp * 1000;
    })

  unfoldable pub get_current_session : Store p.Jar → Option Session
  unfolding decode_token
  get_current_session s = do
    access_token ← present (get_access_token p s.jar)
    auth_provider ← present (get_auth_provider p s.jar)
    decoded ← decode_token (clock p s) access_token
    if decoded.is_expired then none else some (session_of auth_provider decoded)

  unfoldable pub logout : Store p.Jar → Store p.Jar
  logout s = record s { jar = clear_all p s.jar }

  -- `requireAuth`: `none` lets the route load, `some` is the address of the login page's `redirect`
  -- search parameter that it throws.
  unfoldable pub require_auth : String → Store p.Jar → Option String
  require_auth href s = elim s.session [ none ↦ some href | some _ ↦ none ]

-- A session with this token, provider and payload.
pub record HasSession (p : Platform) (s : Store p.Jar) (x : Session) : Type 0 where
  pub token : String
  pub claims : Payload
  pub stored : get_access_token p s.jar ≡ some token
  pub token_given : token ≢ ""
  pub provider : get_auth_provider p s.jar ≡ some x.auth_provider
  pub provider_given : x.auth_provider ≢ ""
  pub live : IsLive p (clock p s) token claims
  pub user_id : x.user_id ≡ claims.user_id
  pub email : x.email ≡ claims.email
  pub role : x.role ≡ claims.role

module _ (p : Platform) where
  decode_token-IsLive :
      (now : ℕ) (token : String) {d : DecodedToken}
      → decode_token p now token ≡ some d
      → d.is_expired ≡ false
      → IsLive p now token d.payload
  unfolding decode_token
  decode_token-IsLive now token {d} e live = elim (Option-cases (p.jwt_decode token)) [
    | inl fails ↦ ground (arith)
    | inr (c, decodes) ↦ record { decodes = ground arith; in_time = ground arith }
  ]

  IsLive-decode_token :
      (now : ℕ) (token : String) {c : Payload}
      → IsLive p now token c
      → decode_token p now token
        ≡ some (record { payload = c; is_expired = false; expires_at = c.exp * 1000 })
  unfolding decode_token
  IsLive-decode_token now token l = rw l.decodes (rw l.in_time refl)

  -- The session is one that the cookies hold.
  pub get_current_session_sound :
      (s : Store p.Jar) {x : Session} → get_current_session p s ≡ some x → HasSession p s x
  unfolding get_current_session
  get_current_session_sound s {x} e =
      let (token, is_token, e₁) = >>=-eq-some (present (get_access_token p s.jar)) _ e in
      let (provider, is_provider, e₂) = >>=-eq-some (present (get_auth_provider p s.jar)) _ e₁ in
      let (d, is_decoded, e₃) = >>=-eq-some (decode_token p (clock p s) token) _ e₂ in
      let (stored, token_given) = present-eq-some (get_access_token p s.jar) is_token in
      let (stored_provider, provider_given) =
        present-eq-some (get_auth_provider p s.jar) is_provider in
      let (live, same) = unless-eq-some d.is_expired (session_of provider d) e₃ in
      record {
        token = token;
        claims = d.payload;
        stored = stored;
        token_given = token_given;
        provider = rw (← same) stored_provider;
        provider_given = rw (← same) provider_given;
        live = decode_token-IsLive (clock p s) token is_decoded live;
        user_id = ap (λ (y : Session). y.user_id) (sym same);
        email = ap (λ (y : Session). y.email) (sym same);
        role = ap (λ (y : Session). y.role) (sym same);
      }

  -- A session that the cookies hold is found.
  pub get_current_session_complete :
      (s : Store p.Jar) {x : Session} → HasSession p s x → get_current_session p s ≡ some x
  unfolding get_current_session
  get_current_session_complete s {x} h =
      let read_token = present_of_ne h.token h.token_given in
      let read_provider = present_of_ne x.auth_provider h.provider_given in
      rw (h.stored, read_token, h.provider, read_provider)
        (rw (IsLive-decode_token (clock p s) h.token h.live) (cc (h.user_id, h.email, h.role)))

  -- The current session is exactly what the cookies hold: a non-empty access token that decodes
  -- and is more than the buffer from its expiry, and a non-empty provider; the user's data are the
  -- token's.
  pub get_current_session_iff :
      (s : Store p.Jar) {x : Session} → (get_current_session p s ≡ some x) ↔ HasSession p s x
  get_current_session_iff s = (get_current_session_sound s, get_current_session_complete s)

  -- After `logout` no session is found and no token is left, and the page's other state is as before.
  pub logout_ends :
      (s : Store p.Jar)
      → (get_current_session p (logout p s) ≡ none)
        × (get_access_token p (logout p s).jar ≡ none)
        × (get_refresh_token p (logout p s).jar ≡ none)
        × (get_auth_provider p (logout p s).jar ≡ none)
        × ((logout p s).sent ≡ s.sent)
  unfolding get_current_session logout
  logout_ends s = let (a, r, v) = get-clear_all p s.jar in (rw a refl, a, r, v, refl)
