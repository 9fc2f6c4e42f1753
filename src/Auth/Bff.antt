-- ===== src/Auth/Bff.antt =====
-- apps/web/src/lib/auth/bff.ts: the handlers that stand between the browser and the API and keep
-- the refresh token in a cookie. A `user` is of any type `U`. A payload is what `readEnvelope`
-- gives: none where the text is no JSON or is null. The cookie sink is lib/auth/cookies.ts.
pub mod Laws
use cloud_photo_delivery.Prelude.{
  ℕ, ◌+◌, String, Bool, true, false, not, ◌&&◌, ◌||◌, Option, none, some, List, [], ◌∷◌, ◌++◌, leb,
  if◌then◌else◌, Keyed, get, put, remove, length, truthy, or_default,
}

pub record ErrorBody : Type 0 where
  pub code : String
  pub message : String

pub record AuthData (U : Type 0) : Type 0 where
  pub access_token : Option String
  pub refresh_token : Option String
  pub expires_in : Option ℕ
  pub user : Option U

pub record Envelope (U : Type 0) : Type 0 where
  pub data_of : Option (AuthData U)
  pub error : Option ErrorBody

-- A response of the API, or a request that failed.
pub data GoReply (U : Type 0) : Type 0 where
  unreachable : GoReply U
  responds : (status : ℕ) (payload : Option (Envelope U)) → GoReply U

-- What the browser is sent: the API's payload as it came, an error of the handler's own, the
-- session, or `{ ok: true }`.
pub data Body (U : Type 0) : Type 0 where
  relays : Envelope U → Body U
  fails_with : ErrorBody → Body U
  opens : (access_token : Option String) (expires_in : Option ℕ) (user : Option U) → Body U
  done : Body U

pub record Response (U : Type 0) : Type 0 where
  pub status : ℕ
  pub body : Body U

-- What a handler does to the cookie: nothing, `write`, or `clear`.
pub data CookieOp : Type 0 where
  keeps clears : CookieOp
  writes : String → CookieOp

-- A handler that has ended. It has no response where its promise is rejected.
pub record Handled (U : Type 0) : Type 0 where
  pub response : Option (Response U)
  pub cookie : CookieOp

-- The browser's cookie after a response.
abbrev pub after_cookie : CookieOp → Option String → Option String
after_cookie keeps jar = jar
after_cookie clears jar = none
after_cookie (writes token) jar = some token

-- `response.ok`
abbrev pub is_ok : ℕ → Bool
is_ok status = leb 200 status && leb status 299

module _ {U : Type 0} where
  abbrev pub envelope_error : String → String → ℕ → Response U
  envelope_error code message status = record {
    status = status;
    body = fails_with (record { code = code; message = message });
  }

  abbrev pub no_data : AuthData U
  no_data = record { access_token = none; refresh_token = none; expires_in = none; user = none }

  -- `(payload?.data ?? {}) as AuthData`
  abbrev pub auth_data : Option (Envelope U) → AuthData U
  auth_data none = no_data
  auth_data (some payload) = or_default payload.data_of no_data

  -- `payload ?? { data: null, error: { code, message } }`
  abbrev pub relayed : Option (Envelope U) → String → String → Body U
  relayed none code message = fails_with (record { code = code; message = message })
  relayed (some payload) code message = relays payload

  -- `cookie.write` and the response with the session.
  abbrev opened : AuthData U → Handled U
  opened data_of = record {
    response = some (record {
      status = 200;
      body = opens data_of.access_token data_of.expires_in data_of.user;
    });
    cookie = writes (or_default data_of.refresh_token "");
  }

  abbrev has_tokens : AuthData U → Bool
  has_tokens data_of = truthy data_of.access_token && truthy data_of.refresh_token

  -- `authenticate`, of `loginHandler` and `signupHandler`, by whether `request.json()` gives a body
  -- and by the API's answer, which is not asked for otherwise.
  unfoldable pub authenticate : Bool → GoReply U → Handled U
  authenticate false reply = record {
    response = some (envelope_error "VALIDATION_ERROR" "Invalid JSON body" 422);
    cookie = keeps;
  }
  authenticate true unreachable = record { response = none; cookie = keeps }
  authenticate true (responds status payload) =
      if not (is_ok status)
      then record {
        response =
            some (record { status = status; body = relayed payload "UNKNOWN" "Request failed" });
        cookie = keeps;
      }
      else if not (has_tokens (auth_data payload))
      then record {
        response = some (envelope_error "UNKNOWN" "Malformed auth response" 502);
        cookie = keeps;
      }
      else opened (auth_data payload)

  -- The handlers, with the path that each posts to where there is a body.
  unfoldable pub login_handler : Bool → GoReply U → Handled U × Option String
  login_handler body reply =
      (authenticate body reply, if body then some "/api/v1/auth/login" else none)

  unfoldable pub signup_handler : Bool → GoReply U → Handled U × Option String
  signup_handler body reply =
      (authenticate body reply, if body then some "/api/v1/auth/signup" else none)

  -- The answer where the API is not configured.
  abbrev pub service_unavailable : Response U
  service_unavailable =
      envelope_error "SERVICE_UNAVAILABLE" "The API is not configured on this server." 503

  -- `refreshHandler` behind `refreshOnce`.
  unfoldable pub after_refresh : ℕ → Option (Envelope U) → Handled U
  after_refresh status payload =
      if leb 400 status || not (has_tokens (auth_data payload))
      then record {
        response = some (record {
          status = if leb 400 status then status else 401;
          body = relayed payload "UNAUTHENTICATED" "Session expired";
        });
        cookie = clears;
      }
      else opened (auth_data payload)

  -- What the promise of `refreshOnce` resolves to: a request that failed counts as status 502.
  unfoldable pub refresh_result : GoReply U → ℕ × Option (Envelope U)
  refresh_result unreachable = (502, none)
  refresh_result (responds status payload) = (status, payload)

  -- `logoutHandler`, with the tokens that it posts: a request that fails is ignored.
  unfoldable pub logout_handler : Option String → GoReply U → Handled U × List String
  logout_handler jar reply = (
    record { response = some (record { status = 200; body = done }); cookie = clears },
    if truthy jar then or_default jar "" ∷ [] else [],
  )

-- The refreshes under way: `inflightRefreshes`, and the tokens posted so far, by the number of
-- the promise.
pub record Refreshes : Type 0 where
  pub inflight : Keyed ℕ
  pub posts : List String

abbrev once_of : Option ℕ → String → Refreshes → Refreshes × ℕ
once_of (some promise) token r = (r, promise)
once_of none token r = (
  record { inflight = put token (length r.posts) r.inflight; posts = r.posts ++ token ∷ [] },
  length r.posts,
)

unfoldable pub refresh_once : String → Refreshes → Refreshes × ℕ
refresh_once token r = once_of (get token r.inflight) token r

-- The `finally` of the promise for a token.
unfoldable pub end_refresh : String → Refreshes → Refreshes
end_refresh token r = record r { inflight = remove token r.inflight }

-- `refreshHandler` up to its `await`: it ends without a session, or awaits a promise.
pub data Refresh (U : Type 0) : Type 0 where
  ends : Handled U → Refresh U
  awaits : (promise : ℕ) → Refresh U

abbrev pub no_session : {U : Type 0} → Handled U
no_session = record {
  response = some (envelope_error "UNAUTHENTICATED" "No active session" 401);
  cookie = keeps;
}

unfoldable pub refresh_handler : {U : Type 0} → Option String → Refreshes → Refreshes × Refresh U
refresh_handler none r = (r, ends no_session)
refresh_handler (some token) r =
    if not (truthy (some token))
    then (r, ends no_session)
    else let (r', promise) = refresh_once token r in (r', awaits promise)
