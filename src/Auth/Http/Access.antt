-- ===== src/Auth/Http/Access.antt =====
-- server2/src/http/http_session.cpp: which requests get a login's success.
use cloud_meeting_client.Auth.Driver.{Driver, AuthServerConfig}
use cloud_meeting_client.Auth.Repository.{UserCredential, or_else}
use cloud_meeting_client.Auth.Login.{LoginResult, login}
use cloud_meeting_client.Auth.Login.Outcomes.{
  Authorized, LoginEnds, login_lem, missing, query_failed, unknown, disabled, wrong_password,
  profile_failed, accepted,
}
use cloud_meeting_client.Auth.Http.{
  not_found, Json, Request, post_verb, login_status, parse_login_request, answer_login,
  handle_login, dispatch, handle_request, make_json_response, parsed_login,
}
use cloud_meeting_client.Prelude.{
  Bytes, Option, none, some, text, true, ◌≡◌, same, inr, Bool-cases, arith, subst, refl, inl, [],
}

module _ (driver : Driver) (config : AuthServerConfig) (sha256 : Bytes → Bytes) where
  open driver use {State}

  abbrev pub SomeAuthorized : Bytes → Bytes → State → Type 0
  SomeAuthorized username password s =
      (c : UserCredential) × (t : State) × Authorized driver config sha256 username password s c t

  -- A login that reports success is of a user who is known and not disabled, with the password's hash.
  pub login-Authorized :
      (username password ip device : Bytes) (s : State)
      → (login driver config sha256 username password ip device s).0.success ≡ true
      → SomeAuthorized username password s
  login-Authorized username password ip device s h =
      go (login_lem driver config sha256 username password ip device s)
    where
      go :
          LoginEnds driver config sha256 username password ip device s
            (login driver config sha256 username password ip device s)
          → SomeAuthorized username password s
      go (missing e f k u) = cc
      go (query_failed t q f k u) = cc
      go (unknown t q f k u) = cc
      go (disabled c t q n f k u) = cc
      go (wrong_password c t q n f k u) = cc
      go (profile_failed c t u a q f k v) = (c, t, a)
      go (accepted c info t u a q f k v w) = (c, t, a)

  status_ok : (result : LoginResult) → login_status result ≡ 200 → result.success ≡ true
  unfolding login_status
  status_ok result h = ground arith

  module _ (json : Json) where
    abbrev Granted : Request → State → Type 0
    Granted req s =
        (username : Bytes) × (password : Bytes) × (parse_login_request json req.body
          ≡ some (username, password))
        × SomeAuthorized username password s

    answered-Authorized :
        (req : Request) (peer : Option Bytes) (username password : Bytes) (s : State)
        → (answer_login json driver config sha256 req peer (username, password) s).0.status ≡ 200
        → SomeAuthorized username password s
    unfolding answer_login make_json_response
    answered-Authorized req peer username password s h =
        let ip = or_else peer (text "unknown") in
        let device = or_else req.user_agent [] in
        login-Authorized username password ip device s
          (status_ok (login driver config sha256 username password ip device s).0 h)

    handled-Granted :
        (req : Request) (peer : Option Bytes) (s : State)
        → (handle_login json driver config sha256 req peer s).0.status ≡ 200
        → Granted req s
    unfolding handle_login parsed_login make_json_response
    handled-Granted req peer s h = go (parse_login_request json req.body) refl h
      where
        go :
            (r : Option (Bytes × Bytes))
            → parse_login_request json req.body ≡ r
            → (parsed_login json driver config sha256 r req peer s).0.status ≡ 200
            → Granted req s
        go none e k = absurd (omega (arith, k))
        go (some (username, password)) e k =
            (username, password, e, answered-Authorized req peer username password s k)

    -- A response to POST with the status 200 is to a body with a user's name and password for which
    -- the user is known and not disabled and the password's hash is the stored one.
    pub handle_request-Authorized :
        (req : Request) (peer : Option Bytes) (s : State)
        → req.method ≡ post_verb
        → (handle_request json driver config sha256 req peer s).0.status ≡ 200
        → (username : Bytes) × (password : Bytes) × (parse_login_request json req.body
            ≡ some (username, password))
          × SomeAuthorized username password s
    unfolding handle_request dispatch not_found make_json_response
    handle_request-Authorized req peer s m h =
        let posted : (dispatch json driver config sha256 post_verb req peer s).0.status ≡ 200 =
          subst (λ v. (dispatch json driver config sha256 v req peer s).0.status ≡ 200) m h in
        elim (Bool-cases (same req.target (text "/api/login"))) [
          | inl e ↦ handled-Granted req peer s (rw e at posted)
          | inr e ↦ absurd (omega (arith, rw e at posted))
        ]
