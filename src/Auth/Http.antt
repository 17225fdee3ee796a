-- ===== src/Auth/Http.antt =====
-- server2/src/util/json_helper.cpp and server2/src/http/http_session.cpp. Boost's JSON and HTTP are
-- parameters: what a parsed value offers, the text of an object, and a request as it was read.
pub mod Access
use cloud_meeting_client.Auth.Driver.{Driver, AuthServerConfig}
use cloud_meeting_client.Auth.Repository.{or_else}
use cloud_meeting_client.Auth.Login.{LoginResult, refused, login}
use cloud_meeting_client.Prelude.{
  ℕ, Bytes, Bool, Option, none, some, text, not, List, ◌∷◌, [], if◌then◌else◌, same, ◌||◌, ◌==◌,
  inl, inr, ◌⊎◌,
}
use cloud_meeting_client.Server.Connection.{is_empty}

-- What the program writes into an object: a number, a text, or an object of these.
pub data Leaf : Type 0 where
  number : ℕ → Leaf
  string : Bytes → Leaf

pub data Member : Type 0 where
  leaf : Leaf → Member
  object : List (Bytes × Leaf) → Member

-- `parse` is `none` where it throws, `as_object` and `as_string` where the value is of another kind,
-- and the function of an object where it has no such member.
pub record Json : Type 1 where
  pub Value : Type 0
  pub parse : Bytes → Option Value
  pub as_object : Value → Option (Bytes → Option Value)
  pub as_string : Value → Option Bytes
  pub serialize : List (Bytes × Member) → Bytes

infixl 5 ◌>>=◌
abbrev pub ◌>>=◌ : {A B : Type 0} → Option A → (A → Option B) → Option B
none >>= f = none
some a >>= f = f a

pub data Verb : Type 0 where
  options_verb get_verb post_verb other_verb : Verb

pub record Request : Type 0 where
  pub method : Verb
  pub target : Bytes
  pub version : ℕ
  pub keep_alive : Bool
  pub user_agent : Option Bytes
  pub body : Bytes

pub record Response : Type 0 where
  pub status : ℕ
  pub version : ℕ
  pub headers : List (Bytes × Bytes)
  pub keep_alive : Bool
  pub body : Bytes

unfoldable pub make_json_response : ℕ → Bytes → ℕ → Bool → Response
make_json_response status body version keep_alive = record {
  status = status;
  version = version;
  headers =
      (text "Server", text "CloudMeetingAuthServer")
      ∷ (text "Content-Type", text "application/json; charset=utf-8")
      ∷ (text "Access-Control-Allow-Origin", text "*")
      ∷ (text "Access-Control-Allow-Headers", text "Content-Type")
      ∷ (text "Access-Control-Allow-Methods", text "POST, OPTIONS")
      ∷ [];
  keep_alive = keep_alive;
  body = body;
}

-- The status line for a result of `login`.
unfoldable pub login_status : LoginResult → ℕ
login_status result =
    if result.success
    then 200
    else if result.code == 400
    then 400
    else if result.code == 403
    then 403
    else if result.code == 500
    then 500
    else 401

pub data ReadResult : Type 0 where
  end_of_stream read_error : ReadResult
  read_request : Request → ReadResult

-- What is done with the connection after a request was read or a response written.
pub data Next : Type 0 where
  read_again shutdown_send stop : Next

unfoldable pub after_write : Bool → Bool → Next
after_write error keep_alive =
    if error then stop else if not keep_alive then shutdown_send else read_again

module _ (json : Json) where
  open json use {Value, parse, as_object, as_string, serialize}

  unfoldable pub parse_login_request : Bytes → Option (Bytes × Bytes)
  parse_login_request body = do
    root ← parse body
    obj ← as_object root
    first ← obj (text "username")
    second ← obj (text "password")
    username ← as_string first
    password ← as_string second
    if is_empty username then none else some (username, password)

  unfoldable pub to_login_response_json : LoginResult → Bytes
  to_login_response_json result = serialize (
      (text "code", leaf (number result.code))
      ∷ (text "message", leaf (string result.message))
      ∷ (if result.success
          then (
            text "data",
            object (
                (text "id", number result.user.id)
                ∷ (text "name", string result.user.name)
                ∷ (text "avatar", string result.user.avatar)
                ∷ (text "info", string result.user.info)
                ∷ []),
          )
            ∷ []
          else []))

  module _ (driver : Driver) (config : AuthServerConfig) (sha256 : Bytes → Bytes) where
    open driver use {State}

    -- A login whose body was parsed. The peer's address is `none` where the socket does not know it.
    unfoldable pub answer_login : Request → Option Bytes → Bytes × Bytes → State → Response × State
    answer_login req peer (username, password) s =
        let (result, t) =
          login driver config sha256 username password (or_else peer (text "unknown"))
            (or_else req.user_agent []) s in
        (
          make_json_response (login_status result) (to_login_response_json result) req.version
              req.keep_alive,
          t,
        )

    unfoldable pub parsed_login :
        Option (Bytes × Bytes) → Request → Option Bytes → State → Response × State
    parsed_login none req peer s = (
      make_json_response 400 (to_login_response_json (refused 400 (text "invalid json body")))
          req.version req.keep_alive,
      s,
    )
    parsed_login (some credentials) req peer s = answer_login req peer credentials s

    unfoldable pub handle_login : Request → Option Bytes → State → Response × State
    handle_login req peer s = parsed_login (parse_login_request req.body) req peer s

    unfoldable pub health_target : Bytes → Bool
    health_target target = same target (text "/health") || same target (text "/api/health")

    unfoldable pub not_found : Request → Response
    not_found req =
        make_json_response 404 (to_login_response_json (refused 404 (text "not found"))) req.version
          req.keep_alive

    abbrev ok_body : Bytes
    ok_body = text "{\"code\":0,\"message\":\"ok\"}"

    unfoldable pub dispatch : Verb → Request → Option Bytes → State → Response × State
    dispatch options_verb req peer s = (make_json_response 204 [] req.version req.keep_alive, s)
    dispatch get_verb req peer s =
        if health_target req.target
        then (make_json_response 200 ok_body req.version req.keep_alive, s)
        else (not_found req, s)
    dispatch post_verb req peer s =
        if same req.target (text "/api/login") then handle_login req peer s else (not_found req, s)
    dispatch other_verb req peer s = (not_found req, s)

    unfoldable pub handle_request : Request → Option Bytes → State → Response × State
    handle_request req peer s = dispatch req.method req peer s

    -- The completion of a read: what is done next, or the response that is written.
    unfoldable pub on_read : ReadResult → Option Bytes → State → (Next ⊎ Response) × State
    on_read end_of_stream peer s = (inl shutdown_send, s)
    on_read read_error peer s = (inl stop, s)
    on_read (read_request req) peer s =
        let (response, t) = handle_request req peer s in (inr response, t)
