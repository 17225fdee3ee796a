-- ===== src/Client/Login.antt =====
-- client/src/widget/login.cpp and client/src/configure/user_session.cpp: the dialog that asks the login
-- server and the session that it fills. What Qt's JSON reads in a text is given by the calls of the code.
pub mod Accepting
use cloud_meeting_client.Prelude.{
  text, Bytes, ℤ, pos, negsuc, Option, if◌then◌else◌, false, ◌||◌, ◌==◌, true, ◌∷◌, ◌&&◌, none,
  some, not, List, ℕ, Bool, [], ◌++◌,
}
use cloud_meeting_client.Server.Connection.{is_empty}

-- `from_json` is `none` where the text does not parse or is not an object. `to_int` has the default -1;
-- `to_json` is the text of an object with two members.
pub record QtJson : Type 1 where
  pub Object : Type 0
  pub from_json : Bytes → Option Object
  pub contains_key : Object → Bytes → Bool
  pub to_int : Object → Bytes → ℤ
  pub to_long_long : Object → Bytes → ℤ
  pub to_string : Object → Bytes → Bytes
  pub to_object : Object → Bytes → Object
  pub to_json : Bytes × Bytes → Bytes × Bytes → Bytes

pub record UserSession : Type 0 where
  pub logged_in : Bool
  pub user_id : ℤ
  pub name : Bytes
  pub avatar : Bytes
  pub info : Bytes

-- `UserSession::clear`, and the session at the start.
unfoldable pub clear_session : UserSession
clear_session = record { logged_in = false; user_id = pos 0; name = []; avatar = []; info = [] }

unfoldable pub set_user : ℤ → Bytes → Bytes → Bytes → UserSession
set_user user_id name avatar info = record {
  logged_in = true;
  user_id = user_id;
  name = name;
  avatar = avatar;
  info = info;
}

pub data Warning : Type 0 where
  no_credentials no_server bad_format wrong_credentials : Warning
  server_message : Bytes → Warning

-- `accepted` is set by `accept`; `warnings` are the boxes, the latest last.
pub record LoginDialog : Type 0 where
  pub request_in_flight : Bool
  pub button_enabled : Bool
  pub session : UserSession
  pub accepted : Bool
  pub warnings : List Warning

-- An answer: whether there was an error, the status of HTTP or 0 where there is none, and the body.
pub record Reply : Type 0 where
  pub has_error : Bool
  pub status : ℕ
  pub payload : Bytes

abbrev pub warn : Warning → LoginDialog → LoginDialog
warn w d = record d { warnings = d.warnings ++ w ∷ [] }

abbrev pub is_zero : ℤ → Bool
is_zero (pos n) = n == 0
is_zero (negsuc n) = false

module _ (qt : QtJson) where
  open qt use {Object, from_json, contains_key, to_int, to_long_long, to_string, to_object, to_json}

  -- The click on the button with the trimmed name and the password, and the bodies that are posted.
  unfoldable pub login_clicked : Bytes → Bytes → LoginDialog → LoginDialog × List Bytes
  login_clicked username password d =
      if d.request_in_flight
      then (d, [])
      else if is_empty username || is_empty password
      then (warn no_credentials d, [])
      else (
        record d { request_in_flight = true; button_enabled = false },
        to_json (text "username", username) (text "password", password) ∷ [],
      )

  -- What is done with an object that was read.
  unfoldable pub on_login_object : Object → LoginDialog → LoginDialog
  on_login_object root d =
      let message = to_string root (text "message") in
      if not (is_zero (to_int root (text "code"))) || not (contains_key root (text "data"))
      then warn (if is_empty message then wrong_credentials else server_message message) d
      else (let details = to_object root (text "data") in
          record d {
            session =
                set_user (to_long_long details (text "id")) (to_string details (text "name"))
                  (to_string details (text "avatar")) (to_string details (text "info"));
            accepted = true;
          })

  unfoldable pub on_login_reply : Reply → LoginDialog → LoginDialog
  on_login_reply reply d =
      if reply.has_error && reply.status == 0
      then warn no_server d
      else elim (from_json reply.payload) [
        | none ↦ warn bad_format d
        | some root ↦ on_login_object root d
      ]

  unfoldable pub on_login_finished : Option Reply → LoginDialog → LoginDialog
  on_login_finished reply d =
      let e : LoginDialog = record d { request_in_flight = false; button_enabled = true } in
      elim reply [ none ↦ e | some r ↦ on_login_reply r e ]
