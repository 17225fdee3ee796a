-- ===== src/Client/Login/Accepting.antt =====
-- client/src/widget/login.cpp with server2: what the client makes of the login server's answers.
use cloud_meeting_client.Client.Login.{
  QtJson, LoginDialog, set_user, on_login_object, warn, wrong_credentials, server_message, is_zero,
  on_login_finished, on_login_reply,
}
use cloud_meeting_client.Auth.Http.{
  Request, Json, Member, Leaf, leaf, number, string, object, to_login_response_json, login_status,
  answer_login, make_json_response,
}
use cloud_meeting_client.Auth.Login.{login, LoginResult}
use cloud_meeting_client.Auth.Driver.{Driver, AuthServerConfig}
use cloud_meeting_client.Prelude.{
  text, same, ◌==◌, ◌&&◌, pos, Bytes, List, none, Bool, false, some, Option, true, ◌≡◌, ℕ, ◌<◌,
  if◌then◌else◌, ◌^◌, [], ◌∷◌, not, refl, ◌||◌, arith,
}
use cloud_meeting_client.Server.Connection.{is_empty}
use cloud_meeting_client.Auth.Repository.{UserInfo, or_else}

abbrev pub member_of {ℓ} : {A : Type ℓ} → Bytes → List (Bytes × A) → Option A
member_of k [] = none
member_of k ((j, a) ∷ ms) = if same j k then some a else member_of k ms

-- That Qt reads the text that Boost writes of an object: its members with their texts, their numbers
-- where they fit, and the members of an object in it.
pub record ReadsWritten (qt : QtJson) (json : Json) (ms : List (Bytes × Member)) : Type 0 where
  pub root : qt.Object
  pub from_json_root : qt.from_json (json.serialize ms) ≡ some root
  pub contains_root :
      (k : Bytes)
      → qt.contains_key root k ≡ (elim (member_of k ms) [ none ↦ false | some m ↦ true ])
  pub to_int_root :
      (k : Bytes) (n : ℕ)
      → member_of k ms ≡ some (leaf (number n))
      → n < 2 ^ 31
      → qt.to_int root k ≡ pos n
  pub to_string_root :
      (k t : Bytes) → member_of k ms ≡ some (leaf (string t)) → qt.to_string root k ≡ t
  pub to_long_long_inner :
      (k j : Bytes) (ls : List (Bytes × Leaf)) (n : ℕ)
      → member_of k ms ≡ some (object ls)
      → member_of j ls ≡ some (number n)
      → n < 2 ^ 53
      → qt.to_long_long (qt.to_object root k) j ≡ pos n
  pub to_string_inner :
      (k j : Bytes) (ls : List (Bytes × Leaf)) (t : Bytes)
      → member_of k ms ≡ some (object ls)
      → member_of j ls ≡ some (string t)
      → qt.to_string (qt.to_object root k) j ≡ t

and_false : (b : Bool) → (b && false) ≡ false
and_false b = ground arith

or_true : (b : Bool) → (b || true) ≡ true
or_true b = ground arith

-- The dialog after an answer with a result of the login.
abbrev pub answered : LoginResult → LoginDialog → LoginDialog
answered result d =
    let e : LoginDialog = record d { request_in_flight = false; button_enabled = true } in
    if result.success && result.code == 0
    then record e {
      session = set_user (pos result.user.id) result.user.name result.user.avatar result.user.info;
      accepted = true;
    }
    else warn (if is_empty result.message then wrong_credentials else server_message result.message)
        e

abbrev user_members : UserInfo → List (Bytes × Leaf)
user_members user =
    (text "id", number user.id)
    ∷ (text "name", string user.name)
    ∷ (text "avatar", string user.avatar)
    ∷ (text "info", string user.info)
    ∷ []

-- The members of an answer.
abbrev pub written : LoginResult → List (Bytes × Member)
written result =
    (text "code", leaf (number result.code))
    ∷ (text "message", leaf (string result.message))
    ∷ (if result.success then (text "data", object (user_members result.user)) ∷ [] else [])

status_positive : (result : LoginResult) → (login_status result == 0) ≡ false
unfolding login_status
status_positive result = ground arith

module _ (qt : QtJson) (json : Json) where
  -- That the object that Qt reads in the answer with a result leads to the dialog's answer.
  abbrev AnswersTo : LoginResult → LoginDialog → Type 0
  AnswersTo result d =
      (law : ReadsWritten qt json (written result))
      → result.code < 2 ^ 31
      → result.user.id < 2 ^ 53
      → on_login_object qt law.root (record d { request_in_flight = false; button_enabled = true })
        ≡ answered result d

  refused-AnswersTo :
      (code : ℕ) (message : Bytes) (user : UserInfo) (d : LoginDialog)
      → AnswersTo (record { success = false; code = code; message = message; user = user }) d
  unfolding on_login_object text
  refused-AnswersTo code message user d law c i =
      let said = law.to_string_root (text "message") message refl in
      let refuses : (not (is_zero (qt.to_int law.root (text "code")))
            || not (qt.contains_key law.root (text "data")))
          ≡ true =
        rw (law.contains_root (text "data"))
          (or_true (not (is_zero (qt.to_int law.root (text "code"))))) in
      rw (refuses, said) refl

  accepted-AnswersTo :
      (code : ℕ) (message : Bytes) (user : UserInfo) (d : LoginDialog)
      → AnswersTo (record { success = true; code = code; message = message; user = user }) d
  unfolding on_login_object text
  accepted-AnswersTo code message user d law c i =
      let inner = law.to_string_inner (text "data") in
      rw
        (
          law.to_int_root (text "code") code refl c,
          law.contains_root (text "data"),
          law.to_string_root (text "message") message refl,
          law.to_long_long_inner (text "data") (text "id") (user_members user) user.id refl refl i,
          inner (text "name") (user_members user) user.name refl refl,
          inner (text "avatar") (user_members user) user.avatar refl refl,
          inner (text "info") (user_members user) user.info refl refl,
        )
        (ground arith)

  result-AnswersTo : (result : LoginResult) (d : LoginDialog) → AnswersTo result d
  result-AnswersTo result d =
      elim result.success as (λ b. AnswersTo (record result { success = b }) d) [
        | true ↦ accepted-AnswersTo result.code result.message result.user d
        | false ↦ refused-AnswersTo result.code result.message result.user d
      ]

  -- What the dialog makes of the answer to a login whose body was read: where the login succeeded
  -- with the code 0, the session is the user's and the dialog is accepted; otherwise, also where it
  -- succeeded with another code, the session stays and a box tells the message, or that the name or
  -- password is wrong where there is none. The button works again. The conditions: Qt reads what
  -- Boost writes, and the code and the user's id fit the types that the client reads.
  pub on_login_finished-answer_login :
      (driver : Driver) (config : AuthServerConfig) (sha256 : Bytes → Bytes) (req : Request)
      (peer : Option Bytes) (username password : Bytes) (s : driver.State) (has_error : Bool)
      (d : LoginDialog)
      → let result =
          (login driver config sha256 username password
            (or_else peer (text "unknown"))
            (or_else req.user_agent [])
            s).0 in
        ReadsWritten qt json (written result)
        → result.code < 2 ^ 31
        → result.user.id < 2 ^ 53
        → let response =
            (answer_login json driver config sha256 req peer (username, password) s).0 in
          on_login_finished qt
            (some
              (record { has_error = has_error; status = response.status; payload = response.body }))
            d
          ≡ answered result d
  unfolding on_login_finished on_login_reply answer_login make_json_response to_login_response_json
  on_login_finished-answer_login driver config sha256 req peer username password s has_error d law c
        i =
      let result =
        (login driver config sha256 username password (or_else peer (text "unknown"))
          (or_else req.user_agent []) s).0 in
      let reached : (has_error && login_status result == 0) ≡ false =
        rw (status_positive result) (and_false has_error) in
      rw (reached, law.from_json_root) (result-AnswersTo result d law c i)
