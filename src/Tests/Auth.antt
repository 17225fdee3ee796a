-- ===== src/Tests/Auth.antt =====
-- The theorems on the login server (server2) at a concrete database.
use cloud_meeting_client.Prelude.{
  text, refl, Bool, if◌then◌else◌, ◌+◌, arith, none, length, some, ◌≡◌, Bytes, same, [], ℕ, ◌∷◌,
  true, ◌%◌, false, ℤ, pos, ◌<◌, ◌^◌, negsuc, List, ap, ◌∙◌, Option,
}
use cloud_meeting_client.Auth.Driver.{AuthServerConfig, Driver, returned, create_connection, thrown}
use cloud_meeting_client.Auth.Repository.{
  UserCredential, find_credential_by_username, load_user_info, credential_of,
}
use cloud_meeting_client.Auth.Http.{
  Member, Leaf, leaf, number, string, object, Request, Json, handle_request, dispatch,
  parse_login_request, handle_login, parsed_login, answer_login, login_status, make_json_response,
  post_verb,
}
use cloud_meeting_client.Auth.Login.{
  login, found_login, check_login, accept_login, loaded_login, new_result, failed, LoginResult,
}
use cloud_meeting_client.Auth.Hash.{verify_password, sha256_hex, to_hex, hex_digit}
use cloud_meeting_client.Auth.Http.Access.{SomeAuthorized, handle_request-Authorized}
use cloud_meeting_client.Auth.Login.Outcomes.{login_lem, LoginEnds, Authorized}
use cloud_meeting_client.Client.Login.Accepting.{
  member_of, ReadsWritten, written, answered, on_login_finished-answer_login,
}
use cloud_meeting_client.Client.Login.{QtJson, LoginDialog, on_login_finished, clear_session}

-- A digest of one byte.
abbrev digest : Bytes → Bytes
digest d = (length d % 256) ∷ []

abbrev settings : AuthServerConfig
settings = record {
  listen_address = text "0.0.0.0";
  listen_port = 9000;
  mysql_host = text "127.0.0.1";
  mysql_port = 3306;
  mysql_user = text "root";
  mysql_password = [];
  mysql_database = text "CCMeeting";
}

-- A database with one user; the state is the number of rows of the log. The query for a profile throws.
abbrev one_user : Driver
one_user = record {
  State = ℕ;
  Connection = Bool;
  connect = λ url user password s. (returned true, s);
  set_schema = λ conn schema s. (returned conn, s);
  select_user = λ conn username s. (
    returned (
        if same username (text "ann")
        then some
            (record { user_id = 1; username = text "ann"; password_hash = text "03"; status = 1 })
        else none),
    s,
  );
  select_profile = λ conn user_id s. (thrown, s);
  insert_log = λ conn row s. (returned true, s + 1);
}

abbrev ann : UserCredential
ann = record { user_id = 1; username = text "ann"; password_hash = text "03"; status = 1 }

ann-Authorized : Authorized one_user settings digest (text "ann") (text "abc") 5 ann 5
unfolding find_credential_by_username create_connection credential_of sha256_hex to_hex hex_digit
    text
ann-Authorized = record { known = refl; enabled = refl; matching = refl }

abbrev values : Json
values = record {
  Value = Bytes;
  parse = λ body. some body;
  as_object =
      λ value. some (λ name. some (if same name (text "username") then text "ann" else value));
  as_string = λ value. some value;
  serialize = λ members. [];
}

abbrev post : Request
post = record {
  method = post_verb;
  target = text "/api/login";
  version = 11;
  keep_alive = true;
  user_agent = none;
  body = text "abc";
}

login_lem_example :
    LoginEnds one_user settings digest
      (text "ann")
      (text "abc")
      (text "::1")
      []
      5
      (login one_user settings digest (text "ann") (text "abc") (text "::1") [] 5)
login_lem_example = login_lem one_user settings digest (text "ann") (text "abc") (text "::1") [] 5

-- The queries go through, and the response is 200.
post_status : (handle_request values one_user settings digest post none 5).0.status ≡ 200
unfolding handle_request dispatch handle_login parsed_login answer_login parse_login_request
    login_status login found_login check_login accept_login loaded_login make_json_response
    new_result failed find_credential_by_username create_connection credential_of load_user_info
    sha256_hex to_hex hex_digit verify_password text
post_status = refl

handle_request-Authorized_example :
    (username : Bytes) × (password : Bytes) × (parse_login_request values post.body
      ≡ some (username, password))
    × SomeAuthorized one_user settings digest username password 5
handle_request-Authorized_example =
    handle_request-Authorized one_user settings digest values post none 5 refl post_status

abbrev Members : Type 0
Members = List (Bytes × Member)

abbrev as_members : List (Bytes × Leaf) → Members
as_members [] = []
as_members ((k, l) ∷ ls) = (k, leaf l) ∷ as_members ls

as_members_lem :
    (j : Bytes) (l : Leaf) (ls : List (Bytes × Leaf))
    → member_of j ls ≡ some l
    → member_of j (as_members ls) ≡ some (leaf l)
as_members_lem j l [] h = cc
as_members_lem j l ((k, m) ∷ ls) h = ground (arith, h, as_members_lem j l ls)

abbrev number_of : Option Member → ℤ
number_of (some (leaf (number n))) = pos n
number_of _ = negsuc 0

abbrev string_of : Option Member → Bytes
string_of (some (leaf (string t))) = t
string_of _ = []

abbrev object_of : Option Member → Members
object_of (some (object ls)) = as_members ls
object_of _ = []

-- A reader to which every text is that of the given members.
abbrev reader : Members → QtJson
reader ms = record {
  Object = Members;
  from_json = λ body. some ms;
  contains_key = λ o k. elim (member_of k o) [ none ↦ false | some m ↦ true ];
  to_int = λ o k. number_of (member_of k o);
  to_long_long = λ o k. number_of (member_of k o);
  to_string = λ o k. string_of (member_of k o);
  to_object = λ o k. object_of (member_of k o);
  to_json = λ username password. [];
}

reader-ReadsWritten : (ms : Members) → ReadsWritten (reader ms) values ms
reader-ReadsWritten ms = record {
  root = ms;
  from_json_root = refl;
  contains_root = λ k. refl;
  to_int_root = λ k n h l. ap number_of h;
  to_string_root = λ k t h. ap string_of h;
  to_long_long_inner = λ k j ls n h g l.
      ap (λ o. number_of (member_of j (object_of o))) h
      ∙ ap number_of (as_members_lem j (number n) ls g);
  to_string_inner = λ k j ls t h g.
      ap (λ o. string_of (member_of j (object_of o))) h
      ∙ ap string_of (as_members_lem j (string t) ls g);
}

abbrev ann_result : LoginResult
ann_result = (login one_user settings digest (text "ann") (text "abc") (text "unknown") [] 5).0

ann_code : ann_result.code < 2 ^ 31
unfolding login found_login check_login accept_login loaded_login new_result failed
    find_credential_by_username create_connection credential_of load_user_info sha256_hex to_hex
    hex_digit verify_password text
ann_code = omega arith

ann_id : ann_result.user.id < 2 ^ 53
unfolding login found_login check_login accept_login loaded_login new_result failed
    find_credential_by_username create_connection credential_of load_user_info sha256_hex to_hex
    hex_digit verify_password text
ann_id = omega arith

abbrev open_dialog : LoginDialog
open_dialog = record {
  request_in_flight = true;
  button_enabled = false;
  session = clear_session;
  accepted = false;
  warnings = [];
}

on_login_finished-answer_login_example :
    let response =
      (answer_login values one_user settings digest post none (text "ann", text "abc") 5).0 in
    on_login_finished
      (reader (written ann_result))
      (some (record { has_error = false; status = response.status; payload = response.body }))
      open_dialog
    ≡ answered ann_result open_dialog
on_login_finished-answer_login_example =
    on_login_finished-answer_login (reader (written ann_result)) values one_user settings digest
      post none (text "ann") (text "abc") 5 false open_dialog
      (reader-ReadsWritten (written ann_result)) ann_code ann_id
