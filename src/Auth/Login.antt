-- ===== src/Auth/Login.antt =====
-- server2/include/model/login_result.h and server2/src/service/auth_service.cpp.
pub mod Outcomes
use cloud_meeting_client.Auth.Driver.{Driver, Result, returned, thrown, AuthServerConfig}
use cloud_meeting_client.Auth.Hash.{verify_password}
use cloud_meeting_client.Auth.Repository.{
  UserInfo, UserCredential, find_credential_by_username, load_user_info, insert_login_log,
}
use cloud_meeting_client.Prelude.{
  ℕ, Bytes, Bool, Option, none, some, text, not, false, ◌||◌, ◌==◌, true, if◌then◌else◌, [],
}
use cloud_meeting_client.Server.Connection.{is_empty}

pub record LoginResult : Type 0 where
  pub success : Bool
  pub code : ℕ
  pub message : Bytes
  pub user : UserInfo

unfoldable pub new_result : LoginResult
new_result = record {
  success = false;
  code = 0;
  message = [];
  user = record { id = 0; name = []; avatar = []; info = [] };
}

abbrev pub refused : ℕ → Bytes → LoginResult
refused code message = record new_result { code = code; message = message }

-- The `catch` of `login`, on the result as it stands.
unfoldable pub failed : LoginResult → LoginResult
failed result = record result { code = 500; message = text "internal server error" }

module _ (driver : Driver) (config : AuthServerConfig) (sha256 : Bytes → Bytes) where
  open driver use {State}

  -- The last steps, with what `load_user_info` came to.
  unfoldable pub loaded_login :
      UserCredential → Bytes → Bytes → Result UserInfo × State → LoginResult × State
  loaded_login credential client_ip device_info (thrown, t) =
      (failed (record new_result { success = true; code = 0; message = text "ok" }), t)
  loaded_login credential client_ip device_info (returned user, t) = (
    record new_result { success = true; code = 0; message = text "ok"; user = user },
    insert_login_log driver config credential.user_id client_ip device_info true t,
  )

  -- From `result.success = true` on.
  unfoldable pub accept_login : UserCredential → Bytes → Bytes → State → LoginResult × State
  accept_login credential client_ip device_info s =
      loaded_login credential client_ip device_info
        (load_user_info driver config credential.user_id credential.username s)

  -- The tests on the credential that was found.
  unfoldable pub check_login : UserCredential → Bytes → Bytes → Bytes → State → LoginResult × State
  check_login credential password client_ip device_info s =
      if not (credential.status == 1)
      then (
        refused 403 (text "account disabled or locked"),
        insert_login_log driver config credential.user_id client_ip device_info false s,
      )
      else if not (verify_password sha256 password credential.password_hash)
      then (
        refused 401 (text "invalid username or password"),
        insert_login_log driver config credential.user_id client_ip device_info false s,
      )
      else accept_login credential client_ip device_info s

  unfoldable pub found_login :
      Result (Option UserCredential) → Bytes → Bytes → Bytes → State → LoginResult × State
  found_login thrown password client_ip device_info s = (failed new_result, s)
  found_login (returned none) password client_ip device_info s =
      (refused 401 (text "invalid username or password"), s)
  found_login (returned (some credential)) password client_ip device_info s =
      check_login credential password client_ip device_info s

  unfoldable pub login : Bytes → Bytes → Bytes → Bytes → State → LoginResult × State
  login username password client_ip device_info s =
      if is_empty username || is_empty password
      then (refused 400 (text "username and password are required"), s)
      else (let (found, t) = find_credential_by_username driver config username s in
          found_login found password client_ip device_info t)
