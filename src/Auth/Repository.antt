-- ===== src/Auth/Repository.antt =====
-- server2/src/repository/user_repository.cpp, with the structures of its header and of
-- server2/include/model/user_info.h.
use cloud_meeting_client.Auth.Driver.{
  Driver, Action, pure, ◌>>=◌, AuthServerConfig, CredentialRow, ProfileRow, create_connection,
  LogRow,
}
use cloud_meeting_client.Prelude.{
  ℕ, Bytes, Bool, Option, none, some, [], text, ◌∷◌, ◌==◌, if◌then◌else◌,
}
use cloud_meeting_client.Server.Connection.{is_empty}

pub record UserInfo : Type 0 where
  pub id : ℕ
  pub name : Bytes
  pub avatar : Bytes
  pub info : Bytes

pub record UserCredential : Type 0 where
  pub user_id : ℕ
  pub username : Bytes
  pub password_hash : Bytes
  pub status : ℕ

abbrev pub or_else : Option Bytes → Bytes → Bytes
or_else none d = d
or_else (some t) d = t

-- A nickname is taken when it is there and not empty.
unfoldable pub display_name : Option Bytes → Bytes → Bytes
display_name (some (c ∷ nickname)) fallback_name = c ∷ nickname
display_name (some []) fallback_name = fallback_name
display_name none fallback_name = fallback_name

unfoldable pub credential_of : Option CredentialRow → Option UserCredential
credential_of none = none
credential_of (some row) = some (record {
  user_id = row.user_id;
  username = row.username;
  password_hash = row.password_hash;
  status = row.status;
})

unfoldable pub user_info_of : ℕ → Bytes → Option ProfileRow → UserInfo
user_info_of user_id fallback_name none = record {
  id = user_id;
  name = fallback_name;
  avatar = [];
  info = [];
}
user_info_of user_id fallback_name (some row) = record {
  id = user_id;
  name = display_name row.nickname fallback_name;
  avatar = or_else row.avatar_url [];
  info = or_else row.info [];
}

module _ (driver : Driver) (config : AuthServerConfig) where
  open driver use {State, select_user, select_profile, insert_log}

  unfoldable pub find_credential_by_username : Bytes → Action State (Option UserCredential)
  find_credential_by_username username = do
    conn ← create_connection driver config
    row ← select_user conn username
    pure (credential_of row)

  unfoldable pub load_user_info : ℕ → Bytes → Action State UserInfo
  load_user_info user_id fallback_name = do
    conn ← create_connection driver config
    row ← select_profile conn user_id
    pure (user_info_of user_id fallback_name row)

  abbrev log_row : ℕ → Bytes → Bytes → Bool → LogRow
  log_row user_id login_ip device_info success = record {
    user_id = user_id;
    login_ip = if is_empty login_ip then text "unknown" else login_ip;
    device_info = device_info;
    status = if success then 1 else 0;
  }

  unfoldable pub write_log : LogRow → Action State Bool
  write_log row = do conn ← create_connection driver config; insert_log conn row

  -- What it throws is caught: only the state is left.
  unfoldable pub insert_login_log : ℕ → Bytes → Bytes → Bool → State → State
  insert_login_log user_id login_ip device_info success s =
      if user_id == 0
      then s
      else (let (done, t) = write_log (log_row user_id login_ip device_info success) s in t)
