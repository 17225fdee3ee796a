-- ===== src/Auth/Driver.antt =====
-- server2/include/config/auth_server_config.h and server2/src/db/mysql_client.cpp, over what the MySQL
-- driver does. A call of the driver works on the state of the database and returns or throws.
use cloud_meeting_client.Prelude.{ℕ, Bytes, Bool, Option, ◌++◌, text, decimal}

-- How a call ends: with a value, or by an exception.
pub data Result (A : Type 0) : Type 0 where
  returned : A → Result A
  thrown : Result A

abbrev pub Action : Type 0 → Type 0 → Type 0
Action S A = S → Result A × S

abbrev pub pure : {S A : Type 0} → A → Action S A
pure a s = (returned a, s)

infixl 5 ◌>>=◌ ◌>>◌
abbrev pub ◌>>=◌ : {S A B : Type 0} → Action S A → (A → Action S B) → Action S B
◌>>=◌ m f s = let (r, t) = m s in elim r [ returned a ↦ f a t | thrown ↦ (thrown, t) ]

abbrev pub ◌>>◌ : {S A B : Type 0} → Action S A → Action S B → Action S B
m >> k = m >>= λ _. k

pub record AuthServerConfig : Type 0 where
  pub listen_address : Bytes
  pub listen_port : ℕ
  pub mysql_host : Bytes
  pub mysql_port : ℕ
  pub mysql_user : Bytes
  pub mysql_password : Bytes
  pub mysql_database : Bytes

-- A row of the query for a user, and one of the query for a profile; a field that is NULL is `none`.
pub record CredentialRow : Type 0 where
  pub user_id : ℕ
  pub username : Bytes
  pub password_hash : Bytes
  pub status : ℕ

pub record ProfileRow : Type 0 where
  pub nickname : Option Bytes
  pub avatar_url : Option Bytes
  pub info : Option Bytes

-- A row of the table of logins.
pub record LogRow : Type 0 where
  pub user_id : ℕ
  pub login_ip : Bytes
  pub device_info : Bytes
  pub status : ℕ

-- What the driver does: `connect` on a URL, a user and a password, `setSchema`, and the three
-- statements of the program, each prepared, executed and read.
pub record Driver : Type 1 where
  pub State : Type 0
  pub Connection : Type 0
  pub connect : Bytes → Bytes → Bytes → Action State Connection
  pub set_schema : Connection → Bytes → Action State Connection
  pub select_user : Connection → Bytes → Action State (Option CredentialRow)
  pub select_profile : Connection → ℕ → Action State (Option ProfileRow)
  pub insert_log : Connection → LogRow → Action State Bool

module _ (driver : Driver) where
  open driver use {State, Connection, connect, set_schema}

  unfoldable pub mysql_url : AuthServerConfig → Bytes
  mysql_url config = text "tcp://" ++ (config.mysql_host ++ (text ":" ++ decimal config.mysql_port))

  unfoldable pub create_connection : AuthServerConfig → Action State Connection
  create_connection config = do
    conn ← connect (mysql_url config) config.mysql_user config.mysql_password
    set_schema conn config.mysql_database
