-- ===== src/Auth/Login/Outcomes.antt =====
-- server2/src/service/auth_service.cpp: how a login ends.
use cloud_meeting_client.Auth.Driver.{Driver, Result, returned, thrown, AuthServerConfig}
use cloud_meeting_client.Auth.Hash.{verify_password, sha256_hex}
use cloud_meeting_client.Auth.Repository.{
  UserInfo, UserCredential, find_credential_by_username, load_user_info, insert_login_log,
}
use cloud_meeting_client.Auth.Login.{
  LoginResult, new_result, failed, accept_login, check_login, found_login, login, loaded_login,
}
use cloud_meeting_client.Prelude.{
  Bytes, Option, none, some, true, ◌≢◌, inr, false, ◌||◌, ◌≡◌, refl, Bool-cases, inl, same, same→eq,
  arith, ◌==◌, same_refl,
}
use cloud_meeting_client.Server.Connection.{is_empty}

module _ (driver : Driver) (config : AuthServerConfig) (sha256 : Bytes → Bytes) where
  open driver use {State}

  -- The user is known, not disabled, and the password's hash is the stored one; `t` is the state after
  -- the query.
  pub record Authorized (username password : Bytes) (s : State) (c : UserCredential) (t : State)
      : Type 0 where
    pub known : find_credential_by_username driver config username s ≡ (returned (some c), t)
    pub enabled : c.status ≡ 1
    pub matching : sha256_hex sha256 password ≡ c.password_hash

  pub data LoginEnds (username password ip device : Bytes) (s : State) (out : LoginResult × State)
      : Type 0 where
    missing :
        (is_empty username || is_empty password) ≡ true
        → out.0.success ≡ false
        → out.0.code ≡ 400
        → out.1 ≡ s
        → LoginEnds username password ip device s out
    query_failed :
        (t : State)
        → find_credential_by_username driver config username s ≡ (thrown, t)
        → out.0.success ≡ false
        → out.0.code ≡ 500
        → out.1 ≡ t
        → LoginEnds username password ip device s out
    unknown :
        (t : State)
        → find_credential_by_username driver config username s ≡ (returned none, t)
        → out.0.success ≡ false
        → out.0.code ≡ 401
        → out.1 ≡ t
        → LoginEnds username password ip device s out
    disabled :
        (c : UserCredential) (t : State)
        → find_credential_by_username driver config username s ≡ (returned (some c), t)
        → c.status ≢ 1
        → out.0.success ≡ false
        → out.0.code ≡ 403
        → out.1 ≡ insert_login_log driver config c.user_id ip device false t
        → LoginEnds username password ip device s out
    wrong_password :
        (c : UserCredential) (t : State)
        → find_credential_by_username driver config username s ≡ (returned (some c), t)
        → sha256_hex sha256 password ≢ c.password_hash
        → out.0.success ≡ false
        → out.0.code ≡ 401
        → out.1 ≡ insert_login_log driver config c.user_id ip device false t
        → LoginEnds username password ip device s out
    profile_failed :
        (c : UserCredential) (t u : State)
        → Authorized username password s c t
        → load_user_info driver config c.user_id c.username t ≡ (thrown, u)
        → out.0.success ≡ true
        → out.0.code ≡ 500
        → out.1 ≡ u
        → LoginEnds username password ip device s out
    accepted :
        (c : UserCredential) (info : UserInfo) (t u : State)
        → Authorized username password s c t
        → load_user_info driver config c.user_id c.username t ≡ (returned info, u)
        → out.0.success ≡ true
        → out.0.code ≡ 0
        → out.0.user ≡ info
        → out.1 ≡ insert_login_log driver config c.user_id ip device true u
        → LoginEnds username password ip device s out

  module _ (username password ip device : Bytes) (s : State) where
    Ends : LoginResult × State → Type 0
    Ends = LoginEnds username password ip device s

    accept_login-Ends :
        (c : UserCredential) (t : State)
        → Authorized username password s c t
        → (r : Result UserInfo × State) → load_user_info driver config c.user_id c.username t ≡ r
        → Ends (accept_login driver config sha256 c ip device t)
    unfolding accept_login loaded_login Ends failed
    accept_login-Ends c t a (thrown, u) q =
        profile_failed c t u a q (rw q refl) (rw q refl) (rw q refl)
    accept_login-Ends c t a (returned info, u) q =
        accepted c info t u a q (rw q refl) (rw q refl) (rw q refl) (rw q refl)

    check_login-Ends :
        (c : UserCredential) (t : State)
        → find_credential_by_username driver config username s ≡ (returned (some c), t)
        → Ends (check_login driver config sha256 c password ip device t)
    unfolding check_login verify_password Ends new_result
    check_login-Ends c t q = elim (Bool-cases (c.status == 1)) [
      | inr e ↦ simp e (disabled c t q (ground (arith, e)) refl refl refl)
      | inl e ↦ elim (Bool-cases (same (sha256_hex sha256 password) c.password_hash)) [
        | inr f ↦
            simp (e, f)
              (wrong_password c t q (λ h. cc (h, f, same_refl c.password_hash)) refl refl refl)
        | inl f ↦
            simp (e, f)
              (accept_login-Ends c t
                (record {
                  known = q;
                  enabled = ground (arith, e);
                  matching = same→eq (sha256_hex sha256 password) c.password_hash f;
                })
                (load_user_info driver config c.user_id c.username t) refl)
      ]
    ]

    found_login-Ends :
        (r : Result (Option UserCredential) × State)
        → find_credential_by_username driver config username s ≡ r
        → Ends (found_login driver config sha256 r.0 password ip device r.1)
    unfolding found_login Ends new_result failed
    found_login-Ends (thrown, t) q = query_failed t q refl refl refl
    found_login-Ends (returned none, t) q = unknown t q refl refl refl
    found_login-Ends (returned (some c), t) q = check_login-Ends c t q

  -- Every login ends in one of seven ways, each with its circumstances, its code and what is logged.
  pub login_lem :
      (username password ip device : Bytes) (s : State)
      → LoginEnds username password ip device s
          (login driver config sha256 username password ip device s)
  unfolding login new_result Ends
  login_lem username password ip device s =
      elim (Bool-cases (is_empty username || is_empty password)) [
        | inl e ↦ missing e (rw e refl) (rw e refl) (rw e refl)
        | inr e ↦ rw e (
            found_login-Ends username password ip device s
              (find_credential_by_username driver config username s) refl)
      ]
