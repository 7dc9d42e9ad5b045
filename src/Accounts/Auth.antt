-- ===== src/Accounts/Auth.antt =====
-- src/wecom_ai_gateway/auth.py: passwords and opaque sessions.
use multi_channel_ai_gateway.Base.{
  ℕ, ◌+◌, ◌*◌, String, Bool, false, ◌&&◌, ◌||◌, not, Option, none, some, ◌==◌, leb, ltb, nat_eq,
  is_some, if◌then◌else◌, find, delete_where, insert_row,
}
use Prim.Native.Char.{Char, code}
use multi_channel_ai_gateway.Base.Text.{text_length, strip, all_chars, starts_with, drop_chars}
use multi_channel_ai_gateway.Models.{Time}
use multi_channel_ai_gateway.Accounts.Rows.{
  User, Account, AuthSession, AuthDb, Platform, user_has_id, account_has_id,
}
use multi_channel_ai_gateway.Accounts.Mfa.{
  Outcome, returned, value_error, type_failure, MfaSubject, admin_subject, account_subject,
  enabled_credential,
}

pub record Principal : Type 0 where
  pub role : String
  pub user_id : Option String
  pub username : String

-- What a password proves: who it is, the account's id, and the subject of the second factor.
pub record Proved : Type 0 where
  pub principal : Principal
  pub account_id : Option String
  pub subject : MfaSubject

abbrev pub session_has : String → AuthSession → Bool
session_has hash s = s.token_hash == hash

abbrev pub active_username : String → Account → Bool
active_username name a = (a.username == name) && a.is_active

abbrev pub admitted_user : Option User → Bool
admitted_user none = false
admitted_user (some user) = not user.is_blocked

abbrev pub live_session : Time → String → AuthSession → Bool
live_session now hash s = session_has hash s && ltb now s.expires_at

unfoldable pub session_account : AuthDb → AuthSession → Option Account → Option Principal
session_account db row none = none
session_account db row (some account) =
    if account.is_active && admitted_user (find (user_has_id account.user_id) db.users)
    then some (record { role = row.role; user_id = row.user_id; username = account.username })
    else none

-- The token of an `Authorization` header; `none` where the code returns at once.
unfoldable pub bearer_token : Option String → Option String
bearer_token none = none
bearer_token (some header) =
    if starts_with header "Bearer " then some (strip (drop_chars 7 header)) else none

module _ (platform : Platform) where
  username_char : Char → Bool
  username_char ch =
      let c = code ch in platform.is_alnum c || nat_eq c b'_' || nat_eq c b'-' || nat_eq c b'.'

  unfoldable pub normalize_username : String → Outcome String
  unfolding username_char
  normalize_username value =
      let username = platform.lower (strip value) in
      if not (leb 3 (text_length username) && leb (text_length username) 64)
      then value_error
      else if not (all_chars username_char username)
      then value_error
      else returned username

  -- `token` is the fresh random token that is returned, and `days` the setting `auth_session_days`.
  unfoldable pub create_session :
      Time → ℕ → String → String → Option String → Option String → AuthDb → AuthDb
  create_session now days token role user_id account_id db = record db {
    sessions =
        insert_row
          (record {
            account_id = account_id;
            user_id = user_id;
            token_hash = platform.sha256 token;
            role = role;
            expires_at = now + days * 86400;
          })
          db.sessions;
  }

  account_login : AuthDb → String → Option Account → Option Proved
  account_login db password none = none
  account_login db password (some account) =
      if platform.verify_password password account.password_hash
        && admitted_user (find (user_has_id account.user_id) db.users)
      then some (record {
        principal = record {
          role = account.role;
          user_id = some account.user_id;
          username = account.username;
        };
        account_id = some account.id;
        subject = account_subject account;
      })
      else none

  password_login : AuthDb → String → Outcome String → Outcome (Option Proved)
  unfolding account_login
  password_login db password (returned normalized) =
      if (normalized == platform.lower (strip platform.admin_username))
        && platform.verify_admin_token password
      then returned (
          some (record {
            principal = record {
              role = "admin";
              user_id = none;
              username = platform.admin_username;
            };
            account_id = none;
            subject = admin_subject platform;
          }))
      else returned (account_login db password (find (active_username normalized) db.accounts))
  password_login db password value_error = value_error
  password_login db password type_failure = type_failure

  unfoldable pub authenticate_password : AuthDb → String → String → Outcome (Option Proved)
  unfolding password_login
  authenticate_password db username password =
      password_login db password (normalize_username username)

  log_in :
      Time
      → ℕ
      → String
      → AuthDb
      → Outcome (Option Proved)
      → AuthDb × Outcome (Option (String × Principal))
  log_in now days token db (returned none) = (db, returned none)
  log_in now days token db (returned (some p)) =
      if is_some (enabled_credential db p.subject) then (db, returned none) else (
        create_session now days token p.principal.role p.principal.user_id p.account_id db,
        returned (some (token, p.principal)),
      )
  log_in now days token db value_error = (db, value_error)
  log_in now days token db type_failure = (db, type_failure)

  unfoldable pub login :
      Time → ℕ → String → AuthDb → String → String → AuthDb × Outcome (Option (String × Principal))
  unfolding log_in
  login now days token db username password =
      log_in now days token db (authenticate_password db username password)

  unfoldable pub session_row : AuthDb → Option AuthSession → Option Principal
  unfolding session_account
  session_row db none = none
  session_row db (some row) = elim row.account_id [
    | none ↦
        some (record { role = row.role; user_id = row.user_id; username = platform.admin_username })
    | some id ↦ session_account db row (find (account_has_id id) db.accounts)
  ]

  principal_of_token : Time → AuthDb → Option String → Option Principal
  unfolding session_row
  principal_of_token now db none = none
  principal_of_token now db (some token) =
      if token == ""
      then none
      else session_row db (find (live_session now (platform.sha256 token)) db.sessions)

  unfoldable pub principal_from_bearer : Time → AuthDb → Option String → Option Principal
  unfolding principal_of_token
  principal_from_bearer now db authorization =
      principal_of_token now db (bearer_token authorization)

  revoke_token : AuthDb → Option String → AuthDb
  revoke_token db none = db
  revoke_token db (some token) = record db {
    sessions = delete_where (session_has (platform.sha256 token)) db.sessions;
  }

  unfoldable pub revoke_session : AuthDb → Option String → AuthDb
  unfolding revoke_token
  revoke_session db authorization = revoke_token db (bearer_token authorization)
