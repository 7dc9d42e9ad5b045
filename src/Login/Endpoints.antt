-- ===== src/Login/Endpoints.antt =====
-- src/wecom_ai_gateway/main.py: `auth_login` and `auth_mfa_verify`.
-- Fresh tokens are arguments. An empty `ip` is a request without a client.
use multi_channel_ai_gateway.Base.{
  ℕ, String, Bool, not, ◌&&◌, Option, none, some, ◌==◌, leb, is_some, if◌then◌else◌, find,
}
use multi_channel_ai_gateway.Base.Text.{strip, text_length}
use multi_channel_ai_gateway.Models.{Time}
use multi_channel_ai_gateway.Accounts.Rows.{AuthDb, Platform}
use multi_channel_ai_gateway.Accounts.Mfa.{
  Outcome, returned, value_error, type_failure, MfaSubject, enabled_credential, create_challenge,
  has_token,
}
use multi_channel_ai_gateway.Accounts.Factor.{consume_challenge}
use multi_channel_ai_gateway.Accounts.Auth.{
  Proved, normalize_username, authenticate_password, create_session,
}
use multi_channel_ai_gateway.Login.Counters.{
  LockSettings, Redis, is_login_locked, record_login_failure, is_ip_locked, record_ip_attempt,
  clear_ip_attempts, clear_login_failures,
}

pub record Server : Type 0 where
  pub db : AuthDb
  pub redis : Redis

-- The answers: statuses 429 (twice), 400, 401 and 500, a challenge for the second factor, or a session.
pub data LoginReply : Type 0 where
  ip_locked login_locked bad_request unauthorized server_error : LoginReply
  mfa_required : String → LoginReply
  session : String → LoginReply

module _ (platform : Platform) (cfg : LockSettings) (days : ℕ) where
  unfoldable pub proved_reply :
      Time → String → String → String → Server → Option Proved → Server × LoginReply
  proved_reply now username ip token s none =
      (record s { redis = record_login_failure cfg now username s.redis }, unauthorized)
  proved_reply now username ip token s (some p) =
      if is_some (enabled_credential s.db p.subject)
      then (
        record s { db = create_challenge platform now token s.db p.subject },
        mfa_required token,
      )
      else (
        record {
          db =
              create_session platform now days token p.principal.role p.principal.user_id
                p.account_id s.db;
          redis =
              let cleared = clear_login_failures username s.redis in
              if ip == "" then cleared else clear_ip_attempts ip cleared;
        },
        session token,
      )

  unfoldable pub password_reply :
      Time → String → String → String → Server → Outcome (Option Proved) → Server × LoginReply
  password_reply now username ip token s (returned result) =
      proved_reply now username ip token s result
  password_reply now username ip token s value_error = (s, bad_request)
  password_reply now username ip token s type_failure = (s, server_error)

  unfoldable pub checked_login :
      Time → String → String → String → String → String → Server → Server × LoginReply
  checked_login now username name password ip token s =
      if is_login_locked cfg now username s.redis
      then (s, login_locked)
      else password_reply now username ip token s
          (authenticate_password platform s.db name password)

  -- The attempt of a client counts, unless it names the administrator.
  abbrev pub counts_ip : String → String → Bool
  counts_ip username ip =
      not (ip == "") && not (username == platform.lower (strip platform.admin_username))

  unfoldable pub limited_login :
      Time → String → String → String → String → String → Server → Server × LoginReply
  limited_login now username name password ip token s =
      if counts_ip username ip
      then if is_ip_locked cfg now ip s.redis
        then (s, ip_locked)
        else checked_login now username name password ip token
            (record s { redis = record_ip_attempt cfg now ip s.redis })
      else checked_login now username name password ip token s

  unfoldable pub named_login :
      Time → String → String → String → String → Server → Outcome String → Server × LoginReply
  named_login now name password ip token s (returned username) =
      limited_login now username name password ip token s
  named_login now name password ip token s value_error = (s, server_error)
  named_login now name password ip token s type_failure = (s, server_error)

  -- A name that is not valid raises before the `try` statement.
  unfoldable pub auth_login :
      Time → String → String → String → String → Server → Server × LoginReply
  auth_login now name password ip token s =
      named_login now name password ip token s (normalize_username platform name)

  challenge_username : String → AuthDb → String
  challenge_username token db =
      if not (token == "") && leb (text_length token) 200
      then elim (find (has_token (platform.sha256 token)) db.challenges) [
        | none ↦ ""
        | some row ↦ row.username
      ]
      else ""

  verified_reply :
      Time
      → String
      → String
      → String
      → Redis
      → AuthDb × Outcome (Option MfaSubject)
      → Server × LoginReply
  verified_reply now username ip new_token redis (db, returned (some subject)) = (
    record {
      db =
          create_session platform now days new_token subject.role subject.user_id subject.account_id
            db;
      redis =
          let cleared = clear_login_failures (platform.lower (strip subject.username)) redis in
          if ip == "" then cleared else clear_ip_attempts ip cleared;
    },
    session new_token,
  )
  verified_reply now username ip new_token redis (db, returned none) = (
    record {
      db = db;
      redis =
          if username == ""
          then redis
          else record_login_failure cfg now (platform.lower (strip username)) redis;
    },
    unauthorized,
  )
  verified_reply now username ip new_token redis (db, value_error) =
      (record { db = db; redis = redis }, server_error)
  verified_reply now username ip new_token redis (db, type_failure) =
      (record { db = db; redis = redis }, server_error)

  -- The audit log is left out.
  unfoldable pub auth_mfa_verify :
      Time → String → String → String → String → Server → Server × LoginReply
  unfolding verified_reply challenge_username
  auth_mfa_verify now token code ip new_token s =
      verified_reply now (challenge_username token s.db) ip new_token s.redis
        (consume_challenge platform now s.db token code)
