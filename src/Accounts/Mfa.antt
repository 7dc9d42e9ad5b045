-- ===== src/Accounts/Mfa.antt =====
-- src/wecom_ai_gateway/mfa.py: login challenges, credentials and recovery codes.
-- A time is in seconds, and `now` is what the clock gives when the function reads it.
use multi_channel_ai_gateway.Base.{
  ℕ, ◌+◌, ◌*◌, String, Bool, true, false, ◌&&◌, ◌||◌, Option, none, some, List, [], ◌∷◌, ◌==◌, leb,
  ltb, if◌then◌else◌, find, delete_where, update_where, insert_row,
}
use multi_channel_ai_gateway.Base.Text.{text_length, strip}
use multi_channel_ai_gateway.Models.{Time}
use multi_channel_ai_gateway.Accounts.Rows.{
  Account, MfaChallenge, MfaCredential, AuthDb, Platform, account_has_id,
}
use multi_channel_ai_gateway.Accounts.Totp.{
  Verdict, accepted, rejected, type_error, verify_totp, recovery_code_hash,
}

abbrev pub challenge_ttl_minutes : ℕ
challenge_ttl_minutes = 5

abbrev pub challenge_max_attempts : ℕ
challenge_max_attempts = 5

pub record MfaSubject : Type 0 where
  pub subject_type : String
  pub subject_id : String
  pub account_id : Option String
  pub user_id : Option String
  pub role : String
  pub username : String

-- How a function ends: with a value, with a `ValueError`, or with the `TypeError` of a comparison
-- of texts that are not ASCII. The database is what it leaves committed.
pub data Outcome {ℓ} (A : Type ℓ) : Type ℓ where
  returned : A → Outcome A
  value_error : Outcome A
  type_failure : Outcome A

unfoldable pub admin_subject : Platform → MfaSubject
admin_subject platform = record {
  subject_type = "admin";
  subject_id = "primary-admin";
  account_id = none;
  user_id = none;
  role = "admin";
  username = platform.admin_username;
}

unfoldable pub account_subject : Account → MfaSubject
account_subject account = record {
  subject_type = "account";
  subject_id = account.id;
  account_id = some account.id;
  user_id = some account.user_id;
  role = account.role;
  username = account.username;
}

abbrev pub credential_is : String → String → MfaCredential → Bool
credential_is kind id c = (c.subject_type == kind) && (c.subject_id == id)

abbrev pub challenge_is : String → String → MfaChallenge → Bool
challenge_is kind id c = (c.subject_type == kind) && (c.subject_id == id)

abbrev pub has_token : String → MfaChallenge → Bool
has_token hash c = c.token_hash == hash

unfoldable pub credential_for : AuthDb → String → String → Option MfaCredential
credential_for db kind id = find (credential_is kind id) db.credentials

abbrev when_enabled : Option MfaCredential → Option MfaCredential
when_enabled none = none
when_enabled (some row) = if row.enabled then some row else none

unfoldable pub enabled_credential : AuthDb → MfaSubject → Option MfaCredential
unfolding credential_for
enabled_credential db subject =
    when_enabled (credential_for db subject.subject_type subject.subject_id)

abbrev pub save_credential : MfaCredential → AuthDb → AuthDb
save_credential c db = record db {
  credentials = update_where (credential_is c.subject_type c.subject_id) (λ _. c) db.credentials;
}

abbrev pub delete_challenge : MfaChallenge → AuthDb → AuthDb
delete_challenge row db = record db {
  challenges = delete_where (has_token row.token_hash) db.challenges;
}

abbrev pub save_challenge : MfaChallenge → AuthDb → AuthDb
save_challenge row db = record db {
  challenges = update_where (has_token row.token_hash) (λ _. row) db.challenges;
}

abbrev pub mem : String → List String → Bool
mem x [] = false
mem x (y ∷ ys) = let rest = mem x ys in if y == x then true else rest

-- `list.remove`: the first occurrence.
unfoldable pub remove_first : String → List String → List String
remove_first x [] = []
remove_first x (y ∷ ys) = let rest = remove_first x ys in if y == x then ys else y ∷ rest

module _ (platform : Platform) where
  abbrev password_of : Option Account → String → Bool
  password_of none password = false
  password_of (some a) password = a.is_active && platform.verify_password password a.password_hash

  abbrev account_of : AuthDb → Option String → Option Account
  account_of db none = none
  account_of db (some id) = find (account_has_id id) db.accounts

  unfoldable pub verify_subject_password : AuthDb → MfaSubject → String → Bool
  verify_subject_password db subject password =
      if subject.subject_type == "admin"
      then platform.verify_admin_token password
      else password_of (account_of db subject.account_id) password

  -- `token` is the fresh random token that is returned.
  unfoldable pub create_challenge : Time → String → AuthDb → MfaSubject → AuthDb
  create_challenge now token db subject =
      let unexpired = delete_where (λ c. leb c.expires_at now) db.challenges in
      let others = delete_where (challenge_is subject.subject_type subject.subject_id) unexpired in
      record db {
        challenges =
            insert_row
              (record {
                token_hash = platform.sha256 token;
                subject_type = subject.subject_type;
                subject_id = subject.subject_id;
                account_id = subject.account_id;
                user_id = subject.user_id;
                role = subject.role;
                username = subject.username;
                attempts = 0;
                expires_at = now + challenge_ttl_minutes * 60;
              })
              others;
      }

  challenge_found : Time → AuthDb → Option MfaChallenge → AuthDb × Option MfaChallenge
  challenge_found now db none = (db, none)
  challenge_found now db (some row) =
      if leb row.expires_at now || leb challenge_max_attempts row.attempts
      then (delete_challenge row db, none)
      else (db, some row)

  -- `_challenge`
  unfoldable pub live_challenge : Time → AuthDb → String → AuthDb × Option MfaChallenge
  unfolding challenge_found
  live_challenge now db token =
      if (token == "") || ltb 200 (text_length token)
      then (db, none)
      else challenge_found now db (find (has_token (platform.sha256 token)) db.challenges)

  -- The second factor against one credential: the changed credential, if it is accepted.
  try_recovery : String → MfaCredential → Option MfaCredential
  unfolding remove_first recovery_code_hash
  try_recovery entry row =
      let digest = recovery_code_hash platform entry in
      if mem digest row.recovery_code_hashes
      then some (record row { recovery_code_hashes = remove_first digest row.recovery_code_hashes })
      else none

  after_totp : String → MfaCredential → Verdict → Outcome (Option MfaCredential)
  unfolding try_recovery
  after_totp entry row (accepted counter) =
      returned (some (record row { last_totp_counter = some counter }))
  after_totp entry row rejected = returned (try_recovery entry row)
  after_totp entry row type_error = type_failure

  unfoldable pub second_factor : Time → String → MfaCredential → Outcome (Option MfaCredential)
  unfolding after_totp
  second_factor now entry row = after_totp entry row (
      verify_totp platform now (platform.decrypt_secret row.secret_encrypted) (strip entry)
        row.last_totp_counter)
