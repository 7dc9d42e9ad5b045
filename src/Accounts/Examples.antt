-- ===== src/Accounts/Examples.antt =====
-- Runs of auth.py, mfa.py and password_reset.py on a small database, with a toy platform in place of
-- the cryptographic libraries.
use multi_channel_ai_gateway.Base.{
  List, if◌then◌else◌, ◌==◌, ℕ, ◌+◌, ◌≤◌, ◌<◌, String, true, false, none, some, [], ◌∷◌, ◌≡◌, refl,
  arith, ◌⊎◌, ◌==◌, find, count_where, is_just, delete_where, update_where, ◌%◌, Bool-cases, inl,
  inr,
}
use multi_channel_ai_gateway.Base.Text.{
  text_length, strip, is_ascii, all_chars, starts_with, drop_chars,
}
use multi_channel_ai_gateway.Accounts.Rows.{
  User, Account, AuthSession, AuthDb, MfaChallenge, MfaCredential, PasswordResetToken,
  AccountActivationToken, Platform, account_has_id,
}
use multi_channel_ai_gateway.Accounts.Totp.{counter_at, verify_totp, totp_code, recovery_code_hash}
use multi_channel_ai_gateway.Accounts.Mfa.{
  returned, mem, second_factor, credential_for, live_challenge, enabled_credential, account_subject,
}
use multi_channel_ai_gateway.Accounts.Factor.{
  consume_challenge, checked_factor, count_failure, subject_of,
}
use multi_channel_ai_gateway.Accounts.Auth.{
  live_session, active_username, login, normalize_username, create_session, authenticate_password,
  Principal, principal_from_bearer, revoke_session, bearer_token, session_row,
}
use multi_channel_ai_gateway.Accounts.Tokens.{
  err, invalid, hash_password, activate_account, consume_password_reset, reset_writes,
}
use multi_channel_ai_gateway.Accounts.Replay.{
  verify_totp-accepted, second_factor-consumes, Later, count_text,
}
use multi_channel_ai_gateway.Accounts.Attempts.{
  consume_challenge-single_use, consume_challenge-five_guesses,
}
use multi_channel_ai_gateway.Accounts.Sessions.{
  principal_from_bearer_sound, SpeaksFor, login-principal, header_of, revoke_session-ends,
}
use multi_channel_ai_gateway.Accounts.Activation.{
  owned_by_user, has_username, activate_account-once,
}
use multi_channel_ai_gateway.Accounts.OneTime.{of_account, consume_password_reset-once}

abbrev toy : Platform
toy = record {
  sha256 = λ s. s;
  hmac_sha1 = λ secret counter. 0 ∷ 0 ∷ 0 ∷ counter % 256 ∷ 0 ∷ [];
  encrypt_secret = λ s. s;
  decrypt_secret = λ s. s;
  scrypt_hash = λ s. s;
  verify_password = λ password hash. password == hash;
  verify_admin_token = λ token. token == "root-token";
  upper = λ s. s;
  lower = λ s. s;
  is_digit = λ s. true;
  is_alnum = λ c. true;
  admin_username = "admin";
}

abbrev user : User
user = record { id = "u1"; is_blocked = false; mode = none }

abbrev account : Account
account = record {
  id = "a1";
  user_id = "u1";
  username = "alice";
  password_hash = "secret-password";
  role = "user";
  is_active = true;
}

abbrev credential : MfaCredential
credential = record {
  subject_type = "account";
  subject_id = "a1";
  secret_encrypted = "seed";
  enabled = true;
  recovery_code_hashes = "ABCDEFGH" ∷ [];
  last_totp_counter = some 3;
}

abbrev challenge : MfaChallenge
challenge = record {
  token_hash = "challenge";
  subject_type = "account";
  subject_id = "a1";
  account_id = some "a1";
  user_id = some "u1";
  role = "user";
  username = "alice";
  attempts = 0;
  expires_at = 1000;
}

abbrev reset : PasswordResetToken
reset = record { user_id = "u1"; account_id = "a1"; token_hash = "reset"; expires_at = 1000 }

abbrev db : AuthDb
db = record {
  users = user ∷ [];
  accounts = account ∷ [];
  sessions = [];
  challenges = challenge ∷ [];
  credentials = credential ∷ [];
  reset_tokens = reset ∷ [];
  activation_tokens = [];
}

abbrev after_challenge : AuthDb
after_challenge = record db {
  challenges = [];
  credentials = record credential { last_totp_counter = some 5 } ∷ [];
}

verify_totp-accepted_example :
    Later (some 3) 5
    × (counter_at 150 ≤ 5 + 1)
    × (5 ≤ counter_at 150 + 1)
    × (totp_code toy "seed" 5 ≡ "000005")
unfolding verify_totp text_length is_ascii totp_code
verify_totp-accepted_example = verify_totp-accepted toy 150 "seed" "000005" (some 3) 5 refl

consume_challenge-single_use_example :
    consume_challenge toy 160 after_challenge "challenge" "000005"
    ≡ (after_challenge, returned none)
unfolding consume_challenge live_challenge text_length find verify_totp is_ascii totp_code strip
    checked_factor second_factor subject_of credential_for delete_where update_where
consume_challenge-single_use_example =
    consume_challenge-single_use toy 150 160 db after_challenge "challenge" "000005" "000005"
      (subject_of challenge) refl

abbrev used : MfaCredential
used = record credential { last_totp_counter = some 5 }

second_factor-consumes_example :
    ((c : ℕ) × (used ≡ record credential { last_totp_counter = some c })
      × Later credential.last_totp_counter c
      × (counter_at 150 ≤ c + 1)
      × (c ≤ counter_at 150 + 1)
      × (totp_code toy "seed" c ≡ "000005"))
    ⊎ ((left : List String) × (used ≡ record credential { recovery_code_hashes = left })
        × (mem (recovery_code_hash toy "000005") credential.recovery_code_hashes ≡ true)
        × ((k : String)
            → count_text k left + (if recovery_code_hash toy "000005" == k then 1 else 0)
              ≡ count_text k credential.recovery_code_hashes))
unfolding second_factor text_length verify_totp is_ascii totp_code strip
second_factor-consumes_example = second_factor-consumes toy 150 "000005" credential used refl

abbrev guessed : ℕ → AuthDb
guessed n = record db { challenges = record challenge { attempts = n } ∷ [] }

consume_challenge-five_guesses_example :
    consume_challenge toy 200 (record db { challenges = [] }) "challenge" "000006"
    ≡ (record db { challenges = [] }, returned none)
unfolding consume_challenge live_challenge text_length find checked_factor strip credential_for
    delete_where update_where count_failure
consume_challenge-five_guesses_example =
    consume_challenge-five_guesses toy
      ((150, "0") ∷ (151, "1") ∷ (152, "2") ∷ (153, "3") ∷ (154, "4") ∷ []) 200 db
      (record db { challenges = [] }) "challenge" "000006" challenge refl refl refl
      (
        guessed 1,
        refl,
        (
          guessed 2,
          refl,
          (guessed 3, refl, (guessed 4, refl, (record db { challenges = [] }, refl, refl))),
        ),
      )
      (omega arith)

abbrev session : AuthSession
session = record {
  account_id = some "a1";
  user_id = some "u1";
  token_hash = "token";
  role = "user";
  expires_at = 2000;
}

abbrev alice : Principal
alice = record { role = "user"; user_id = some "u1"; username = "alice" }

abbrev logged_in : AuthDb
logged_in = record db { sessions = session ∷ []; credentials = [] }

principal_from_bearer_sound_example :
    (token : String) × (row : AuthSession) × (bearer_token (some "Bearer token") ≡ some token)
    × (find (live_session 150 token) logged_in.sessions ≡ some row)
    × (row.token_hash ≡ token)
    × (150 < row.expires_at)
    × SpeaksFor toy logged_in row alice
unfolding principal_from_bearer find bearer_token starts_with strip drop_chars session_row
principal_from_bearer_sound_example =
    principal_from_bearer_sound toy 150 logged_in (some "Bearer token") alice refl

revoke_session-ends_example :
    principal_from_bearer toy 160
      (revoke_session toy logged_in (some "Bearer token"))
      (some "Bearer token")
    ≡ none
revoke_session-ends_example = revoke_session-ends toy 160 logged_in (some "Bearer token")

abbrev new_account : Account
new_account = record account { password_hash = "brand new password" }

abbrev reset_db : AuthDb
reset_db = record db { accounts = new_account ∷ []; challenges = []; reset_tokens = [] }

consume_password_reset-once_example :
    (consume_password_reset toy 200 reset_db "reset" "another password" 12
      ≡ (reset_db, err invalid))
    × (find (account_has_id "a1") reset_db.accounts ≡ some new_account)
    × (new_account.password_hash ≡ "brand new password")
    × (count_where (of_account toy "a1") reset_db.sessions ≡ 0)
    × (count_where (λ c. is_just c.account_id "a1") reset_db.challenges ≡ 0)
unfolding consume_password_reset text_length find hash_password reset_writes update_where
    delete_where
consume_password_reset-once_example =
    consume_password_reset-once toy 150 200 db reset_db "reset" "brand new password"
      "another password" 12 12 new_account refl

abbrev before_login : AuthDb
before_login = record db { credentials = [] }

active_found :
    (name : String) (a : Account)
    → find (active_username name) before_login.accounts ≡ some a
    → find (account_has_id a.id) before_login.accounts ≡ some a
unfolding find
active_found name a h = elim (Bool-cases (active_username name account)) [
  | inl e ↦ let same : account ≡ a = cc (rw e at h) in rw (← same) refl
  | inr e ↦ absurd (cc (rw e at h))
]

login-principal_example :
    principal_from_bearer toy 5000
      (record before_login { sessions = record session { expires_at = 86500 } ∷ [] })
      (header_of "token")
    ≡ some alice
unfolding find text_length strip normalize_username login enabled_credential credential_for
    create_session authenticate_password account_subject all_chars
login-principal_example =
    login-principal toy 100 5000 1 "token" before_login
      (record before_login { sessions = record session { expires_at = 86500 } ∷ [] }) "alice"
      "secret-password" alice refl refl refl active_found (omega arith) refl

abbrev link : AccountActivationToken
link = record { user_id = "u1"; token_hash = "link"; expires_at = 1000 }

abbrev newcomer : AuthDb
newcomer = record db { accounts = []; activation_tokens = link ∷ [] }

abbrev activated : AuthDb
activated = record db { accounts = account ∷ []; activation_tokens = [] }

activate_account-once_example :
    (activate_account toy 160 "a2" activated "link" "bob" "another password" 10
      ≡ (activated, err invalid))
    × (find (owned_by_user "u1") newcomer.accounts ≡ none)
    × (find (has_username "alice") newcomer.accounts ≡ none)
    × (activated.accounts ≡ account ∷ [])
    × (account.username ≡ "alice")
    × (account.password_hash ≡ "secret-password")
unfolding activate_account text_length find hash_password delete_where
activate_account-once_example =
    activate_account-once toy 150 160 "a1" "a2" newcomer activated "link" "alice" "secret-password"
      "bob" "another password" 10 10 account refl
