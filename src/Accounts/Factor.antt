-- ===== src/Accounts/Factor.antt =====
-- src/wecom_ai_gateway/mfa.py: the operations that check a second factor or change a credential.
use multi_channel_ai_gateway.Base.{
  ◌+◌, String, Bool, true, false, ◌&&◌, not, Option, none, some, List, [], map, ◌==◌, leb, is_just,
  is_some, if◌then◌else◌, delete_where, insert_row,
}
use multi_channel_ai_gateway.Base.Text.{text_length, strip}
use multi_channel_ai_gateway.Models.{Time}
use multi_channel_ai_gateway.Accounts.Rows.{
  MfaChallenge, MfaCredential, AuthDb, AuthSession, Platform,
}
use multi_channel_ai_gateway.Accounts.Totp.{
  Verdict, accepted, rejected, type_error, verify_totp, recovery_code_hash,
}
use multi_channel_ai_gateway.Accounts.Mfa.{
  Outcome, returned, value_error, type_failure, MfaSubject, challenge_max_attempts, credential_is,
  challenge_is, credential_for, save_credential, save_challenge, delete_challenge, live_challenge,
  second_factor,
}

unfoldable pub subject_of : MfaChallenge → MfaSubject
subject_of row = record {
  subject_type = row.subject_type;
  subject_id = row.subject_id;
  account_id = row.account_id;
  user_id = row.user_id;
  role = row.role;
  username = row.username;
}

-- The `if not accepted` block.
unfoldable pub count_failure : MfaChallenge → AuthDb → AuthDb
count_failure row db =
    let row' = record row { attempts = row.attempts + 1 } in
    if leb challenge_max_attempts row'.attempts
    then delete_challenge row db
    else save_challenge row' db

-- A `TypeError` leaves the transaction uncommitted.
settle :
    MfaChallenge → AuthDb → Outcome (Option MfaCredential) → AuthDb × Outcome (Option MfaSubject)
unfolding count_failure subject_of
settle row db (returned (some credential)) =
    (delete_challenge row (save_credential credential db), returned (some (subject_of row)))
settle row db (returned none) = (count_failure row db, returned none)
settle row db value_error = (db, value_error)
settle row db type_failure = (db, type_failure)

module _ (platform : Platform) where
  -- The test of the length guards both ways to be accepted.
  unfoldable pub checked_factor : Time → String → MfaCredential → Outcome (Option MfaCredential)
  checked_factor now entry credential =
      let n = text_length (strip entry) in
      if leb 6 n && leb n 32 then second_factor platform now entry credential else returned none

  with_credential :
      Time
      → String
      → MfaChallenge
      → Option MfaCredential
      → AuthDb
      → AuthDb × Outcome (Option MfaSubject)
  unfolding settle
  with_credential now entry row none db = (delete_challenge row db, returned none)
  with_credential now entry row (some credential) db =
      if credential.enabled
      then settle row db (checked_factor now entry credential)
      else (delete_challenge row db, returned none)

  with_challenge :
      Time → String → AuthDb × Option MfaChallenge → AuthDb × Outcome (Option MfaSubject)
  unfolding with_credential
  with_challenge now entry (db, none) = (db, returned none)
  with_challenge now entry (db, some row) =
      with_credential now entry row (credential_for db row.subject_type row.subject_id) db

  unfoldable pub consume_challenge :
      Time → AuthDb → String → String → AuthDb × Outcome (Option MfaSubject)
  unfolding with_challenge
  consume_challenge now db token entry =
      with_challenge now entry (live_challenge platform now db token)

  abbrev blank_credential : MfaSubject → String → MfaCredential
  blank_credential subject secret = record {
    subject_type = subject.subject_type;
    subject_id = subject.subject_id;
    secret_encrypted = secret;
    enabled = false;
    recovery_code_hashes = [];
    last_totp_counter = none;
  }

  save_pending :
      MfaSubject → String → Option MfaCredential → AuthDb → AuthDb × Outcome MfaCredential
  save_pending subject secret none db =
      let row = blank_credential subject (platform.encrypt_secret secret) in
      (record db { credentials = insert_row row db.credentials }, returned row)
  save_pending subject secret (some old) db =
      let row = blank_credential subject (platform.encrypt_secret secret) in
      if old.enabled then (db, value_error) else (save_credential row db, returned row)

  unfoldable pub save_pending_secret : AuthDb → MfaSubject → String → AuthDb × Outcome MfaCredential
  unfolding save_pending
  save_pending_secret db subject secret =
      save_pending subject secret (credential_for db subject.subject_type subject.subject_id) db

  abbrev drop_challenges : MfaSubject → AuthDb → AuthDb
  drop_challenges subject db = record db {
    challenges = delete_where (challenge_is subject.subject_type subject.subject_id) db.challenges;
  }

  enable_verified :
      List String → MfaSubject → MfaCredential → Verdict → AuthDb → AuthDb × Outcome (List String)
  enable_verified codes subject row (accepted counter) db = (
    drop_challenges subject (
        save_credential
          (record row {
            enabled = true;
            last_totp_counter = some counter;
            recovery_code_hashes = map (recovery_code_hash platform) codes;
          })
          db),
    returned codes,
  )
  enable_verified codes subject row rejected db = (db, value_error)
  enable_verified codes subject row type_error db = (db, type_failure)

  enable_found :
      Time
      → List String
      → MfaSubject
      → String
      → Option MfaCredential
      → AuthDb
      → AuthDb × Outcome (List String)
  unfolding enable_verified
  enable_found now codes subject entry none db = (db, value_error)
  enable_found now codes subject entry (some row) db =
      if row.enabled
      then (db, value_error)
      else enable_verified codes subject row
          (verify_totp platform now (platform.decrypt_secret row.secret_encrypted) (strip entry)
            none)
          db

  -- `codes` are the fresh recovery codes.
  unfoldable pub enable_credential :
      Time → List String → AuthDb → MfaSubject → String → AuthDb × Outcome (List String)
  unfolding enable_found
  enable_credential now codes db subject entry =
      enable_found now codes subject entry
        (credential_for db subject.subject_type subject.subject_id) db

  second_settled : AuthDb → Outcome (Option MfaCredential) → AuthDb × Outcome Bool
  second_settled db (returned (some credential)) = (save_credential credential db, returned true)
  second_settled db (returned none) = (db, returned false)
  second_settled db value_error = (db, value_error)
  second_settled db type_failure = (db, type_failure)

  second_found : Time → String → Option MfaCredential → AuthDb → AuthDb × Outcome Bool
  unfolding second_settled
  second_found now entry none db = (db, returned false)
  second_found now entry (some row) db =
      if row.enabled
      then second_settled db (second_factor platform now entry row)
      else (db, returned false)

  unfoldable pub verify_second_factor : Time → AuthDb → MfaSubject → String → AuthDb × Outcome Bool
  unfolding second_found
  verify_second_factor now db subject entry =
      second_found now entry (credential_for db subject.subject_type subject.subject_id) db

-- The sessions that `remove_credential` ends.
abbrev pub session_of : MfaSubject → AuthSession → Bool
session_of subject s = elim subject.account_id [
  | none ↦ (s.role == "admin") && not (is_some s.account_id)
  | some id ↦ is_just s.account_id id
]

unfoldable pub remove_credential : AuthDb → MfaSubject → AuthDb
remove_credential db subject = record db {
  challenges = delete_where (challenge_is subject.subject_type subject.subject_id) db.challenges;
  credentials = delete_where (credential_is subject.subject_type subject.subject_id) db.credentials;
  sessions = delete_where (session_of subject) db.sessions;
}
