-- ===== src/Accounts/Tokens.antt =====
-- src/wecom_ai_gateway/password_reset.py, account_activation.py, and `hash_password` of
-- security.py: one-time tokens that a chat channel hands out.
use multi_channel_ai_gateway.Base.{
  ℕ, ◌+◌, ◌*◌, String, Bool, true, false, ◌&&◌, ◌||◌, not, Option, none, some, ◌==◌, leb, ltb,
  is_some, is_just, if◌then◌else◌, find, delete_where, update_where, insert_row,
}
use multi_channel_ai_gateway.Base.Text.{text_length}
use multi_channel_ai_gateway.Models.{Time}
use multi_channel_ai_gateway.Accounts.Rows.{
  User, Account, AuthDb, Platform, PasswordResetToken, AccountActivationToken, user_has_id,
  account_has_id,
}

-- `invalid`, `refused` and `taken` are the three messages of the module's own error class, and
-- `integrity` is the exception of the database for a user name that another account has.
pub data TokenError : Type 0 where
  invalid refused taken short_password integrity : TokenError

pub data Result {ℓ} (A : Type ℓ) : Type ℓ where
  ok : A → Result A
  err : TokenError → Result A

abbrev pub token_lifetime : ℕ
token_lifetime = 15 * 60

abbrev pub reset_has : String → PasswordResetToken → Bool
reset_has hash t = t.token_hash == hash

abbrev pub activation_has : String → AccountActivationToken → Bool
activation_has hash t = t.token_hash == hash

abbrev pub save_account : Account → AuthDb → AuthDb
save_account a db = record db { accounts = update_where (account_has_id a.id) (λ _. a) db.accounts }

abbrev pub blocked : Option User → Bool
blocked none = true
blocked (some user) = user.is_blocked

abbrev pub delete_reset : PasswordResetToken → AuthDb → AuthDb
delete_reset row db = record db {
  reset_tokens = delete_where (reset_has row.token_hash) db.reset_tokens;
}

-- The writes of a reset, once everything is checked.
unfoldable pub reset_writes : PasswordResetToken → Account → String → AuthDb → AuthDb
reset_writes row account password_hash db =
    let db' = save_account (record account { password_hash = password_hash }) db in
    delete_reset row (record db' {
      sessions = delete_where (λ s. is_just s.account_id account.id) db'.sessions;
      challenges = delete_where (λ c. is_just c.account_id account.id) db'.challenges;
    })

reset_hashed : PasswordResetToken → Account → Result String → AuthDb → AuthDb × Result Account
unfolding reset_writes
reset_hashed row account (err e) db = (db, err e)
reset_hashed row account (ok hash) db =
    (reset_writes row account hash db, ok (record account { password_hash = hash }))

abbrev pub reset_allowed : Option User → Account → Bool
reset_allowed none account = false
reset_allowed (some user) account =
    not user.is_blocked && (account.is_active && (account.user_id == user.id))

abbrev pub delete_activation : AccountActivationToken → AuthDb → AuthDb
delete_activation row db = record db {
  activation_tokens = delete_where (activation_has row.token_hash) db.activation_tokens;
}

activate_hashed :
    String
    → String
    → AccountActivationToken
    → User
    → Result String
    → AuthDb
    → AuthDb × Result Account
activate_hashed id username row user (err e) db = (db, err e)
activate_hashed id username row user (ok hash) db =
    let account : Account = record {
      id = id;
      user_id = user.id;
      username = username;
      password_hash = hash;
      role = "user";
      is_active = true;
    } in
    if is_some (find (λ a. a.username == username) db.accounts) then (db, err integrity) else (
      delete_activation row (record db { accounts = insert_row account db.accounts }),
      ok account,
    )

module _ (platform : Platform) where
  unfoldable pub hash_password : String → ℕ → Result String
  hash_password password min_length =
      if ltb (text_length password) min_length
      then err short_password
      else ok (platform.scrypt_hash password)

  create_reset : Time → String → String → Bool → Option Account → AuthDb → AuthDb × Result String
  create_reset now token user_id refused_user none db = (db, err refused)
  create_reset now token user_id refused_user (some account) db =
      if refused_user then (db, err refused) else (
        record db {
          reset_tokens =
              insert_row
                (record {
                  user_id = user_id;
                  account_id = account.id;
                  token_hash = platform.sha256 token;
                  expires_at = now + token_lifetime;
                })
                (delete_where (λ t. t.user_id == user_id) db.reset_tokens);
        },
        ok token,
      )

  unfoldable pub create_password_reset_token :
      Time → String → AuthDb → String → AuthDb × Result String
  unfolding create_reset
  create_password_reset_token now token db user_id =
      create_reset now token user_id (blocked (find (user_has_id user_id) db.users))
        (find (λ a. (a.user_id == user_id) && a.is_active) db.accounts) db

  reset_account :
      PasswordResetToken → String → ℕ → Option Account → AuthDb → AuthDb × Result Account
  unfolding reset_hashed
  reset_account row password min_length none db = (db, err refused)
  reset_account row password min_length (some account) db =
      if reset_allowed (find (user_has_id row.user_id) db.users) account
      then reset_hashed row account (hash_password password min_length) db
      else (db, err refused)

  reset_found : Time → String → ℕ → Option PasswordResetToken → AuthDb → AuthDb × Result Account
  unfolding reset_account
  reset_found now password min_length none db = (db, err invalid)
  reset_found now password min_length (some row) db =
      if leb row.expires_at now
      then (delete_reset row db, err invalid)
      else reset_account row password min_length (find (account_has_id row.account_id) db.accounts)
          db

  unfoldable pub consume_password_reset :
      Time → AuthDb → String → String → ℕ → AuthDb × Result Account
  unfolding reset_found
  consume_password_reset now db token password min_length =
      if (token == "") || ltb 200 (text_length token)
      then (db, err invalid)
      else reset_found now password min_length
          (find (reset_has (platform.sha256 token)) db.reset_tokens) db

  unfoldable pub create_activation_token : Time → String → AuthDb → String → AuthDb
  create_activation_token now token db user_id = record db {
    activation_tokens =
        insert_row
          (record {
            user_id = user_id;
            token_hash = platform.sha256 token;
            expires_at = now + token_lifetime;
          })
          (delete_where (λ t. t.user_id == user_id) db.activation_tokens);
  }

  activate_user :
      String
      → String
      → String
      → ℕ
      → AccountActivationToken
      → Option User
      → AuthDb
      → AuthDb × Result Account
  unfolding activate_hashed
  activate_user id username password min_length row none db = (db, err refused)
  activate_user id username password min_length row (some user) db =
      if user.is_blocked
      then (db, err refused)
      else if is_some (find (λ a. a.user_id == user.id) db.accounts)
      then (delete_activation row db, err taken)
      else activate_hashed id username row user (hash_password password min_length) db

  activate_found :
      Time
      → String
      → String
      → String
      → ℕ
      → Option AccountActivationToken
      → AuthDb
      → AuthDb × Result Account
  unfolding activate_user
  activate_found now id username password min_length none db = (db, err invalid)
  activate_found now id username password min_length (some row) db =
      if leb row.expires_at now
      then (delete_activation row db, err invalid)
      else activate_user id username password min_length row
          (find (user_has_id row.user_id) db.users) db

  -- `id` is the new account's.
  unfoldable pub activate_account :
      Time → String → AuthDb → String → String → String → ℕ → AuthDb × Result Account
  unfolding activate_found
  activate_account now id db token username password min_length =
      if (token == "") || ltb 200 (text_length token)
      then (db, err invalid)
      else activate_found now id username password min_length
          (find (activation_has (platform.sha256 token)) db.activation_tokens) db
