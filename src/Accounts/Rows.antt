-- ===== src/Accounts/Rows.antt =====
-- Rows of models.py for users, accounts, sessions, MFA and the one-time tokens.
use multi_channel_ai_gateway.Base.{ℕ, String, Bool, Option, List, ◌==◌}
use multi_channel_ai_gateway.Models.{Time}

pub record User : Type 0 where
  pub id : String
  pub is_blocked : Bool
  pub mode : Option String

pub record Account : Type 0 where
  pub id : String
  pub user_id : String
  pub username : String
  pub password_hash : String
  pub role : String
  pub is_active : Bool

pub record AuthSession : Type 0 where
  pub account_id : Option String
  pub user_id : Option String
  pub token_hash : String
  pub role : String
  pub expires_at : Time

pub record MfaChallenge : Type 0 where
  pub token_hash : String
  pub subject_type : String
  pub subject_id : String
  pub account_id : Option String
  pub user_id : Option String
  pub role : String
  pub username : String
  pub attempts : ℕ
  pub expires_at : Time

pub record MfaCredential : Type 0 where
  pub subject_type : String
  pub subject_id : String
  pub secret_encrypted : String
  pub enabled : Bool
  pub recovery_code_hashes : List String
  pub last_totp_counter : Option ℕ

pub record PasswordResetToken : Type 0 where
  pub user_id : String
  pub account_id : String
  pub token_hash : String
  pub expires_at : Time

pub record AccountActivationToken : Type 0 where
  pub user_id : String
  pub token_hash : String
  pub expires_at : Time

pub record AuthDb : Type 0 where
  pub users : List User
  pub accounts : List Account
  pub sessions : List AuthSession
  pub challenges : List MfaChallenge
  pub credentials : List MfaCredential
  pub reset_tokens : List PasswordResetToken
  pub activation_tokens : List AccountActivationToken

-- What the code takes from its libraries and its environment: hashlib and hmac, the Fernet
-- encryption and scrypt behind security.py, Unicode tables, and the settings of config.py.
pub record Platform : Type 0 where
  pub sha256 : String → String
  pub hmac_sha1 : String → ℕ → List ℕ
  pub encrypt_secret : String → String
  pub decrypt_secret : String → String
  pub scrypt_hash : String → String
  pub verify_password : String → String → Bool
  pub verify_admin_token : String → Bool
  pub upper : String → String
  pub lower : String → String
  pub is_digit : String → Bool
  pub is_alnum : ℕ → Bool
  pub admin_username : String

abbrev pub user_has_id : String → User → Bool
user_has_id id u = u.id == id

abbrev pub account_has_id : String → Account → Bool
account_has_id id a = a.id == id
