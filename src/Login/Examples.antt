-- ===== src/Login/Examples.antt =====
-- Guesses at the login endpoint.
use multi_channel_ai_gateway.Base.{
  ℕ, String, true, false, none, List, [], ◌∷◌, ◌==◌, ◌≤◌, ◌≡◌, refl, arith, find,
}
use multi_channel_ai_gateway.Base.Text.{strip, lstrip, rstrip, text_length, all_chars}
use multi_channel_ai_gateway.Accounts.Rows.{Platform}
use multi_channel_ai_gateway.Accounts.Mfa.{returned, enabled_credential}
use multi_channel_ai_gateway.Accounts.Auth.{
  normalize_username, authenticate_password, create_session,
}
use multi_channel_ai_gateway.Login.Counters.{
  LockSettings, read_counter, live_value, count_up, is_login_locked, record_login_failure,
  is_ip_locked, record_ip_attempt,
}
use multi_channel_ai_gateway.Login.Endpoints.{
  Server, LoginReply, proved_reply, password_reply, checked_login, limited_login, named_login,
  auth_login,
}
use multi_channel_ai_gateway.Login.Limit.{LoginRequest, run_logins, wrong_guesses, run_logins_limit}

abbrev toy : Platform
toy = record {
  sha256 = λ s. s;
  hmac_sha1 = λ secret counter. [];
  encrypt_secret = λ s. s;
  decrypt_secret = λ s. s;
  scrypt_hash = λ s. s;
  verify_password = λ password hash. password == hash;
  verify_admin_token = λ token. false;
  upper = λ s. s;
  lower = λ s. s;
  is_digit = λ s. true;
  is_alnum = λ c. true;
  admin_username = "admin";
}

abbrev limits : LockSettings
limits = record {
  login_max_attempts = 2;
  login_lock_minutes = 15;
  login_ip_max_attempts = 60;
  login_ip_window_seconds = 900;
}

abbrev server : Server
server = record {
  db = record {
    users = record { id = "u1"; is_blocked = false; mode = none } ∷ [];
    accounts =
        record {
          id = "a1";
          user_id = "u1";
          username = "alice";
          password_hash = "right";
          role = "user";
          is_active = true;
        }
        ∷ [];
    sessions = [];
    challenges = [];
    credentials = [];
    reset_tokens = [];
    activation_tokens = [];
  };
  redis = record { up = true; counters = λ k. none };
}

abbrev guess : ℕ → String → LoginRequest
guess now password = record {
  now = now;
  name = "alice";
  password = password;
  ip = "10.0.0.1";
  token = "t";
}

-- The third request has the right password, and comes too late.
abbrev guesses : List LoginRequest
guesses = guess 100 "wrong" ∷ guess 101 "worse" ∷ guess 102 "right" ∷ []

guess_replies :
    (run_logins toy limits 30 guesses server).1
    ≡ LoginReply.unauthorized ∷ LoginReply.unauthorized ∷ LoginReply.login_locked ∷ []
unfolding run_logins auth_login named_login limited_login checked_login password_reply proved_reply
    normalize_username authenticate_password strip lstrip rstrip text_length all_chars find
    read_counter live_value count_up is_login_locked record_login_failure is_ip_locked
    record_ip_attempt enabled_credential create_session
guess_replies = refl

alice_named : normalize_username toy "alice" ≡ returned "alice"
unfolding normalize_username strip lstrip rstrip text_length all_chars
alice_named = refl

run_logins_limit_example : wrong_guesses (run_logins toy limits 30 guesses server).1 ≤ 2
run_logins_limit_example =
    run_logins_limit toy limits 30 "alice" 100 guesses server refl refl
      (
        (alice_named, (omega arith, omega arith)),
        (
          (alice_named, (omega arith, omega arith)),
          ((alice_named, (omega arith, omega arith)), tt),
        ),
      )
      (rw guess_replies tt)
