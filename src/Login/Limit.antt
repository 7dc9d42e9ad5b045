-- ===== src/Login/Limit.antt =====
-- How often a password can be guessed at the login endpoint of main.py.
use multi_channel_ai_gateway.Base.{
  ℕ, suc, ◌+◌, ◌*◌, ◌≤◌, ◌<◌, String, true, false, Option, none, some, List, [], ◌∷◌, ◌≡◌, refl, ap,
  ◌∙◌, ◌⊎◌, inl, inr, ==-refl, leb, lt→ltb, is_some, if◌then◌else◌, Bool-cases, arith, All,
}
use multi_channel_ai_gateway.Models.{Time}
use multi_channel_ai_gateway.Accounts.Rows.{Platform}
use multi_channel_ai_gateway.Accounts.Mfa.{
  Outcome, returned, value_error, type_failure, enabled_credential,
}
use multi_channel_ai_gateway.Accounts.Auth.{Proved, normalize_username, authenticate_password}
use multi_channel_ai_gateway.Login.Counters.{
  LockKey, login_fail, login_ip, Redis, LockSettings, read_counter, live_value, count_up,
  counted_up, is_login_locked, record_login_failure, is_ip_locked, record_ip_attempt,
}
use multi_channel_ai_gateway.Login.Endpoints.{
  Server, LoginReply, ip_locked, login_locked, bad_request, unauthorized, server_error,
  mfa_required, session, proved_reply, password_reply, checked_login, counts_ip, limited_login,
  named_login, auth_login,
}

pub record LoginRequest : Type 0 where
  pub now : Time
  pub name : String
  pub password : String
  pub ip : String
  pub token : String

unfoldable pub run_logins :
    Platform → LockSettings → ℕ → List LoginRequest → Server → Server × List LoginReply
run_logins platform cfg days [] s = (s, [])
run_logins platform cfg days (a ∷ as') s =
    let (s', reply) = auth_login platform cfg days a.now a.name a.password a.ip a.token s in
    let (s'', replies) = run_logins platform cfg days as' s' in (s'', reply ∷ replies)

abbrev is_wrong : LoginReply → ℕ
is_wrong unauthorized = 1
is_wrong _ = 0

abbrev pub wrong_guesses : List LoginReply → ℕ
wrong_guesses [] = 0
wrong_guesses (r ∷ rs) = is_wrong r + wrong_guesses rs

abbrev pub NoSession : List LoginReply → Type 0
NoSession [] = Unit
NoSession (session t ∷ rs) = ⊥
NoSession (_ ∷ rs) = NoSession rs

NoSession-tail : (r : LoginReply) (rs : List LoginReply) → NoSession (r ∷ rs) → NoSession rs
NoSession-tail (session t) rs h = absurd h
NoSession-tail ip_locked rs h = h
NoSession-tail login_locked rs h = h
NoSession-tail bad_request rs h = h
NoSession-tail unauthorized rs h = h
NoSession-tail server_error rs h = h
NoSession-tail (mfa_required t) rs h = h

NoSession-head :
    (t : String) (r : LoginReply) (rs : List LoginReply) → r ≡ session t → NoSession (r ∷ rs) → ⊥
NoSession-head t r rs e h = rw e at h

module _ (platform : Platform) (cfg : LockSettings) (days : ℕ) (username : String)
    (start : Time) where
  abbrev pub Within : Time → Type 0
  Within t = (start ≤ t) × (t < start + cfg.login_lock_minutes * 60)

  -- As long as the lock lasts from the start, the counter reads `n`.
  abbrev Counted : ℕ → Redis → Type 0
  Counted n redis =
      (redis.up ≡ true) × ((t : Time) → Within t → read_counter t (login_fail username) redis ≡ n)

  abbrev After : ℕ → Server × LoginReply → Type 0
  After n (s', reply) =
      ((is_wrong reply ≡ 1) × (n < cfg.login_max_attempts) × Counted (suc n) s'.redis)
      ⊎ (((is_wrong reply ≡ 0) × Counted n s'.redis) ⊎ ((t : String) × (reply ≡ session t)))

  count_up-up :
      (now seconds : ℕ) (key : LockKey) (redis : Redis)
      → redis.up ≡ true
      → count_up now seconds key redis ≡ counted_up now seconds key redis
  unfolding count_up
  count_up-up now seconds key redis up =
      ap (λ b. if b then counted_up now seconds key redis else redis) up

  own-reads :
      (t now seconds : ℕ) (redis : Redis)
      → t < now + seconds
      → read_counter t (login_fail username) (counted_up now seconds (login_fail username) redis)
        ≡ suc (read_counter now (login_fail username) redis)
  unfolding read_counter live_value
  own-reads t now seconds redis before = rw (==-refl username, lt→ltb t (now + seconds) before) refl

  failure-Counted :
      (n : ℕ) (now : Time) (redis : Redis)
      → Within now
      → Counted n redis
      → Counted (suc n) (record_login_failure cfg now username redis)
  unfolding record_login_failure
  failure-Counted n now redis w (up, counted) =
      rw (count_up-up now (cfg.login_lock_minutes * 60) (login_fail username) redis up) (up, reads)
    where
      reads :
          (t : Time)
          → Within t
          → read_counter t
              (login_fail username)
              (counted_up now (cfg.login_lock_minutes * 60) (login_fail username) redis)
            ≡ suc n
      reads t wt =
          own-reads t now (cfg.login_lock_minutes * 60) redis (omega arith) ∙ ap suc (counted now w)

  ip-Counted :
      (n : ℕ) (now : Time) (ip : String) (redis : Redis)
      → Counted n redis
      → Counted n (record_ip_attempt cfg now ip redis)
  unfolding record_ip_attempt read_counter
  ip-Counted n now ip redis (up, counted) =
      rw (count_up-up now cfg.login_ip_window_seconds (login_ip ip) redis up) (up, counted)

  locked-reads :
      (n : ℕ) (now : Time) (redis : Redis)
      → Within now
      → Counted n redis
      → is_login_locked cfg now username redis ≡ leb cfg.login_max_attempts n
  unfolding is_login_locked
  locked-reads n now redis w (up, counted) =
      ap
        (λ b.
          if b
          then leb cfg.login_max_attempts (read_counter now (login_fail username) redis)
          else false)
        up
      ∙ ap (leb cfg.login_max_attempts) (counted now w)

  proved-After :
      (n : ℕ) (now : Time) (ip token : String) (s : Server) (result : Option Proved)
      → Within now
      → n < cfg.login_max_attempts
      → Counted n s.redis
      → After n (proved_reply platform cfg days now username ip token s result)
  unfolding proved_reply
  proved-After n now ip token s none w room c = inl (refl, room, failure-Counted n now s.redis w c)
  proved-After n now ip token s (some p) w room c =
      elim (Bool-cases (is_some (enabled_credential s.db p.subject))) [
        | inl y ↦ rw y (inr (inl (refl, c)))
        | inr f ↦ rw f (inr (inr (token, refl)))
      ]

  password-After :
      (n : ℕ) (now : Time) (ip token : String) (s : Server) (result : Outcome (Option Proved))
      → Within now
      → n < cfg.login_max_attempts
      → Counted n s.redis
      → After n (password_reply platform cfg days now username ip token s result)
  unfolding password_reply
  password-After n now ip token s (returned r) w room c = proved-After n now ip token s r w room c
  password-After n now ip token s value_error w room c = inr (inl (refl, c))
  password-After n now ip token s type_failure w room c = inr (inl (refl, c))

  checked-After :
      (n : ℕ) (now : Time) (name password ip token : String) (s : Server)
      → Within now
      → Counted n s.redis
      → After n (checked_login platform cfg days now username name password ip token s)
  unfolding checked_login
  checked-After n now name password ip token s w c =
      let locked = locked-reads n now s.redis w c in
      let answer = authenticate_password platform s.db name password in
      elim (Bool-cases (leb cfg.login_max_attempts n)) [
        | inl y ↦ rw (locked, y) (inr (inl (refl, c)))
        | inr f ↦ rw (locked, f) (password-After n now ip token s answer w (ground (arith, f)) c)
      ]

  limited-After :
      (n : ℕ) (now : Time) (name password ip token : String) (s : Server)
      → Within now
      → Counted n s.redis
      → After n (limited_login platform cfg days now username name password ip token s)
  unfolding limited_login
  limited-After n now name password ip token s w c =
      elim (Bool-cases (counts_ip platform cfg days username ip)) [
        | inr f ↦ rw f (checked-After n now name password ip token s w c)
        | inl y ↦ elim (Bool-cases (is_ip_locked cfg now ip s.redis)) [
          | inl locked ↦ rw (y, locked) (inr (inl (refl, c)))
          | inr free ↦
              rw (y, free)
                (checked-After n now name password ip token
                  (record s { redis = record_ip_attempt cfg now ip s.redis }) w
                  (ip-Counted n now ip s.redis c))
        ]
      ]

  login-After :
      (n : ℕ) (a : LoginRequest) (s : Server)
      → normalize_username platform a.name ≡ returned username
      → Within a.now
      → Counted n s.redis
      → After n (auth_login platform cfg days a.now a.name a.password a.ip a.token s)
  unfolding auth_login named_login
  login-After n a s names w c =
      rw names (limited-After n a.now a.name a.password a.ip a.token s w c)

  abbrev pub Asks : LoginRequest → Type 0
  Asks a = (normalize_username platform a.name ≡ returned username) × Within a.now

  guesses-le :
      (n : ℕ) (requests : List LoginRequest) (s : Server)
      → All Asks requests
      → Counted n s.redis
      → n ≤ cfg.login_max_attempts
      → NoSession (run_logins platform cfg days requests s).1
      → n + wrong_guesses (run_logins platform cfg days requests s).1 ≤ cfg.login_max_attempts
  unfolding run_logins
  guesses-le n [] s asks c room none_let_in = omega arith
  guesses-le n (a ∷ as') s ((names, w), asks) c room none_let_in =
      let r = auth_login platform cfg days a.now a.name a.password a.ip a.token s in
      let rest = run_logins platform cfg days as' r.0 in
      let later = NoSession-tail r.1 rest.1 none_let_in in
      elim (login-After n a s names w c) [
        | inl (one, below, c') ↦
            let ih = guesses-le (suc n) as' r.0 asks c' (omega arith) later in
            omega (arith, one, ih)
        | inr (inl (no_guess, c')) ↦
            let ih = guesses-le n as' r.0 asks c' room later in omega (arith, no_guess, ih)
        | inr (inr (t, let_in)) ↦ absurd (NoSession-head t r.1 rest.1 let_in none_let_in)
      ]

-- While Redis is up, the password of a user name can be guessed wrongly at most
-- `login_max_attempts` times at the login endpoint between two successful logins, within the time
-- for which a lock lasts: that holds for any sequence of requests for that name from any clients,
-- in which nobody is let in, if no failure of that name is counted at the start.
pub run_logins_limit :
    (platform : Platform) (cfg : LockSettings) (days : ℕ) (username : String) (start : Time)
    (requests : List LoginRequest) (s : Server)
    → s.redis.up ≡ true
    → s.redis.counters (login_fail username) ≡ none
    → All (Asks platform cfg days username start) requests
    → NoSession (run_logins platform cfg days requests s).1
    → wrong_guesses (run_logins platform cfg days requests s).1 ≤ cfg.login_max_attempts
unfolding read_counter live_value
run_logins_limit platform cfg days username start requests s up fresh asks none_let_in =
    let counted =
      guesses-le platform cfg days username start 0 requests s asks (up, λ t w. rw fresh refl)
        (omega arith) none_let_in in
    omega (arith, counted)
