-- ===== src/Login/Counters.antt =====
-- src/wecom_ai_gateway/auth.py: the counters of failed logins and of login attempts, in Redis.
-- A counter has its value and the time at which Redis forgets it. While Redis is down every call
-- raises, which the functions take for "not locked".
use multi_channel_ai_gateway.Base.{
  ℕ, suc, ◌+◌, ◌*◌, String, Bool, false, Option, none, some, ◌==◌, leb, ltb, if◌then◌else◌,
}
use multi_channel_ai_gateway.Models.{Time}

-- The keys `login:fail:<username>` and `login:ip:<ip>`.
pub data LockKey : Type 0 where
  login_fail login_ip : String → LockKey

abbrev pub same_key : LockKey → LockKey → Bool
same_key (login_fail a) (login_fail b) = a == b
same_key (login_ip a) (login_ip b) = a == b
same_key _ _ = false

pub record Counter : Type 0 where
  pub value : ℕ
  pub expires_at : Time

pub record Redis : Type 0 where
  pub up : Bool
  pub counters : LockKey → Option Counter

-- The runtime settings of the account group that the counters read.
pub record LockSettings : Type 0 where
  pub login_max_attempts : ℕ
  pub login_lock_minutes : ℕ
  pub login_ip_max_attempts : ℕ
  pub login_ip_window_seconds : ℕ

unfoldable pub live_value : Time → Option Counter → ℕ
live_value now none = 0
live_value now (some c) = if ltb now c.expires_at then c.value else 0

-- `int(redis.get(key) or 0)`
unfoldable pub read_counter : Time → LockKey → Redis → ℕ
unfolding live_value
read_counter now key redis = live_value now (redis.counters key)

abbrev pub counted_up : Time → ℕ → LockKey → Redis → Redis
counted_up now seconds key redis = record redis {
  counters = λ k.
      if same_key key k
      then some (record { value = suc (read_counter now key redis); expires_at = now + seconds })
      else redis.counters k;
}

-- `incr` and `expire`.
unfoldable pub count_up : Time → ℕ → LockKey → Redis → Redis
count_up now seconds key redis = if redis.up then counted_up now seconds key redis else redis

unfoldable pub clear_counter : LockKey → Redis → Redis
clear_counter key redis =
    if redis.up
    then record redis { counters = λ k. if same_key key k then none else redis.counters k }
    else redis

unfoldable pub is_login_locked : LockSettings → Time → String → Redis → Bool
is_login_locked cfg now username redis =
    if redis.up
    then leb cfg.login_max_attempts (read_counter now (login_fail username) redis)
    else false

unfoldable pub record_login_failure : LockSettings → Time → String → Redis → Redis
record_login_failure cfg now username redis =
    count_up now (cfg.login_lock_minutes * 60) (login_fail username) redis

unfoldable pub is_ip_locked : LockSettings → Time → String → Redis → Bool
is_ip_locked cfg now ip redis =
    if redis.up then leb cfg.login_ip_max_attempts (read_counter now (login_ip ip) redis) else false

unfoldable pub record_ip_attempt : LockSettings → Time → String → Redis → Redis
record_ip_attempt cfg now ip redis = count_up now cfg.login_ip_window_seconds (login_ip ip) redis

unfoldable pub clear_ip_attempts : String → Redis → Redis
clear_ip_attempts ip redis = clear_counter (login_ip ip) redis

unfoldable pub clear_login_failures : String → Redis → Redis
clear_login_failures username redis = clear_counter (login_fail username) redis
