-- ===== src/RuntimeSettings/Value.antt =====
-- Values of src/wecom_ai_gateway/runtime_settings.py: what a JSON column, a request or an attribute
-- of the settings object can hold.
use multi_channel_ai_gateway.Base.{ℕ, String, Bool, true, false, Option, none, some, ltb}

-- `negsuc n` is -(n + 1).
pub data ℤ : Type 0 where
  pos : ℕ → ℤ
  negsuc : ℕ → ℤ

-- A finite float counts by the integer that `int` makes of it. Of an object only the value of its
-- key `mode` is kept_row, which is null where the key is missing. Lists are `other`.
pub data Value : Type 0 where
  null : Value
  flag : Bool → Value
  whole : ℤ → Value
  fraction : ℤ → Value
  text : String → Value
  object : Value → Value
  other : Value

abbrev pub less_than : ℤ → Option ℕ → Bool
less_than z none = false
less_than (pos n) (some m) = ltb n m
less_than (negsuc n) (some m) = true

abbrev pub more_than : ℤ → Option ℕ → Bool
more_than z none = false
more_than (pos n) (some m) = ltb m n
more_than (negsuc n) (some m) = false

abbrev pub longer_than : ℕ → Option ℕ → Bool
longer_than n none = false
longer_than n (some m) = ltb m n
