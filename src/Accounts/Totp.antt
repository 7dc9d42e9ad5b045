-- ===== src/Accounts/Totp.antt =====
-- src/wecom_ai_gateway/totp.py: RFC 6238 codes with 30-second steps, and recovery codes.
use Prim.Native.Nat.{bit_and}
use Prim.Native.String.{◌++◌ as cat}
use multi_channel_ai_gateway.Base.{
  ℕ, zero, suc, ◌+◌, ◌-◌, ◌*◌, ◌/◌, ◌%◌, ◌^◌, String, Bool, false, ◌||◌, not, Option, none, some,
  List, [], ◌∷◌, ◌==◌, leb, nat_eq, if◌then◌else◌, drop,
}
use multi_channel_ai_gateway.Base.Text.{text_length, strip, remove_char, is_ascii}
use multi_channel_ai_gateway.Models.{Time}
use multi_channel_ai_gateway.Accounts.Rows.{Platform}

abbrev pub totp_period : ℕ
totp_period = 30

abbrev pub totp_digits : ℕ
totp_digits = 6

unfoldable pub counter_at : Time → ℕ
counter_at now = now / totp_period

abbrev last_byte : List ℕ → ℕ
last_byte [] = 0
last_byte (b ∷ []) = b
last_byte (b ∷ bs) = last_byte bs

-- `struct.unpack(">I", bytes[:4])`
abbrev big_endian : List ℕ → ℕ
big_endian (a ∷ b ∷ c ∷ d ∷ _) = ((a * 256 + b) * 256 + c) * 256 + d
big_endian _ = 0

-- The dynamic truncation of the digest.
unfoldable pub truncated : List ℕ → ℕ
truncated digest = bit_and (big_endian (drop (bit_and (last_byte digest) 0x0f) digest)) 0x7fffffff

unfoldable pub digit : ℕ → String
digit d =
    if nat_eq d 0
    then "0"
    else if nat_eq d 1
    then "1"
    else if nat_eq d 2
    then "2"
    else if nat_eq d 3
    then "3"
    else if nat_eq d 4
    then "4"
    else if nat_eq d 5
    then "5"
    else if nat_eq d 6
    then "6"
    else if nat_eq d 7
    then "7"
    else if nat_eq d 8
    then "8"
    else "9"

-- `str(n).zfill(6)` of a number below 10 ** 6: its last `k` digits.
unfoldable pub decimal : ℕ → ℕ → String
unfolding digit
decimal zero n = ""
decimal (suc k) n = cat (decimal k (n / 10)) (digit (n % 10))

-- What a call of `verify_totp` ends in. `compare_digest` raises `TypeError` on a text that is
-- not ASCII, and nothing in the callers catches it.
pub data Verdict : Type 0 where
  accepted : ℕ → Verdict
  rejected : Verdict
  type_error : Verdict

abbrev pub is_used : Option ℕ → ℕ → Bool
is_used none candidate = false
is_used (some last) candidate = leb candidate last

module _ (platform : Platform) where
  unfoldable pub totp_code : String → ℕ → String
  unfolding truncated decimal
  totp_code secret counter =
      decimal totp_digits (truncated (platform.hmac_sha1 secret counter) % 10 ^ totp_digits)

  unfoldable pub try_candidates : String → String → Option ℕ → List ℕ → Verdict
  try_candidates secret guess last [] = rejected
  try_candidates secret guess last (candidate ∷ rest) =
      let later = try_candidates secret guess last rest in
      if is_used last candidate
      then later
      else if not (is_ascii guess)
      then type_error
      else if totp_code secret candidate == guess
      then accepted candidate
      else later

  unfoldable pub verify_totp : Time → String → String → Option ℕ → Verdict
  unfolding try_candidates counter_at
  verify_totp now secret guess last =
      let current = counter_at now in
      if not (nat_eq (text_length guess) totp_digits) || not (platform.is_digit guess)
      then rejected
      else try_candidates secret guess last ((current - 1) ∷ current ∷ (current + 1) ∷ [])

  unfoldable pub recovery_code_hash : String → String
  unfolding strip remove_char
  recovery_code_hash guess = platform.sha256 (platform.upper (strip (remove_char b'-' guess)))
