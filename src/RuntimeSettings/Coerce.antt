-- ===== src/RuntimeSettings/Coerce.antt =====
-- src/wecom_ai_gateway/runtime_settings.py: `_coerce`, and how a setting is kept_row in its row;
-- src/wecom_ai_gateway/tool_execution.py: `parse_tool_allowlist`.
-- Error messages are kept_row as the rule that was broken. Python's `int` on a text is a parameter.
use multi_channel_ai_gateway.Base.{
  String, Bool, true, false, ◌||◌, Option, none, some, List, [], ◌∷◌, ◌==◌, if◌then◌else◌,
}
use multi_channel_ai_gateway.Base.Text.{text_length, strip, split_char}
use multi_channel_ai_gateway.RuntimeSettings.Value.{
  ℤ, pos, Value, null, flag, whole, fraction, text, object, other, less_than, more_than,
  longer_than,
}
use multi_channel_ai_gateway.RuntimeSettings.Specs.{SettingType, SettingSpec}

-- What the module takes from its surroundings: `int` on texts, the attributes of the settings
-- object of config.py, and the encryption of security.py.
pub record SettingsEnv : Type 0 where
  pub parse_int : String → Option ℤ
  pub attribute : String → Option Value
  pub encrypt_secret : String → String

pub data CoerceError : Type 0 where
  not_bool not_int too_small too_large not_option not_text too_long : CoerceError

pub data Coerced : Type 0 where
  ok : Value → Coerced
  err : CoerceError → Coerced

-- `int(raw)`, where `none` stands for a TypeError or a ValueError.
unfoldable pub to_int : SettingsEnv → Value → Option ℤ
to_int env (flag true) = some (pos 1)
to_int env (flag false) = some (pos 0)
to_int env (whole z) = some z
to_int env (fraction z) = some z
to_int env (text s) = env.parse_int s
to_int env null = none
to_int env (object v) = none
to_int env other = none

unfoldable pub coerce_int : SettingSpec → Option ℤ → Coerced
coerce_int spec none = err not_int
coerce_int spec (some z) =
    if less_than z spec.min
    then err too_small
    else if more_than z spec.max
    then err too_large
    else ok (whole z)

unfoldable pub coerce_bool : Value → Coerced
coerce_bool (flag b) = ok (flag b)
coerce_bool _ = err not_bool

unfoldable pub listed : String → List String → Bool
listed s [] = false
listed s (t ∷ ts) = (s == t) || listed s ts

unfoldable pub coerce_select : SettingSpec → Value → Coerced
unfolding listed
coerce_select spec (text s) = if listed s spec.options then ok (text s) else err not_option
coerce_select spec _ = err not_option

unfoldable pub coerce_text : SettingSpec → Value → Coerced
coerce_text spec (text s) =
    if longer_than (text_length s) spec.max then err too_long else ok (text s)
coerce_text spec _ = err not_text

unfoldable pub coerce_as : SettingsEnv → SettingSpec → SettingType → Value → Coerced
unfolding to_int coerce_int coerce_bool coerce_select coerce_text
coerce_as env spec SettingType.int raw = coerce_int spec (to_int env raw)
coerce_as env spec SettingType.bool raw = coerce_bool raw
coerce_as env spec SettingType.select raw = coerce_select spec raw
coerce_as env spec SettingType.str raw = coerce_text spec raw
coerce_as env spec SettingType.secret raw = coerce_text spec raw

unfoldable pub coerce : SettingsEnv → Value → SettingSpec → Coerced
coerce env raw spec = coerce_as env spec spec.kind raw

abbrev pub is_platform_mode : SettingSpec → Bool
is_platform_mode spec = spec.key == "platform_mode"

unfoldable pub db_key : SettingSpec → String
db_key spec = if is_platform_mode spec then "mode" else spec.key

unfoldable pub to_stored : SettingSpec → Value → Value
to_stored spec value = if is_platform_mode spec then object value else value

abbrev mode_entry : Value → Value
mode_entry (object v) = v
mode_entry v = v

unfoldable pub from_stored : SettingSpec → Value → Value
from_stored spec stored = if is_platform_mode spec then mode_entry stored else stored

abbrev known_tool : String → Bool
known_tool name = (name == "get_current_time") || (name == "get_weather")

kept_names : List String → List String
kept_names [] = []
kept_names (item ∷ items) =
    let rest = kept_names items in if strip item == "" then rest else strip item ∷ rest

all_known : List String → Bool
all_known [] = true
all_known (name ∷ names) = if known_tool name then all_known names else false

-- The names as a list, in which a name may stand twice.
unfoldable pub parse_tool_allowlist : Value → Option (List String)
unfolding split_char kept_names all_known
parse_tool_allowlist (text raw) =
    let names = kept_names (split_char 0x2c raw) in if all_known names then some names else none
parse_tool_allowlist _ = none
