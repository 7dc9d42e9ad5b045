-- ===== src/RuntimeSettings/Update.antt =====
-- src/wecom_ai_gateway/runtime_settings.py: `update_settings` and `settings_view`.
use multi_channel_ai_gateway.Base.{
  ℕ, String, Bool, true, false, ◌&&◌, not, Option, none, some, List, [], ◌∷◌, ◌==◌, if◌then◌else◌,
  find, update_where, insert_row, is_some,
}
use multi_channel_ai_gateway.Base.Text.{strip}
use multi_channel_ai_gateway.RuntimeSettings.Value.{Value, null, text}
use multi_channel_ai_gateway.RuntimeSettings.Specs.{
  SettingType, SettingSpec, specs, spec_by_key, overridable,
}
use multi_channel_ai_gateway.RuntimeSettings.Coerce.{
  SettingsEnv, CoerceError, Coerced, ok, err, coerce, db_key, to_stored, from_stored,
  parse_tool_allowlist,
}
use multi_channel_ai_gateway.RuntimeSettings.Store.{
  PlatformConfig, Session, config_has, get_runtime_value,
}

-- The messages of `update_settings`.
pub data SettingError : Type 0 where
  unknown_setting read_only env_only unknown_tool : SettingError
  invalid : CoerceError → SettingError

-- What one round of the loop does with a value.
pub data Checked : Type 0 where
  skipped : Checked
  accepted : Value → Checked
  rejected : SettingError → Checked

blank : Value → Bool
blank null = true
blank (text s) = strip s == ""
blank _ = false

-- What a write-only setting is given to encrypt is a text.
encrypted : SettingsEnv → Value → Value
encrypted env (text s) = text (env.encrypt_secret s)
encrypted env value = value

unfoldable pub prepared : SettingsEnv → SettingSpec → Value → Value
unfolding encrypted
prepared env spec value = if spec.write_only then encrypted env value else value

unfoldable pub tools_checked : SettingsEnv → SettingSpec → Value → Checked
tools_checked env spec value =
    if spec.key == "tools_allowed"
    then if is_some (parse_tool_allowlist value)
      then accepted (prepared env spec value)
      else rejected unknown_tool
    else accepted (prepared env spec value)

unfoldable pub coerced_checked : SettingsEnv → SettingSpec → Coerced → Checked
coerced_checked env spec (err e) = rejected (invalid e)
coerced_checked env spec (ok value) = tools_checked env spec value

unfoldable pub check_spec : SettingsEnv → Value → SettingSpec → Checked
unfolding coerced_checked tools_checked prepared encrypted blank
check_spec env raw spec =
    if not spec.editable
    then rejected read_only
    else if spec.is_secret && not spec.write_only
    then rejected env_only
    else if spec.write_only && blank raw
    then skipped
    else coerced_checked env spec (coerce env raw spec)

check_found : SettingsEnv → Value → Option SettingSpec → Checked
check_found env raw none = rejected unknown_setting
check_found env raw (some spec) = check_spec env raw spec

unfoldable pub check_setting : SettingsEnv → String → Value → Checked
unfolding check_found
check_setting env key raw = check_found env raw (spec_by_key key)

-- `normalized` and `errors` after the loop.
abbrev pub with_checked :
    String
    → Checked
    → List (String × Value) × List (String × SettingError)
    → List (String × Value) × List (String × SettingError)
with_checked key skipped (normalized, errors) = (normalized, errors)
with_checked key (accepted value) (normalized, errors) = ((key, value) ∷ normalized, errors)
with_checked key (rejected e) (normalized, errors) = (normalized, (key, e) ∷ errors)

unfoldable pub check_all :
    SettingsEnv → List (String × Value) → List (String × Value) × List (String × SettingError)
check_all env [] = ([], [])
check_all env ((key, raw) ∷ values) =
    with_checked key (check_setting env key raw) (check_all env values)

unfoldable pub put_found :
    String → Value → List PlatformConfig → Option PlatformConfig → List PlatformConfig
put_found key value config none = insert_row (record { key = key; value = value }) config
put_found key value config (some row) =
    update_where (config_has key) (λ r. record r { value = value }) config

unfoldable pub put_config : String → Value → List PlatformConfig → List PlatformConfig
put_config key value config = put_found key value config (find (config_has key) config)

-- One round of the second loop. A key that is in `normalized` has a specification.
unfoldable pub put_setting : Option SettingSpec → Value → List PlatformConfig → List PlatformConfig
put_setting none value config = config
put_setting (some spec) value config = put_config (db_key spec) (to_stored spec value) config

unfoldable pub put_all : List (String × Value) → List PlatformConfig → List PlatformConfig
unfolding put_setting
put_all [] config = config
put_all ((key, value) ∷ normalized) config =
    put_all normalized (put_setting (spec_by_key key) value config)

unfoldable pub save_checked :
    List (String × Value) × List (String × SettingError)
    → Session
    → Session × List (String × SettingError)
save_checked (normalized, e ∷ errors) s = (s, e ∷ errors)
save_checked (normalized, []) s =
    (record s { config = put_all normalized s.config; cache = none }, [])

-- `values` is a dictionary: its keys differ.
unfoldable pub update_settings :
    SettingsEnv → List (String × Value) → Session → Session × List (String × SettingError)
unfolding save_checked
update_settings env values s = save_checked (check_all env values) s

pub data ViewValue : Type 0 where
  shown : Option Value → ViewValue
  configured : Bool → ViewValue

-- An item of the view, less the texts for display.
pub record ViewItem : Type 0 where
  pub key : String
  pub value : ViewValue
  pub default : Value
  pub min : Option ℕ
  pub max : Option ℕ
  pub options : List String
  pub is_secret : Bool
  pub editable : Bool
  pub overridable : List String

-- Python's truth of a value of the settings object that holds a secret.
truthy : Option Value → Bool
truthy (some (text s)) = not (s == "")
truthy _ = false

env_configured : SettingsEnv → SettingSpec → Bool
env_configured env spec = elim spec.env_attr [ none ↦ false | some a ↦ truthy (env.attribute a) ]

-- `rows.get(...)` takes a row that holds null for none.
unfoldable pub stored_value : Option PlatformConfig → Option Value
stored_value none = none
stored_value (some row) = elim row.value [ null ↦ none | _ ↦ some row.value ]

unfoldable pub shown_coerced : SettingsEnv → SettingSpec → Coerced → Session → Session × ViewValue
shown_coerced env spec (ok value) s = (s, shown (some value))
shown_coerced env spec (err _) s =
    let (s', value) = get_runtime_value env spec.key s in (s', shown value)

unfoldable pub shown_value :
    SettingsEnv → SettingSpec → Option Value → Session → Session × ViewValue
shown_value env spec none s =
    let (s', value) = get_runtime_value env spec.key s in (s', shown value)
shown_value env spec (some stored) s =
    shown_coerced env spec (coerce env (from_stored spec stored) spec) s

is_configured : SettingsEnv → SettingSpec → List PlatformConfig → Bool
is_configured env spec config =
    if spec.write_only then is_some (find (config_has spec.key) config) else env_configured env spec

unfoldable pub view_as : SettingsEnv → SettingSpec → Bool → Session → Session × ViewValue
unfolding stored_value is_configured env_configured truthy
view_as env spec true s = (s, configured (is_configured env spec s.config))
view_as env spec false s =
    shown_value env spec (stored_value (find (config_has (db_key spec)) s.config)) s

unfoldable pub view_value : SettingsEnv → SettingSpec → Session → Session × ViewValue
view_value env spec s = view_as env spec spec.is_secret s

abbrev pub is_int : SettingType → Bool
is_int SettingType.int = true
is_int _ = false

unfoldable pub view_item : SettingSpec → ViewValue → ViewItem
view_item spec value =
    if spec.is_secret && spec.write_only
    then record {
      key = spec.key;
      value = value;
      default = null;
      min = none;
      max = spec.max;
      options = [];
      is_secret = true;
      editable = true;
      overridable = [];
    }
    else record {
      key = spec.key;
      value = value;
      default = if spec.is_secret then null else spec.default;
      min = if is_int spec.kind then spec.min else none;
      max = if is_int spec.kind then spec.max else none;
      options = spec.options;
      is_secret = spec.is_secret;
      editable = spec.editable && not spec.is_secret;
      overridable = overridable spec.key;
    }

unfoldable pub view_specs : SettingsEnv → List SettingSpec → Session → Session × List ViewItem
view_specs env [] s = (s, [])
view_specs env (spec ∷ rest) s =
    let (s', value) = view_value env spec s in
    let (s'', items) = view_specs env rest s' in (s'', view_item spec value ∷ items)

unfoldable pub settings_view : SettingsEnv → Session → Session × List ViewItem
settings_view env s = view_specs env specs s
