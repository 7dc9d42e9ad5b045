-- ===== src/RuntimeSettings/Store.antt =====
-- src/wecom_ai_gateway/runtime_settings.py: reading, overriding and saving settings.
-- The two tables, and the cache that a database session carries in its `info`.
use multi_channel_ai_gateway.Base.{
  String, Bool, ◌&&◌, Option, none, some, List, [], ◌∷◌, ◌==◌, if◌then◌else◌, find, update_where,
  delete_where, insert_row,
}
use multi_channel_ai_gateway.Binding.Tables.{SettingOverride}
use multi_channel_ai_gateway.RuntimeSettings.Value.{Value}
use multi_channel_ai_gateway.RuntimeSettings.Specs.{SettingSpec, spec_by_key, overridable}
use multi_channel_ai_gateway.RuntimeSettings.Coerce.{
  SettingsEnv, CoerceError, Coerced, ok, err, coerce, db_key, from_stored, listed,
}

pub record PlatformConfig : Type 0 where
  pub key : String
  pub value : Value

pub record Session : Type 0 where
  pub config : List PlatformConfig
  pub overrides : List SettingOverride
  pub cache : Option (List (String × Value))

unfoldable pub cache_get : String → List (String × Value) → Option Value
cache_get key [] = none
cache_get key ((k, v) ∷ rest) = if k == key then some v else cache_get key rest

unfoldable pub cached : String → Option (List (String × Value)) → Option Value
cached key none = none
cached key (some entries) = cache_get key entries

-- `cache[key] = value`, for a key that the cache does not have.
abbrev pub cache_put : String → Value → Option (List (String × Value)) → List (String × Value)
cache_put key value none = (key, value) ∷ []
cache_put key value (some entries) = (key, value) ∷ entries

abbrev pub config_has : String → PlatformConfig → Bool
config_has key row = row.key == key

unfoldable pub from_env : SettingsEnv → SettingSpec → Value
from_env env spec = elim spec.env_attr [
  | none ↦ spec.default
  | some name ↦ elim (env.attribute name) [ none ↦ spec.default | some value ↦ value ]
]

unfoldable pub stored_or_default : SettingSpec → Coerced → Value
stored_or_default spec (ok value) = value
stored_or_default spec (err _) = spec.default

unfoldable pub from_row : SettingsEnv → SettingSpec → Option PlatformConfig → Value
from_row env spec none = from_env env spec
from_row env spec (some row) = stored_or_default spec (coerce env (from_stored spec row.value) spec)

-- The value without the cache.
unfoldable pub runtime_value : SettingsEnv → SettingSpec → List PlatformConfig → Value
runtime_value env spec config = from_row env spec (find (config_has (db_key spec)) config)

read_spec : SettingsEnv → String → Session → Option SettingSpec → Session × Option Value
read_spec env key s none = (s, none)
read_spec env key s (some spec) =
    let value = runtime_value env spec s.config in
    (record s { cache = some (cache_put key value s.cache) }, some value)

read_cached : SettingsEnv → String → Session → Option Value → Session × Option Value
read_cached env key s (some value) = (s, some value)
read_cached env key s none = read_spec env key s (spec_by_key key)

-- `none` stands for a KeyError.
unfoldable pub get_runtime_value : SettingsEnv → String → Session → Session × Option Value
unfolding read_cached read_spec
get_runtime_value env key s = read_cached env key s (cached key s.cache)

abbrev pub override_is : String → String → String → SettingOverride → Bool
override_is scope_type scope_id key row =
    (row.scope_type == scope_type) && ((row.scope_id == scope_id) && (row.key == key))

valid_override : SettingsEnv → SettingSpec → Option SettingOverride → Option Value
valid_override env spec none = none
valid_override env spec (some row) = elim (coerce env row.value spec) [
  | ok value ↦ some value
  | err _ ↦ none
]

-- One round of the loop over the scopes; an empty identifier is skipped.
unfoldable pub override_value :
    SettingsEnv → SettingSpec → String → Option String → List SettingOverride → Option Value
unfolding valid_override
override_value env spec scope_type none overrides = none
override_value env spec scope_type (some id) overrides =
    if id == ""
    then none
    else valid_override env spec (find (override_is scope_type id spec.key) overrides)

unfoldable pub effective :
    SettingsEnv → String → Option Value → Option Value → Session → Session × Option Value
effective env key (some value) channel_value s = (s, some value)
effective env key none (some value) s = (s, some value)
effective env key none none s = get_runtime_value env key s

unfoldable pub effective_of :
    SettingsEnv
    → String
    → Option String
    → Option String
    → Session
    → Option SettingSpec
    → Session × Option Value
effective_of env key user_id channel s none = (s, none)
effective_of env key user_id channel s (some spec) =
    effective env key (override_value env spec "user" user_id s.overrides)
      (override_value env spec "channel" channel s.overrides) s

unfoldable pub get_effective_value :
    SettingsEnv → String → Option String → Option String → Session → Session × Option Value
unfolding effective_of effective
get_effective_value env key user_id channel s =
    effective_of env key user_id channel s (spec_by_key key)

-- Why `set_override` raises.
pub data OverrideError : Type 0 where
  not_overridable wrong_scope unknown_key : OverrideError
  invalid : CoerceError → OverrideError

pub data Overridden : Type 0 where
  saved : Value → Overridden
  refused : OverrideError → Overridden

put_override : String → String → String → Value → List SettingOverride → List SettingOverride
put_override scope_type scope_id key value overrides =
    elim (find (override_is scope_type scope_id key) overrides) [
      | some row ↦
          update_where (override_is scope_type scope_id key) (λ r. record r { value = value })
            overrides
      | none ↦
          insert_row
            (record { scope_type = scope_type; scope_id = scope_id; key = key; value = value })
            overrides
    ]

unfoldable pub override_coerced :
    String → String → String → Coerced → Session → Session × Overridden
unfolding put_override
override_coerced scope_type scope_id key (err e) s = (s, refused (invalid e))
override_coerced scope_type scope_id key (ok value) s = (
  record s { overrides = put_override scope_type scope_id key value s.overrides; cache = none },
  saved value,
)

unfoldable pub override_spec :
    SettingsEnv
    → String
    → String
    → String
    → Value
    → Option SettingSpec
    → Session
    → Session × Overridden
override_spec env scope_type scope_id key value none s = (s, refused unknown_key)
override_spec env scope_type scope_id key value (some spec) s =
    override_coerced scope_type scope_id key (coerce env value spec) s

unfoldable pub override_allowed :
    SettingsEnv → String → String → String → Value → List String → Session → Session × Overridden
override_allowed env scope_type scope_id key value [] s = (s, refused not_overridable)
override_allowed env scope_type scope_id key value (a ∷ as') s =
    if listed scope_type (a ∷ as')
    then override_spec env scope_type scope_id key value (spec_by_key key) s
    else (s, refused wrong_scope)

unfoldable pub set_override :
    SettingsEnv → String → String → String → Value → Session → Session × Overridden
unfolding override_allowed override_spec override_coerced put_override
set_override env scope_type scope_id key value s =
    override_allowed env scope_type scope_id key value (overridable key) s

unfoldable pub remove_override : String → String → String → Session → Session
remove_override scope_type scope_id key s = record s {
  overrides = delete_where (override_is scope_type scope_id key) s.overrides;
  cache = none;
}
