-- ===== src/RuntimeSettings/Examples.antt =====
-- Runs of the runtime settings.
use Prim.Native.String.{◌++◌ as cat}
use multi_channel_ai_gateway.Base.{
  ℕ, zero, suc, String, true, false, if◌then◌else◌, ◌==◌, none, some, List, [], ◌∷◌, ◌++◌, ◌≡◌,
  refl, arith, find,
}
use multi_channel_ai_gateway.Base.Text.{text_length, strip}
use multi_channel_ai_gateway.Policy.Decision.{resolve_user_mode}
use multi_channel_ai_gateway.RuntimeSettings.Value.{pos, Value, null, whole, text}
use multi_channel_ai_gateway.RuntimeSettings.Specs.{SettingType, SettingSpec, spec_by_key, specs}
use multi_channel_ai_gateway.RuntimeSettings.Coerce.{
  SettingsEnv, ok, err, not_int, coerce, coerce_as, coerce_int, coerce_select, to_int, db_key,
  listed, from_stored,
}
use multi_channel_ai_gateway.RuntimeSettings.Store.{
  PlatformConfig, Session, get_runtime_value, runtime_value, cached, from_row, stored_or_default,
  config_has, cache_get,
}
use multi_channel_ai_gateway.RuntimeSettings.Update.{
  update_settings, check_all, save_checked, check_setting, check_spec, coerced_checked,
  tools_checked, prepared,
}
use multi_channel_ai_gateway.RuntimeSettings.Cache.{
  Operation, get, get_effective, override, update, view, Output, run, run_all, run_apart,
  new_session,
}
use multi_channel_ai_gateway.RuntimeSettings.Refinement.{SameTables, run_all-run_apart}
use multi_channel_ai_gateway.RuntimeSettings.RoundTrip.{update_settings-get_runtime_value}
use multi_channel_ai_gateway.RuntimeSettings.Mode.{modes_from, update_settings-resolve_user_mode}
use multi_channel_ai_gateway.RuntimeSettings.Fallback.{valid, get_runtime_value-valid}
use multi_channel_ai_gateway.RuntimeSettings.Secret.{update_settings-smtp_password}
use multi_channel_ai_gateway.RuntimeSettings.Saved.{settings_after as after}

abbrev env : SettingsEnv
env = record {
  parse_int = λ s. if s == "8" then some (pos 8) else none;
  attribute = λ name. if name == "auth_session_days" then some (whole (pos 30)) else none;
  encrypt_secret = λ s. s;
}

abbrev row : String → Value → PlatformConfig
row key value = record { key = key; value = value }

abbrev session : Session
session = record {
  config = row "tool_max_calls" (whole (pos 99)) ∷ row "auth_session_days" (text "soon") ∷ [];
  overrides = [];
  cache = none;
}

abbrev operations : List Operation
operations =
    get "tool_max_calls"
    ∷ update (("tool_max_calls", text "8") ∷ [])
    ∷ get "tool_max_calls"
    ∷ override "user" "u1" "max_context_messages" (whole (pos 50))
    ∷ get_effective "max_context_messages" (some "u1") none
    ∷ view
    ∷ []

run_all-run_apart_example :
    SameTables (run_all env operations session) (run_apart env operations session)
run_all-run_apart_example = run_all-run_apart env operations session refl

-- An invalid row reads as the default, and a saved text as the number that it spells.
default_read :
    (run_all env (get "tool_max_calls" ∷ []) session).1 ≡ Output.value (some (whole (pos 3))) ∷ []
unfolding run_all run get_runtime_value cached spec_by_key specs find runtime_value from_row db_key
    stored_or_default coerce coerce_as coerce_int to_int from_stored
default_read = refl

saved_calls : (update_settings env (("tool_max_calls", text "8") ∷ []) session).1 ≡ []
unfolding update_settings save_checked check_all check_setting check_spec spec_by_key specs find
    coerce coerce_as coerce_int to_int coerced_checked tools_checked prepared
saved_calls = refl

calls_spec : SettingSpec
calls_spec = record {
  key = "tool_max_calls";
  kind = SettingType.int;
  default = whole (pos 3);
  env_attr = none;
  min = some 1;
  max = some 10;
  options = [];
  is_secret = false;
  write_only = false;
  editable = true;
}

calls_spec-known : spec_by_key "tool_max_calls" ≡ some calls_spec
unfolding spec_by_key specs find calls_spec
calls_spec-known = refl

update_settings-get_runtime_value_example :
    (v : Value) × (coerce env (text "8") calls_spec ≡ ok v)
    × ((get_runtime_value env "tool_max_calls"
          (after env ([] ++ ("tool_max_calls", text "8") ∷ []) session)).1
        ≡ some v)
unfolding calls_spec cache_get
update_settings-get_runtime_value_example =
    update_settings-get_runtime_value env calls_spec "tool_max_calls" (text "8") [] [] session
      calls_spec-known refl refl saved_calls

get_runtime_value-valid_example :
    (v : Value) × ((get_runtime_value env "tool_max_calls" (new_session session)).1 ≡ some v)
    × (valid env calls_spec v ≡ true)
unfolding calls_spec
get_runtime_value-valid_example =
    get_runtime_value-valid env "tool_max_calls" calls_spec session calls_spec-known refl

abbrev days_spec : SettingSpec
days_spec = record {
  key = "auth_session_days";
  kind = SettingType.int;
  default = null;
  env_attr = some "auth_session_days";
  min = some 1;
  max = some 90;
  options = [];
  is_secret = false;
  write_only = false;
  editable = true;
}

days_spec-known : spec_by_key "auth_session_days" ≡ some days_spec
unfolding spec_by_key specs find
days_spec-known = refl

days_row :
    find (config_has (db_key days_spec)) session.config
    ≡ some (row "auth_session_days" (text "soon"))
unfolding find db_key
days_row = refl

days_bad : coerce env (from_stored days_spec (text "soon")) days_spec ≡ err not_int
unfolding coerce coerce_as coerce_int to_int from_stored
days_bad = refl

saved_mode : (update_settings env ([] ++ ("platform_mode", text "managed") ∷ []) session).1 ≡ []
unfolding update_settings save_checked check_all check_setting check_spec spec_by_key specs find
    coerce coerce_as coerce_select listed coerced_checked tools_checked prepared
saved_mode = refl

update_settings-resolve_user_mode_example :
    resolve_user_mode
      (modes_from false "self_service"
        (after env ([] ++ ("platform_mode", text "managed") ∷ []) session).config)
      (some (record { id = "u1"; is_blocked = false; mode = none }))
    ≡ "managed"
unfolding cache_get
update_settings-resolve_user_mode_example =
    update_settings-resolve_user_mode env "self_service" "managed"
      (record { id = "u1"; is_blocked = false; mode = none }) [] [] session refl refl saved_mode

-- An encryption that makes texts longer.
padding : ℕ → String
padding zero = ""
padding (suc n) = cat "x" (padding n)

abbrev long_env : SettingsEnv
long_env = record env { encrypt_secret = λ s. padding 300 }

update_settings-smtp_password_example :
    let result = update_settings long_env (("smtp_password", text "secret") ∷ []) session in
    (result.1 ≡ [])
    × ((get_runtime_value long_env "smtp_password" (new_session result.0)).1 ≡ some (text ""))
unfolding text_length padding strip
update_settings-smtp_password_example =
    update_settings-smtp_password long_env "secret" session refl (omega arith) (omega arith)
