-- ===== src/RuntimeSettings/Mode.antt =====
-- The platform's mode, which runtime_settings.py saves and policy.py reads.
use multi_channel_ai_gateway.Base.{
  String, Bool, true, false, Option, none, some, List, [], ◌∷◌, ◌++◌, ◌≡◌, refl, ap, ◌∙◌, ◌==◌,
  ◌||◌, arith, find,
}
use multi_channel_ai_gateway.Accounts.Rows.{User}
use multi_channel_ai_gateway.Policy.Decision.{Modes, resolve_user_mode}
use multi_channel_ai_gateway.RuntimeSettings.Value.{Value, null, text, object}
use multi_channel_ai_gateway.RuntimeSettings.Specs.{SettingType, SettingSpec, spec_by_key, specs}
use multi_channel_ai_gateway.RuntimeSettings.Coerce.{
  coerce_as, coerce_select, listed, SettingsEnv, ok, coerce, db_key, to_stored,
}
use multi_channel_ai_gateway.RuntimeSettings.Store.{PlatformConfig, Session, config_has, cache_get}
use multi_channel_ai_gateway.RuntimeSettings.Update.{update_settings}
use multi_channel_ai_gateway.RuntimeSettings.Rows.{Holds}
use multi_channel_ai_gateway.RuntimeSettings.Saved.{Entries, settings_after}
use multi_channel_ai_gateway.RuntimeSettings.RoundTrip.{saved-row}

-- `row.value.get("mode")` of policy.py.
mode_text : Value → Option String
mode_text (object (text mode)) = some mode
mode_text _ = none

mode_of_row : Option PlatformConfig → Option String
mode_of_row none = none
mode_of_row (some row) = mode_text row.value

-- What `resolve_user_mode` reads, from the table that `update_settings` writes.
unfoldable pub modes_from : Bool → String → List PlatformConfig → Modes
unfolding mode_of_row mode_text
modes_from single_user_mode platform_mode config = record {
  single_user_mode = single_user_mode;
  platform_mode = platform_mode;
  configured = mode_of_row (find (config_has "mode") config);
}

abbrev mode_spec : SettingSpec
mode_spec = record {
  key = "platform_mode";
  kind = SettingType.select;
  default = null;
  env_attr = some "platform_mode";
  min = none;
  max = none;
  options = "self_service" ∷ "managed" ∷ [];
  is_secret = false;
  write_only = false;
  editable = true;
}

mode_spec-known : spec_by_key "platform_mode" ≡ some mode_spec
unfolding spec_by_key find specs
mode_spec-known = refl

mode_coerced :
    (env : SettingsEnv) (mode : String) (v : Value)
    → coerce env (text mode) mode_spec ≡ ok v
    → (v ≡ text mode) × (((mode == "self_service") || (mode == "managed")) ≡ true)
unfolding coerce coerce_as coerce_select listed
mode_coerced env mode v h = (ground arith, ground arith)

mode_read :
    (platform_mode mode : String) (u : User) (config : List PlatformConfig)
    → u.mode ≡ none
    → ((mode == "self_service") || (mode == "managed")) ≡ true
    → Holds "mode" (object (text mode)) config
    → resolve_user_mode (modes_from false platform_mode config) (some u) ≡ mode
unfolding resolve_user_mode modes_from
mode_read platform_mode mode u config unset fine (row, found, same) =
    rw (unset, found, same, fine) refl

-- Once a batch with the platform's mode is saved without an error, a user without a mode of their
-- own gets that mode from policy.py, unless the single-user mode is on.
pub update_settings-resolve_user_mode :
    (env : SettingsEnv) (platform_mode mode : String) (u : User) (before after : Entries)
    (s : Session)
    → u.mode ≡ none
    → cache_get "platform_mode" after ≡ none
    → (update_settings env (before ++ ("platform_mode", text mode) ∷ after) s).1 ≡ []
    → resolve_user_mode
        (modes_from false platform_mode
          (settings_after env (before ++ ("platform_mode", text mode) ∷ after) s).config)
        (some u)
      ≡ mode
unfolding db_key to_stored
update_settings-resolve_user_mode env platform_mode mode u before after s unset last good =
    let (v, c, (config, same, holds)) =
      saved-row env mode_spec "platform_mode" (text mode) before after s mode_spec-known refl last
        good in
    let (is, fine) = mode_coerced env mode v c in
    rw same
      (mode_read platform_mode mode u config unset fine (holds.0, holds.1, holds.2 ∙ ap object is))
