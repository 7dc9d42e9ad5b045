-- ===== src/RuntimeSettings/Secret.antt =====
-- The mail password, the one secret that runtime_settings.py writes.
use multi_channel_ai_gateway.Base.{
  ◌<◌, ◌≤◌, String, true, false, none, some, List, [], ◌∷◌, ◌≡◌, refl, ap, ◌∙◌, ◌==◌, arith, find,
}
use multi_channel_ai_gateway.Base.Text.{text_length, strip}
use multi_channel_ai_gateway.RuntimeSettings.Value.{text}
use multi_channel_ai_gateway.RuntimeSettings.Specs.{SettingType, SettingSpec, specs, spec_by_key}
use multi_channel_ai_gateway.RuntimeSettings.Coerce.{
  SettingsEnv, too_long, err, coerce, coerce_as, coerce_text, db_key, from_stored, to_stored,
}
use multi_channel_ai_gateway.RuntimeSettings.Store.{
  PlatformConfig, Session, config_has, get_runtime_value, runtime_value, from_row,
}
use multi_channel_ai_gateway.RuntimeSettings.Update.{
  update_settings, check_setting, check_spec, coerced_checked, tools_checked, prepared, accepted,
}
use multi_channel_ai_gateway.RuntimeSettings.Cache.{get-value, new_session, new_session-CacheOk}
use multi_channel_ai_gateway.RuntimeSettings.Fallback.{invalid-default}
use multi_channel_ai_gateway.RuntimeSettings.Rows.{config-put_self}
use multi_channel_ai_gateway.RuntimeSettings.Saved.{put_all-known, stored, save_checked-errors}
use multi_channel_ai_gateway.RuntimeSettings.Update.{check_all, put_config, put_all}

abbrev password_spec : SettingSpec
password_spec = record {
  key = "smtp_password";
  kind = SettingType.str;
  default = text "";
  env_attr = none;
  min = none;
  max = some 255;
  options = [];
  is_secret = true;
  write_only = true;
  editable = true;
}

password_spec-known : spec_by_key "smtp_password" ≡ some password_spec
unfolding spec_by_key find specs
password_spec-known = refl

password_checked :
    (env : SettingsEnv) (password : String)
    → (strip password == "") ≡ false
    → text_length password ≤ 255
    → check_setting env "smtp_password" (text password)
      ≡ accepted (text (env.encrypt_secret password))
unfolding check_setting check_spec coerced_checked tools_checked prepared coerce coerce_as
    coerce_text
password_checked env password filled short = rw password_spec-known (ground arith)

password_lost :
    (env : SettingsEnv) (password : String)
    → 255 < text_length (env.encrypt_secret password)
    → coerce env (text (env.encrypt_secret password)) password_spec ≡ err too_long
unfolding coerce coerce_as coerce_text
password_lost env password long = ground arith

password_entry :
    (env : SettingsEnv) (password : String)
    → (strip password == "") ≡ false
    → text_length password ≤ 255
    → check_all env (("smtp_password", text password) ∷ [])
      ≡ (("smtp_password", text (env.encrypt_secret password)) ∷ [], [])
unfolding check_all
password_entry env password filled short = rw (password_checked env password filled short) refl

lost_read :
    (env : SettingsEnv) (password : String) (config : List PlatformConfig) (s : Session)
    → 255 < text_length (env.encrypt_secret password)
    → s.config ≡ put_config "smtp_password" (text (env.encrypt_secret password)) config
    → (get_runtime_value env "smtp_password" (new_session s)).1 ≡ some (text "")
unfolding runtime_value db_key from_stored
lost_read env password config s long written =
    let (row, found, same) =
      config-put_self "smtp_password" (text (env.encrypt_secret password)) config in
    let read = get-value env "smtp_password" (new_session s) (new_session-CacheOk env s) in
    let bad : coerce env (from_stored password_spec row.value) password_spec ≡ err too_long =
      rw same (password_lost env password long) in
    let value : from_row env password_spec (find (config_has "smtp_password") s.config) ≡ text "" =
      ap (λ c. from_row env password_spec (find (config_has "smtp_password") c)) written
      ∙ (ap (from_row env password_spec) found
          ∙ invalid-default env password_spec row too_long bad) in
    read ∙ rw password_spec-known (ap some value)

-- A mail password that is not blank and has at most 255 characters is accepted; but where its
-- encrypted form is longer than 255 characters, every later read gives the empty text for it.
pub update_settings-smtp_password :
    (env : SettingsEnv) (password : String) (s : Session)
    → (strip password == "") ≡ false
    → text_length password ≤ 255
    → 255 < text_length (env.encrypt_secret password)
    → let after = update_settings env (("smtp_password", text password) ∷ []) s in
      (after.1 ≡ [])
      × ((get_runtime_value env "smtp_password" (new_session after.0)).1 ≡ some (text ""))
unfolding update_settings put_all db_key to_stored
update_settings-smtp_password env password s filled short long =
    let entry = password_entry env password filled short in
    let checked = check_all env (("smtp_password", text password) ∷ []) in
    let fine : checked.1 ≡ [] = ap (λ c. c.1) entry in
    let cfg : (update_settings env (("smtp_password", text password) ∷ []) s).0.config
        ≡ put_config "smtp_password" (text (env.encrypt_secret password)) s.config =
      ap (λ (t : Session). t.config) (stored checked s fine)
      ∙ (ap (λ c. put_all c.0 s.config) entry
          ∙ put_all-known "smtp_password" password_spec (text (env.encrypt_secret password)) []
              s.config password_spec-known) in
    (
      save_checked-errors checked s ∙ fine,
      lost_read env password s.config
          (update_settings env (("smtp_password", text password) ∷ []) s).0 long cfg,
    )
