-- ===== src/RuntimeSettings/RoundTrip.antt =====
-- Saving settings with `update_settings` of runtime_settings.py and reading them.
use multi_channel_ai_gateway.Base.{
  String, false, none, some, List, [], ◌∷◌, ◌++◌, ◌≡◌, ◌≢◌, refl, sym, ap, ◌∙◌, ◌⊎◌, inl, inr, find,
}
use multi_channel_ai_gateway.RuntimeSettings.Value.{Value}
use multi_channel_ai_gateway.RuntimeSettings.Specs.{SettingSpec, spec_by_key}
use multi_channel_ai_gateway.RuntimeSettings.Coerce.{SettingsEnv, ok, coerce, db_key, to_stored}
use multi_channel_ai_gateway.RuntimeSettings.Store.{
  PlatformConfig, Session, config_has, get_runtime_value, runtime_value, from_row, cache_get,
}
use multi_channel_ai_gateway.RuntimeSettings.Update.{
  SettingError, skipped, accepted, rejected, check_setting, check_spec, check_all, put_all,
  update_settings,
}
use multi_channel_ai_gateway.RuntimeSettings.Rows.{Holds}
use multi_channel_ai_gateway.RuntimeSettings.Saved.{
  Entries, Errors, settings_after, checked-other, checked-written, all-fine, read-written,
  spec-accepted, refused, stored, save_checked-errors,
}
use multi_channel_ai_gateway.RuntimeSettings.Cache.{
  get-value, new_session, new_session-CacheOk, direct,
}

accepted-value :
    (env : SettingsEnv) (key : String) (spec : SettingSpec) (raw : Value)
    → spec_by_key key ≡ some spec
    → spec.write_only ≡ false
    → ((check_setting env key raw ≡ skipped)
        ⊎ ((v : Value) × (check_setting env key raw ≡ accepted v)))
    → (v : Value) × (coerce env raw spec ≡ ok v) × (check_setting env key raw ≡ accepted v)
unfolding check_setting
accepted-value env key spec raw known plain fine = by_spec (spec-accepted env raw spec plain) fine
  where
    by_spec :
        (((e : SettingError) × (check_spec env raw spec ≡ rejected e))
          ⊎ ((v : Value) × (coerce env raw spec ≡ ok v) × (check_spec env raw spec ≡ accepted v)))
        → ((check_setting env key raw ≡ skipped)
            ⊎ ((v : Value) × (check_setting env key raw ≡ accepted v)))
        → (v : Value) × (coerce env raw spec ≡ ok v) × (check_setting env key raw ≡ accepted v)
    by_spec (inr (v, c, a)) f = (v, c, rw known a)
    by_spec (inl (e, r)) (inl s) = absurd (cc (r, rw known at s))
    by_spec (inl (e, r)) (inr (v, s)) = absurd (cc (r, rw known at s))

-- The row of a setting after a batch that had no error.
pub saved-row :
    (env : SettingsEnv) (spec : SettingSpec) (key : String) (raw : Value) (before after : Entries)
    (s : Session)
    → spec_by_key key ≡ some spec
    → spec.write_only ≡ false
    → cache_get key after ≡ none
    → (update_settings env (before ++ (key, raw) ∷ after) s).1 ≡ []
    → (v : Value) × (coerce env raw spec ≡ ok v)
      × ((config : List PlatformConfig) × (settings_after env (before ++ (key, raw) ∷ after) s
            ≡ record s { config = config; cache = none })
          × Holds (db_key spec) (to_stored spec v) config)
unfolding update_settings
saved-row env spec key raw before after s known plain last good =
    let checked = check_all env (before ++ (key, raw) ∷ after) in
    let fine : checked.1 ≡ [] = sym (save_checked-errors checked s) ∙ good in
    let (v, c, a) =
      accepted-value env key spec raw known plain (all-fine env key raw before after fine) in
    (
      v,
      c,
      (
        put_all checked.0 s.config,
        stored checked s fine,
        checked-written env key spec raw v before after s.config known a last,
      ),
    )

-- If a batch of settings is saved without an error, then each setting of it that is no written
-- secret is read, also in the same session, as the value that `_coerce` makes of what was given for
-- it, whatever else is in the batch. The entry is the last one of its key.
pub update_settings-get_runtime_value :
    (env : SettingsEnv) (spec : SettingSpec) (key : String) (raw : Value) (before after : Entries)
    (s : Session)
    → spec_by_key key ≡ some spec
    → spec.write_only ≡ false
    → cache_get key after ≡ none
    → (update_settings env (before ++ (key, raw) ∷ after) s).1 ≡ []
    → (v : Value) × (coerce env raw spec ≡ ok v)
      × ((get_runtime_value env key (settings_after env (before ++ (key, raw) ∷ after) s)).1
          ≡ some v)
update_settings-get_runtime_value env spec key raw before after s known plain last good =
    let (v, c, (config, same, holds)) =
      saved-row env spec key raw before after s known plain last good in
    let s' = record s { config = config; cache = none } in
    let read = get-value env key s' (new_session-CacheOk env s') in
    (v, c, rw same (read ∙ rw known (ap some (read-written env spec raw v config c holds))))

same_read :
    (env : SettingsEnv) (key : String) (spec : SettingSpec) (s t : Session)
    → spec_by_key key ≡ some spec
    → find (config_has (db_key spec)) s.config ≡ find (config_has (db_key spec)) t.config
    → (get_runtime_value env key (new_session s)).1 ≡ (get_runtime_value env key (new_session t)).1
unfolding runtime_value
same_read env key spec s t known same =
    let read = get-value env key (new_session s) (new_session-CacheOk env s) in
    let read' = get-value env key (new_session t) (new_session-CacheOk env t) in
    let equal : direct env key s.config ≡ direct env key t.config =
      rw known (ap (λ row. some (from_row env spec row)) same) in
    read ∙ (equal ∙ sym read')

kept_row :
    (env : SettingsEnv) (values : Entries) (s : Session) (key : String) (spec : SettingSpec)
    → spec_by_key key ≡ some spec
    → cache_get key values ≡ none
    → (es : Errors) → (check_all env values).1 ≡ es
    → find (config_has (db_key spec)) (settings_after env values s).config
      ≡ find (config_has (db_key spec)) s.config
unfolding update_settings
kept_row env values s key spec known absent [] fine =
    rw (stored (check_all env values) s fine)
      (checked-other env key spec values s.config known absent)
kept_row env values s key spec known absent (e ∷ es) bad =
    rw (refused (check_all env values) s (λ h. absurd (cc (bad, h)))) refl

-- A batch with an error changes nothing, and in a later session a setting that a batch does not
-- name is read as before the batch.
pub update_settings_frame :
    (env : SettingsEnv) (values : Entries) (s : Session)
    → ((update_settings env values s).1 ≢ [] → settings_after env values s ≡ s)
      × ((key : String) (spec : SettingSpec)
          → spec_by_key key ≡ some spec
          → cache_get key values ≡ none
          → (get_runtime_value env key (new_session (settings_after env values s))).1
            ≡ (get_runtime_value env key (new_session s)).1)
unfolding update_settings
update_settings_frame env values s = (
  λ bad.
      refused (check_all env values) s
        (λ h. bad (save_checked-errors (check_all env values) s ∙ h)),
  λ key spec known absent.
      same_read env key spec (settings_after env values s) s known
        (kept_row env values s key spec known absent (check_all env values).1 refl),
)
