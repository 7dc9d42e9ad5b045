-- ===== src/RuntimeSettings/Saved.antt =====
-- What `update_settings` of runtime_settings.py saves, and what is read afterwards.
use multi_channel_ai_gateway.Base.{
  String, false, none, some, List, [], ◌∷◌, ◌++◌, ◌≡◌, ◌≢◌, refl, ap, ◌∙◌, ◌==◌, ◌⊎◌, inl, inr,
  Bool-cases, Option-cases, arith, find, is_some,
}
use multi_channel_ai_gateway.RuntimeSettings.Value.{Value}
use multi_channel_ai_gateway.RuntimeSettings.Specs.{SettingSpec, spec_by_key}
use multi_channel_ai_gateway.RuntimeSettings.Coerce.{
  SettingsEnv, Coerced, ok, err, coerce, db_key, from_stored, to_stored, parse_tool_allowlist,
}
use multi_channel_ai_gateway.RuntimeSettings.Store.{
  PlatformConfig, Session, config_has, runtime_value, from_row, stored_or_default, cache_get,
}
use multi_channel_ai_gateway.RuntimeSettings.Update.{
  SettingError, Checked, skipped, accepted, rejected, check_spec, check_setting, check_all,
  with_checked, put_all, put_setting, save_checked, update_settings, tools_checked, coerced_checked,
  prepared, put_config,
}
use multi_channel_ai_gateway.RuntimeSettings.Rows.{
  db_key-apart, config-put_self, config-put_other, Holds,
}
use multi_channel_ai_gateway.RuntimeSettings.Stable.{coerce-stable, from_stored-to_stored}

abbrev pub Errors : Type 0
Errors = List (String × SettingError)

with_checked-fine :
    (key : String) (c : Checked) (acc : List (String × Value) × Errors)
    → (with_checked key c acc).1 ≡ []
    → (acc.1 ≡ []) × ((c ≡ skipped) ⊎ ((v : Value) × (c ≡ accepted v)))
with_checked-fine key skipped acc h = (h, inl refl)
with_checked-fine key (accepted v) acc h = (h, inr (v, refl))
with_checked-fine key (rejected e) acc h = absurd (cc h)

-- A write under another key leaves the row of `spec` alone.
setting-other :
    (key j : String) (spec : SettingSpec) (v : Value) (config : List PlatformConfig)
    → spec_by_key key ≡ some spec
    → (j == key) ≡ false
    → find (config_has (db_key spec)) (put_setting (spec_by_key j) v config)
      ≡ find (config_has (db_key spec)) config
unfolding put_setting
setting-other key j spec v config known differ = elim (Option-cases (spec_by_key j)) [
  | inl e ↦ rw e refl
  | inr (b, e) ↦ rw e (
      config-put_other (db_key b) (db_key spec) (to_stored b v) config
        (db_key-apart j key b spec e known differ))
]

pub checked-other :
    (env : SettingsEnv) (key : String) (spec : SettingSpec) (values : List (String × Value))
    (config : List PlatformConfig)
    → spec_by_key key ≡ some spec
    → cache_get key values ≡ none
    → find (config_has (db_key spec)) (put_all (check_all env values).0 config)
      ≡ find (config_has (db_key spec)) config
unfolding check_all put_all cache_get
checked-other env key spec [] config known h = refl
checked-other env key spec ((j, raw) ∷ values) config known h =
    let differ : (j == key) ≡ false = ground (arith, h) in
    let absent : cache_get key values ≡ none = ground (arith, h) in
    by_check (check_setting env j raw) differ
      (λ (c : List PlatformConfig). checked-other env key spec values c known absent)
  where
    by_check :
        (c : Checked)
        → (j == key) ≡ false
        → ((config' : List PlatformConfig)
            → find (config_has (db_key spec)) (put_all (check_all env values).0 config')
              ≡ find (config_has (db_key spec)) config')
        → find
            (config_has (db_key spec))
            (put_all (with_checked j c (check_all env values)).0 config)
          ≡ find (config_has (db_key spec)) config
    by_check skipped differ rest = rest config
    by_check (accepted v) differ rest =
        rest (put_setting (spec_by_key j) v config) ∙ setting-other key j spec v config known differ
    by_check (rejected e) differ rest = rest config

prepared-plain :
    (env : SettingsEnv) (spec : SettingSpec) (v : Value)
    → spec.write_only ≡ false
    → prepared env spec v ≡ v
unfolding prepared
prepared-plain env spec v plain = ground arith

-- What the check of a setting that is no written secret accepts is what `_coerce` gives.
tools-accepted :
    (env : SettingsEnv) (spec : SettingSpec) (v : Value)
    → spec.write_only ≡ false
    → ((e : SettingError) × (tools_checked env spec v ≡ rejected e))
      ⊎ (tools_checked env spec v ≡ accepted v)
unfolding tools_checked
tools-accepted env spec v plain =
    let same = ap accepted (prepared-plain env spec v plain) in
    elim (Bool-cases (spec.key == "tools_allowed")) [
      | inl t ↦ elim (Bool-cases (is_some (parse_tool_allowlist v))) [
        | inl u ↦ inr (rw (t, u) same)
        | inr u ↦ inl (SettingError.unknown_tool, rw (t, u) refl)
      ]
      | inr t ↦ inr (rw t same)
    ]

coerced-accepted :
    (env : SettingsEnv) (spec : SettingSpec) (c : Coerced)
    → spec.write_only ≡ false
    → ((e : SettingError) × (coerced_checked env spec c ≡ rejected e))
      ⊎ ((v : Value) × (c ≡ ok v) × (coerced_checked env spec c ≡ accepted v))
unfolding coerced_checked
coerced-accepted env spec (err e) plain = inl (SettingError.invalid e, refl)
coerced-accepted env spec (ok v) plain = elim (tools-accepted env spec v plain) [
  | inl (e, r) ↦ inl (e, r)
  | inr a ↦ inr (v, refl, a)
]

pub spec-accepted :
    (env : SettingsEnv) (raw : Value) (spec : SettingSpec)
    → spec.write_only ≡ false
    → ((e : SettingError) × (check_spec env raw spec ≡ rejected e))
      ⊎ ((v : Value) × (coerce env raw spec ≡ ok v) × (check_spec env raw spec ≡ accepted v))
unfolding check_spec
spec-accepted env raw spec plain = elim (Bool-cases spec.editable) [
  | inr f ↦ inl (SettingError.read_only, ground (arith, f))
  | inl t ↦ elim (Bool-cases spec.is_secret) [
    | inl u ↦ inl (SettingError.env_only, ground (arith, t, u))
    | inr u ↦
        let same : check_spec env raw spec ≡ coerced_checked env spec (coerce env raw spec) =
          ground (arith, t, u) in
        rw same (coerced-accepted env spec (coerce env raw spec) plain)
  ]
]

abbrev pub Entries : Type 0
Entries = List (String × Value)

pub put_all-known :
    (key : String) (spec : SettingSpec) (v : Value) (rest : Entries) (config : List PlatformConfig)
    → spec_by_key key ≡ some spec
    → put_all ((key, v) ∷ rest) config
      ≡ put_all rest (put_config (db_key spec) (to_stored spec v) config)
unfolding put_all put_setting
put_all-known key spec v rest config known = rw known refl

-- The row of `key` after the loop over entries of which the last one for `key` is accepted.
pub checked-written :
    (env : SettingsEnv) (key : String) (spec : SettingSpec) (raw v : Value) (before after : Entries)
    (config : List PlatformConfig)
    → spec_by_key key ≡ some spec
    → check_setting env key raw ≡ accepted v
    → cache_get key after ≡ none
    → Holds
        (db_key spec)
        (to_stored spec v)
        (put_all (check_all env (before ++ (key, raw) ∷ after)).0 config)
unfolding check_all put_all put_setting
checked-written env key spec raw v [] after config known good last =
    let (row, found, same) = config-put_self (db_key spec) (to_stored spec v) config in
    let later =
      checked-other env key spec after (put_config (db_key spec) (to_stored spec v) config) known
        last in
    let step =
      ap (find (config_has (db_key spec)))
        (put_all-known key spec v (check_all env after).0 config known) in
    (row, rw good (step ∙ (later ∙ found)), same)
checked-written env key spec raw v ((j, w) ∷ before) after config known good last =
    by_check (check_setting env j w) (λ (c : List PlatformConfig).
      checked-written env key spec raw v before after c known good last)
  where
    by_check :
        (c : Checked)
        → ((config' : List PlatformConfig)
            → Holds
                (db_key spec)
                (to_stored spec v)
                (put_all (check_all env (before ++ (key, raw) ∷ after)).0 config'))
        → Holds
            (db_key spec)
            (to_stored spec v)
            (put_all (with_checked j c (check_all env (before ++ (key, raw) ∷ after))).0 config)
    by_check skipped rest = rest config
    by_check (accepted x) rest = rest (put_setting (spec_by_key j) x config)
    by_check (rejected e) rest = rest config

pub all-fine :
    (env : SettingsEnv) (key : String) (raw : Value) (before after : Entries)
    → (check_all env (before ++ (key, raw) ∷ after)).1 ≡ []
    → (check_setting env key raw ≡ skipped)
      ⊎ ((v : Value) × (check_setting env key raw ≡ accepted v))
unfolding check_all
all-fine env key raw [] after h =
    (with_checked-fine key (check_setting env key raw) (check_all env after) h).1
all-fine env key raw ((j, w) ∷ before) after h =
    all-fine env key raw before after
      (with_checked-fine j (check_setting env j w) (check_all env (before ++ (key, raw) ∷ after))
        h).0

pub read-written :
    (env : SettingsEnv) (spec : SettingSpec) (raw v : Value) (config : List PlatformConfig)
    → coerce env raw spec ≡ ok v
    → Holds (db_key spec) (to_stored spec v) config
    → runtime_value env spec config ≡ v
unfolding runtime_value from_row stored_or_default
read-written env spec raw v config good (row, found, same) =
    let back : from_stored spec row.value ≡ v =
      ap (from_stored spec) same ∙ from_stored-to_stored spec v in
    rw (found, back, coerce-stable env spec raw v good) refl

abbrev pub settings_after : SettingsEnv → Entries → Session → Session
settings_after env values s = (update_settings env values s).0

pub refused :
    (checked : Entries × Errors) (s : Session) → checked.1 ≢ [] → (save_checked checked s).0 ≡ s
unfolding save_checked
refused (normalized, []) s h = absurd (h refl)
refused (normalized, e ∷ errors) s h = refl

pub stored :
    (checked : Entries × Errors) (s : Session)
    → checked.1 ≡ []
    → (save_checked checked s).0 ≡ record s { config = put_all checked.0 s.config; cache = none }
unfolding save_checked
stored (normalized, []) s h = refl
stored (normalized, e ∷ errors) s h = cc

pub save_checked-errors :
    (checked : Entries × Errors) (s : Session) → (save_checked checked s).1 ≡ checked.1
unfolding save_checked
save_checked-errors (normalized, []) s = refl
save_checked-errors (normalized, e ∷ errors) s = refl
