-- ===== src/RuntimeSettings/Fallback.antt =====
-- What runtime_settings.py reads when the row of a setting is missing or not valid.
use multi_channel_ai_gateway.Base.{
  String, Bool, true, false, ◌||◌, ◌&&◌, Option, none, some, List, [], ◌∷◌, ◌≡◌, refl, ap, ◌∙◌,
  ◌==◌, inl, inr, Bool-cases, arith, find, is_some,
}
use multi_channel_ai_gateway.Base.Text.{text_length}
use multi_channel_ai_gateway.RuntimeSettings.Value.{Value, null}
use multi_channel_ai_gateway.RuntimeSettings.Specs.{SettingSpec, specs, spec_by_key}
use multi_channel_ai_gateway.RuntimeSettings.Coerce.{
  SettingsEnv, CoerceError, Coerced, ok, err, coerce, coerce_as, coerce_int, coerce_bool,
  coerce_text, to_int, db_key, from_stored,
}
use multi_channel_ai_gateway.RuntimeSettings.Store.{
  PlatformConfig, Session, config_has, get_runtime_value, runtime_value, from_row, from_env,
  stored_or_default,
}
use multi_channel_ai_gateway.RuntimeSettings.Stable.{coerce-stable}
use multi_channel_ai_gateway.RuntimeSettings.Cache.{get-value, new_session, new_session-CacheOk}

abbrev passes : Coerced → Bool
passes (ok v) = true
passes (err e) = false

-- The value passes the check of the setting, so it has the setting's type and lies in its bounds.
abbrev pub valid : SettingsEnv → SettingSpec → Value → Bool
valid env spec v = passes (coerce env v spec)

every {ℓ} : {A : Type ℓ} → (A → Bool) → List A → Bool
every p [] = true
every p (x ∷ xs) = p x && every p xs

every-find {ℓ} :
    {A : Type ℓ} (p q : A → Bool) (xs : List A) {a : A}
    → every p xs ≡ true
    → find q xs ≡ some a
    → p a ≡ true
unfolding every find
every-find p q [] {a} h e = cc
every-find p q (x ∷ xs) {a} h e = elim (Bool-cases (q x)) [
  | inl t ↦ let same : x ≡ a = ground (arith, t) in rw (← same) (ground arith)
  | inr f ↦ every-find p q xs {a = a} (ground arith) (ground (arith, f))
]

-- The setting is backed by an attribute of the settings object, or its default is valid.
abbrev default_fits : SettingsEnv → SettingSpec → Bool
default_fits env spec = is_some spec.env_attr || valid env spec spec.default

specs-default_fits : (env : SettingsEnv) → every (default_fits env) specs ≡ true
unfolding every specs coerce coerce_as coerce_int coerce_bool coerce_text to_int text_length
specs-default_fits env = refl

known-default_fits :
    (env : SettingsEnv) (key : String) (spec : SettingSpec)
    → spec_by_key key ≡ some spec
    → default_fits env spec ≡ true
unfolding spec_by_key
known-default_fits env key spec known =
    every-find (default_fits env) (λ s. s.key == key) specs (specs-default_fits env) known

valid_of_ok :
    (env : SettingsEnv) (spec : SettingSpec) (raw v : Value)
    → coerce env raw spec ≡ ok v
    → valid env spec v ≡ true
valid_of_ok env spec raw v h = ap passes (coerce-stable env spec raw v h)

coerced-valid :
    (env : SettingsEnv) (spec : SettingSpec) (raw : Value) (c : Coerced)
    → coerce env raw spec ≡ c
    → valid env spec spec.default ≡ true
    → valid env spec (stored_or_default spec c) ≡ true
unfolding stored_or_default
coerced-valid env spec raw (ok v) e h = valid_of_ok env spec raw v e
coerced-valid env spec raw (err x) e h = h

row-valid :
    (env : SettingsEnv) (spec : SettingSpec) (row : Option PlatformConfig)
    → valid env spec (from_env env spec) ≡ true
    → valid env spec spec.default ≡ true
    → valid env spec (from_row env spec row) ≡ true
unfolding from_row
row-valid env spec none h d = h
row-valid env spec (some row) h d =
    coerced-valid env spec (from_stored spec row.value)
      (coerce env (from_stored spec row.value) spec) refl d

from_env-default :
    (env : SettingsEnv) (spec : SettingSpec)
    → spec.env_attr ≡ none
    → from_env env spec ≡ spec.default
unfolding from_env
from_env-default env spec h = ground arith

-- Whatever a session without a cache finds in platform_config, a setting that no attribute of the
-- settings object backs is read as a value that passes the setting's own check.
pub get_runtime_value-valid :
    (env : SettingsEnv) (key : String) (spec : SettingSpec) (s : Session)
    → spec_by_key key ≡ some spec
    → spec.env_attr ≡ none
    → (v : Value) × ((get_runtime_value env key (new_session s)).1 ≡ some v)
      × (valid env spec v ≡ true)
unfolding runtime_value
get_runtime_value-valid env key spec s known unbacked =
    let fits = known-default_fits env key spec known in
    let d : valid env spec spec.default ≡ true = ground arith in
    (
      runtime_value env spec s.config,
      get-value env key (new_session s) (new_session-CacheOk env s) ∙ rw known refl,
      row-valid env spec (find (config_has (db_key spec)) s.config)
          (rw (from_env-default env spec unbacked) d) d,
    )

pub invalid-default :
    (env : SettingsEnv) (spec : SettingSpec) (row : PlatformConfig) (e : CoerceError)
    → coerce env (from_stored spec row.value) spec ≡ err e
    → from_row env spec (some row) ≡ spec.default
unfolding from_row stored_or_default
invalid-default env spec row e h = rw h refl

-- If platform_config holds a value that is not valid for a setting which an attribute of the
-- settings object backs, and which has no default, then a session without a cache reads null
-- instead of the attribute's value.
pub get_runtime_value-null :
    (env : SettingsEnv) (key : String) (spec : SettingSpec) (row : PlatformConfig) (e : CoerceError)
    (s : Session)
    → spec_by_key key ≡ some spec
    → spec.default ≡ null
    → find (config_has (db_key spec)) s.config ≡ some row
    → coerce env (from_stored spec row.value) spec ≡ err e
    → (get_runtime_value env key (new_session s)).1 ≡ some null
unfolding runtime_value
get_runtime_value-null env key spec row e s known bare found bad =
    let read = get-value env key (new_session s) (new_session-CacheOk env s) in
    let value : from_row env spec (find (config_has (db_key spec)) s.config) ≡ null =
      ap (from_row env spec) found ∙ (invalid-default env spec row e bad ∙ bare) in
    read ∙ rw known (ap some value)
