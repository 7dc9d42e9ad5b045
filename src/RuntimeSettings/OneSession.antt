-- ===== src/RuntimeSettings/OneSession.antt =====
-- Two sessions of runtime_settings.py that differ in their caches only.
use multi_channel_ai_gateway.Base.{
  String, Bool, true, false, Option, none, some, List, [], ◌∷◌, ◌≡◌, refl, sym, ap, ◌∙◌, inl, inr,
  Bool-cases, find,
}
use mathlib.Core.Path.{subst}
use multi_channel_ai_gateway.Binding.Tables.{SettingOverride}
use multi_channel_ai_gateway.RuntimeSettings.Value.{Value}
use multi_channel_ai_gateway.RuntimeSettings.Specs.{SettingSpec, spec_by_key}
use multi_channel_ai_gateway.RuntimeSettings.Coerce.{
  SettingsEnv, Coerced, ok, err, coerce, db_key, from_stored, listed,
}
use multi_channel_ai_gateway.RuntimeSettings.Store.{
  PlatformConfig, Session, config_has, get_runtime_value, override_value, effective, effective_of,
  override_coerced, override_spec, override_allowed,
}
use multi_channel_ai_gateway.RuntimeSettings.Update.{
  SettingError, shown, view_specs, view_value, save_checked, shown_value, shown_coerced,
  stored_value, view_as, view_item,
}
use multi_channel_ai_gateway.RuntimeSettings.Cache.{
  direct, CacheOk, new_session-CacheOk, get-value, get-tables, get-CacheOk,
}

-- The same answer and the same tables, with caches that hold what the tables say.
abbrev pub Together {ℓ} : {A : Type ℓ} → SettingsEnv → Session × A → Session × A → Type ℓ
Together env a b =
    (a.1 ≡ b.1)
    × (a.0.config ≡ b.0.config)
    × (a.0.overrides ≡ b.0.overrides)
    × CacheOk env a.0
    × CacheOk env b.0

pub emptied :
    (env : SettingsEnv) (config : List PlatformConfig) (overrides : List SettingOverride)
    → CacheOk env (record { config = config; overrides = overrides; cache = none })
emptied env config overrides =
    new_session-CacheOk env (record { config = config; overrides = overrides; cache = none })

pub get-together :
    (env : SettingsEnv) (s t : Session)
    → s.config ≡ t.config
    → s.overrides ≡ t.overrides
    → CacheOk env s
    → CacheOk env t
    → (key : String) → Together env (get_runtime_value env key s) (get_runtime_value env key t)
get-together env s t same_config same_overrides fine fine' key =
    let (config, overrides) = get-tables env key s in
    let (config', overrides') = get-tables env key t in
    (
      get-value env key s fine
          ∙ (ap (direct env key) same_config ∙ sym (get-value env key t fine')),
      config ∙ (same_config ∙ sym config'),
      overrides ∙ (same_overrides ∙ sym overrides'),
      get-CacheOk env key s fine,
      get-CacheOk env key t fine',
    )

-- Two sessions that differ in their caches.
module _ (env : SettingsEnv) (s : Session) (k : Option (List (String × Value)))
    (fine : CacheOk env s) (fine' : CacheOk env (record s { cache = k })) where
  effective-together :
      (key : String) (user channel : Option Value)
      → Together env
          (effective env key user channel s)
          (effective env key user channel (record s { cache = k }))
  unfolding effective
  effective-together key (some v) channel = (refl, refl, refl, fine, fine')
  effective-together key none (some v) = (refl, refl, refl, fine, fine')
  effective-together key none none =
      get-together env s (record s { cache = k }) refl refl fine fine' key

  pub get_effective-together :
      (key : String) (user channel : Option String) (spec : Option SettingSpec)
      → Together env
          (effective_of env key user channel s spec)
          (effective_of env key user channel (record s { cache = k }) spec)
  unfolding effective_of
  get_effective-together key user channel none = (refl, refl, refl, fine, fine')
  get_effective-together key user channel (some spec) =
      effective-together key (override_value env spec "user" user s.overrides)
        (override_value env spec "channel" channel s.overrides)

  coerced-together :
      (scope_type scope_id key : String) (c : Coerced)
      → Together env
          (override_coerced scope_type scope_id key c s)
          (override_coerced scope_type scope_id key c (record s { cache = k }))
  unfolding override_coerced
  coerced-together scope_type scope_id key (err e) = (refl, refl, refl, fine, fine')
  coerced-together scope_type scope_id key (ok v) = (
    refl,
    refl,
    refl,
    emptied env s.config (override_coerced scope_type scope_id key (ok v) s).0.overrides,
    emptied env s.config (override_coerced scope_type scope_id key (ok v) s).0.overrides,
  )

  spec-together :
      (scope_type scope_id key : String) (v : Value) (spec : Option SettingSpec)
      → Together env
          (override_spec env scope_type scope_id key v spec s)
          (override_spec env scope_type scope_id key v spec (record s { cache = k }))
  unfolding override_spec
  spec-together scope_type scope_id key v none = (refl, refl, refl, fine, fine')
  spec-together scope_type scope_id key v (some spec) =
      coerced-together scope_type scope_id key (coerce env v spec)

  pub override-together :
      (scope_type scope_id key : String) (v : Value) (allowed : List String)
      → Together env
          (override_allowed env scope_type scope_id key v allowed s)
          (override_allowed env scope_type scope_id key v allowed (record s { cache = k }))
  unfolding override_allowed
  override-together scope_type scope_id key v [] = (refl, refl, refl, fine, fine')
  override-together scope_type scope_id key v (a ∷ as') =
      elim (Bool-cases (listed scope_type (a ∷ as'))) [
        | inl t ↦ rw t (spec-together scope_type scope_id key v (spec_by_key key))
        | inr f ↦ rw f (refl, refl, refl, fine, fine')
      ]

  pub update-together :
      (checked : List (String × Value) × List (String × SettingError))
      → Together env (save_checked checked s) (save_checked checked (record s { cache = k }))
  unfolding save_checked
  update-together (normalized, e ∷ es) = (refl, refl, refl, fine, fine')
  update-together (normalized, []) =
      let after = (save_checked (normalized, []) s).0 in
      (refl, refl, refl, emptied env after.config s.overrides, emptied env after.config s.overrides)

  shown_coerced-together :
      (spec : SettingSpec) (c : Coerced)
      → Together env
          (shown_coerced env spec c s)
          (shown_coerced env spec c (record s { cache = k }))
  unfolding shown_coerced
  shown_coerced-together spec (ok v) = (refl, refl, refl, fine, fine')
  shown_coerced-together spec (err e) =
      let read = get-together env s (record s { cache = k }) refl refl fine fine' spec.key in
      (ap shown read.0, read.1, read.2, read.3, read.4)

  shown-together :
      (spec : SettingSpec) (stored : Option Value)
      → Together env
          (shown_value env spec stored s)
          (shown_value env spec stored (record s { cache = k }))
  unfolding shown_value
  shown-together spec none =
      let read = get-together env s (record s { cache = k }) refl refl fine fine' spec.key in
      (ap shown read.0, read.1, read.2, read.3, read.4)
  shown-together spec (some stored) =
      shown_coerced-together spec (coerce env (from_stored spec stored) spec)

  view-together :
      (spec : SettingSpec) (hidden : Bool)
      → Together env (view_as env spec hidden s) (view_as env spec hidden (record s { cache = k }))
  unfolding view_as
  view-together spec true = (refl, refl, refl, fine, fine')
  view-together spec false =
      shown-together spec (stored_value (find (config_has (db_key spec)) s.config))

pub realign :
    (s t : Session)
    → s.config ≡ t.config
    → s.overrides ≡ t.overrides
    → record s { cache = t.cache } ≡ t
realign s t p q = λ i. record { config = p i; overrides = q i; cache = t.cache }

pub view_specs-together :
    (env : SettingsEnv) (rest : List SettingSpec) (s t : Session)
    → s.config ≡ t.config
    → s.overrides ≡ t.overrides
    → CacheOk env s
    → CacheOk env t
    → Together env (view_specs env rest s) (view_specs env rest t)
unfolding view_specs view_value
view_specs-together env [] s t p q fine fine' = (refl, p, q, fine, fine')
view_specs-together env (spec ∷ rest) s t p q fine fine' =
    let here : Together env (view_value env spec s) (view_value env spec t) =
      subst (λ u. CacheOk env u → Together env (view_value env spec s) (view_value env spec u))
        (realign s t p q) (λ k. view-together env s t.cache fine k spec spec.is_secret) fine' in
    let later =
      view_specs-together env rest (view_value env spec s).0 (view_value env spec t).0 here.1 here.2
        here.3 here.4 in
    (λ i. view_item spec (here.0 i) ∷ later.0 i, later.1, later.2, later.3, later.4)
