-- ===== src/RuntimeSettings/Cache.antt =====
-- The cache of runtime_settings.py against sessions that have none.
use multi_channel_ai_gateway.Base.{
  String, Option, none, some, List, [], ◌∷◌, ◌≡◌, refl, sym, ◌∙◌, ◌==◌, inl, inr, if◌then◌else◌,
  Bool-cases, Option-cases, ==-eq,
}
use multi_channel_ai_gateway.RuntimeSettings.Value.{Value}
use multi_channel_ai_gateway.RuntimeSettings.Specs.{SettingSpec, spec_by_key}
use multi_channel_ai_gateway.RuntimeSettings.Coerce.{SettingsEnv}
use multi_channel_ai_gateway.RuntimeSettings.Store.{
  PlatformConfig, Session, Overridden, cache_get, cached, cache_put, runtime_value,
  get_runtime_value, get_effective_value, set_override, remove_override,
}
use multi_channel_ai_gateway.RuntimeSettings.Update.{
  SettingError, ViewItem, update_settings, settings_view,
}

pub data Operation : Type 0 where
  get : String → Operation
  get_effective : String → Option String → Option String → Operation
  override : String → String → String → Value → Operation
  remove : String → String → String → Operation
  update : List (String × Value) → Operation
  view : Operation

pub data Output : Type 0 where
  value : Option Value → Output
  overridden : Overridden → Output
  done : Output
  errors : List (String × SettingError) → Output
  items : List ViewItem → Output

abbrev pub answer {ℓ} : {A : Type ℓ} → (A → Output) → Session × A → Session × Output
answer f (s, a) = (s, f a)

unfoldable pub run : SettingsEnv → Operation → Session → Session × Output
run env (get key) s = answer value (get_runtime_value env key s)
run env (get_effective key user channel) s =
    answer value (get_effective_value env key user channel s)
run env (override scope_type scope_id key v) s =
    answer overridden (set_override env scope_type scope_id key v s)
run env (remove scope_type scope_id key) s = (remove_override scope_type scope_id key s, done)
run env (update values) s = answer errors (update_settings env values s)
run env view s = answer items (settings_view env s)

-- Several operations in one session, and the same operations each in a session of its own.
unfoldable pub run_all : SettingsEnv → List Operation → Session → Session × List Output
run_all env [] s = (s, [])
run_all env (op ∷ ops) s =
    let (s', out) = run env op s in let (s'', outs) = run_all env ops s' in (s'', out ∷ outs)

abbrev pub new_session : Session → Session
new_session s = record s { cache = none }

unfoldable pub run_apart : SettingsEnv → List Operation → Session → Session × List Output
run_apart env [] s = (s, [])
run_apart env (op ∷ ops) s =
    let (s', out) = run env op (new_session s) in
    let (s'', outs) = run_apart env ops s' in (s'', out ∷ outs)

abbrev direct_of : SettingsEnv → List PlatformConfig → Option SettingSpec → Option Value
direct_of env config none = none
direct_of env config (some spec) = some (runtime_value env spec config)

abbrev pub direct : SettingsEnv → String → List PlatformConfig → Option Value
direct env key config = direct_of env config (spec_by_key key)

-- What is in the cache is what a query would give.
abbrev pub CacheOk : SettingsEnv → Session → Type 0
CacheOk env s =
    (key : String) (v : Value) → cached key s.cache ≡ some v → direct env key s.config ≡ some v

pub new_session-CacheOk : (env : SettingsEnv) (s : Session) → CacheOk env (new_session s)
unfolding cached
new_session-CacheOk env s key v h = absurd (cc h)

cached-put :
    (k key : String) (v : Value) (c : Option (List (String × Value)))
    → cached k (some (cache_put key v c)) ≡ (if key == k then some v else cached k c)
unfolding cached cache_get
cached-put k key v none = refl
cached-put k key v (some entries) = refl

read_through :
    (env : SettingsEnv) (key : String) (s : Session)
    → cached key s.cache ≡ none
    → (get_runtime_value env key s).1 ≡ direct env key s.config
unfolding get_runtime_value
read_through env key s h = elim (Option-cases (spec_by_key key)) [
  | inl e ↦ rw (h, e) refl
  | inr (spec, e) ↦ rw (h, e) refl
]

pub get-value :
    (env : SettingsEnv) (key : String) (s : Session)
    → CacheOk env s
    → (get_runtime_value env key s).1 ≡ direct env key s.config
unfolding get_runtime_value
get-value env key s fine = elim (Option-cases (cached key s.cache)) [
  | inl e ↦ read_through env key s e
  | inr (v, e) ↦ rw e (sym (fine key v e))
]

-- A read changes neither table.
pub get-tables :
    (env : SettingsEnv) (key : String) (s : Session)
    → ((get_runtime_value env key s).0.config ≡ s.config)
      × ((get_runtime_value env key s).0.overrides ≡ s.overrides)
unfolding get_runtime_value
get-tables env key s = elim (Option-cases (cached key s.cache)) [
  | inl e ↦ elim (Option-cases (spec_by_key key)) [
    | inl f ↦ rw (e, f) (refl, refl)
    | inr (spec, f) ↦ rw (e, f) (refl, refl)
  ]
  | inr (v, e) ↦ rw e (refl, refl)
]

put-CacheOk :
    (env : SettingsEnv) (key : String) (spec : SettingSpec) (s : Session)
    → spec_by_key key ≡ some spec
    → CacheOk env s
    → CacheOk env
        (record s { cache = some (cache_put key (runtime_value env spec s.config) s.cache) })
put-CacheOk env key spec s known fine k v h =
    let put = cached-put k key (runtime_value env spec s.config) s.cache in
    elim (Bool-cases (key == k)) [
      | inl t ↦
          let there : some (runtime_value env spec s.config) ≡ some v = sym (rw t at put) ∙ h in
          rw (sym (==-eq key k t)) (rw known there)
      | inr f ↦ fine k v (sym (rw f at put) ∙ h)
    ]

pub get-CacheOk :
    (env : SettingsEnv) (key : String) (s : Session)
    → CacheOk env s
    → CacheOk env (get_runtime_value env key s).0
unfolding get_runtime_value
get-CacheOk env key s fine = elim (Option-cases (cached key s.cache)) [
  | inl e ↦ elim (Option-cases (spec_by_key key)) [
    | inl f ↦ rw (e, f) fine
    | inr (spec, f) ↦ rw (e, f) (put-CacheOk env key spec s f fine)
  ]
  | inr (v, e) ↦ rw e fine
]
