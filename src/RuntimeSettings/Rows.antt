-- ===== src/RuntimeSettings/Rows.antt =====
-- The rows of platform_config that runtime_settings.py writes, and the keys that they stand under.
use multi_channel_ai_gateway.Base.{
  String, true, false, Option, none, some, List, [], ◌∷◌, ◌≡◌, refl, sym, ap, ◌∙◌, ◌==◌, ==-eq,
  ==-refl, inl, inr, if◌then◌else◌, Bool-cases, Option-cases, arith, eq_iff, find, find_sound,
  find-update, find-append_none, find-append_some,
}
use multi_channel_ai_gateway.RuntimeSettings.Value.{Value}
use multi_channel_ai_gateway.RuntimeSettings.Specs.{SettingSpec, specs, spec_by_key}
use multi_channel_ai_gateway.RuntimeSettings.Coerce.{db_key}
use multi_channel_ai_gateway.RuntimeSettings.Store.{PlatformConfig, config_has}
use multi_channel_ai_gateway.RuntimeSettings.Update.{put_config, put_found}

apart : (s t : String) → (s ≡ t → ⊥) → (s == t) ≡ false
apart s t differ = elim (Bool-cases (s == t)) [ inl y ↦ absurd (differ (==-eq s t y)) | inr f ↦ f ]

pub spec_by_key-key :
    (key : String) (spec : SettingSpec) → spec_by_key key ≡ some spec → spec.key ≡ key
unfolding spec_by_key
spec_by_key-key key spec h = ==-eq spec.key key (find_sound (λ s. s.key == key) specs h)

mode_unknown : spec_by_key "mode" ≡ none
unfolding spec_by_key find specs
mode_unknown = refl

not_mode : (key : String) (spec : SettingSpec) → spec_by_key key ≡ some spec → "mode" ≡ spec.key → ⊥
not_mode key spec h e =
    let same : "mode" ≡ key = e ∙ spec_by_key-key key spec h in
    cc (mode_unknown, ap spec_by_key same, h)

abbrev row_key : String → String
row_key key = if key == "platform_mode" then "mode" else key

row_key-apart :
    (j k : String)
    → ("mode" ≡ j → ⊥)
    → ("mode" ≡ k → ⊥)
    → (j == k) ≡ false
    → (row_key j == row_key k) ≡ false
row_key-apart j k hj hk differ =
    let mj = apart "mode" j hj in
    let mk = apart "mode" k hk in
    ground (
      arith,
      mj,
      mk,
      eq_iff "mode" j,
      eq_iff j "mode",
      eq_iff "mode" k,
      eq_iff j k,
      eq_iff j "platform_mode",
      eq_iff k "platform_mode",
    )

-- Two settings never share a row.
pub db_key-apart :
    (key key' : String) (a b : SettingSpec)
    → spec_by_key key ≡ some a
    → spec_by_key key' ≡ some b
    → (key == key') ≡ false
    → (db_key a == db_key b) ≡ false
unfolding db_key
db_key-apart key key' a b h h' differ =
    let ka = spec_by_key-key key a h in
    let kb = spec_by_key-key key' b h' in
    row_key-apart a.key b.key (not_mode key a h) (not_mode key' b h')
      (rw (sym ka, sym kb) at differ)

abbrev pub Holds : String → Value → List PlatformConfig → Type 0
Holds key v config =
    (row : PlatformConfig) × (find (config_has key) config ≡ some row) × (row.value ≡ v)

found-put_self :
    (key : String) (v : Value) (config : List PlatformConfig) (found : Option PlatformConfig)
    → find (config_has key) config ≡ found
    → Holds key v (put_found key v config found)
unfolding put_found find
found-put_self key v config none e =
    let row : PlatformConfig = record { key = key; value = v } in
    (row, find-append_none (config_has key) config (row ∷ []) e ∙ rw (==-refl key) refl, refl)
found-put_self key v config (some row) e = (
  record row { value = v },
  find-update (config_has key) (config_has key) (λ r. record r { value = v }) config (λ r h. refl)
      ∙ rw (e, find_sound (config_has key) config e) refl,
  refl,
)

pub config-put_self :
    (key : String) (v : Value) (config : List PlatformConfig)
    → Holds key v (put_config key v config)
unfolding put_config
config-put_self key v config = found-put_self key v config (find (config_has key) config) refl

found-put_other :
    (key j : String) (v : Value) (config : List PlatformConfig) (found : Option PlatformConfig)
    → (key == j) ≡ false
    → find (config_has j) (put_found key v config found) ≡ find (config_has j) config
unfolding put_found find
found-put_other key j v config none e = elim (Option-cases (find (config_has j) config)) [
  | inl n ↦
      rw n (
        find-append_none (config_has j) config (record { key = key; value = v } ∷ []) n ∙ rw e refl)
  | inr (r, n) ↦
      rw n (find-append_some (config_has j) config (record { key = key; value = v } ∷ []) n)
]
found-put_other key j v config (some row) e =
    find-update (config_has key) (config_has j) (λ r. record r { value = v }) config (λ r h. refl)
    ∙ elim (Option-cases (find (config_has j) config)) [
      | inl n ↦ rw n refl
      | inr (r, n) ↦
          let there : (r.key == j) ≡ true = find_sound (config_has j) config n in
          let miss : (r.key == key) ≡ false =
            ground (arith, eq_iff r.key j, eq_iff r.key key, eq_iff key j) in
          rw (n, miss) refl
    ]

pub config-put_other :
    (key j : String) (v : Value) (config : List PlatformConfig)
    → (key == j) ≡ false
    → find (config_has j) (put_config key v config) ≡ find (config_has j) config
unfolding put_config
config-put_other key j v config = found-put_other key j v config (find (config_has key) config)
