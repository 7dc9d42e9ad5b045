-- ===== src/RuntimeSettings/Stable.antt =====
-- Checking a value of runtime_settings.py twice, and reading back what was stored.
use multi_channel_ai_gateway.Base.{Option, none, some, ◌≡◌, refl, ◌==◌, inl, inr, Bool-cases, arith}
use multi_channel_ai_gateway.RuntimeSettings.Value.{ℤ, Value, null, flag, text}
use multi_channel_ai_gateway.RuntimeSettings.Specs.{SettingType, SettingSpec}
use multi_channel_ai_gateway.RuntimeSettings.Coerce.{
  SettingsEnv, ok, coerce, coerce_as, coerce_int, coerce_bool, coerce_select, coerce_text, to_int,
  from_stored, to_stored,
}

int-stable :
    (env : SettingsEnv) (spec : SettingSpec) (o : Option ℤ) (v : Value)
    → coerce_int spec o ≡ ok v
    → coerce_int spec (to_int env v) ≡ ok v
unfolding coerce_int to_int
int-stable env spec none v h = cc
int-stable env spec (some z) v h = ground arith

bool-stable : (raw v : Value) → coerce_bool raw ≡ ok v → coerce_bool v ≡ ok v
unfolding coerce_bool
bool-stable (flag b) v h = ground arith
bool-stable null v h = cc
bool-stable _ v h = cc

select-stable :
    (spec : SettingSpec) (raw v : Value)
    → coerce_select spec raw ≡ ok v
    → coerce_select spec v ≡ ok v
unfolding coerce_select
select-stable spec (text s) v h = ground arith
select-stable spec null v h = cc
select-stable spec _ v h = cc

text-stable :
    (spec : SettingSpec) (raw v : Value) → coerce_text spec raw ≡ ok v → coerce_text spec v ≡ ok v
unfolding coerce_text
text-stable spec (text s) v h = ground arith
text-stable spec null v h = cc
text-stable spec _ v h = cc

coerce_as-stable :
    (env : SettingsEnv) (spec : SettingSpec) (kind : SettingType) (raw v : Value)
    → coerce_as env spec kind raw ≡ ok v
    → coerce_as env spec kind v ≡ ok v
unfolding coerce_as
coerce_as-stable env spec SettingType.int raw v h = int-stable env spec (to_int env raw) v h
coerce_as-stable env spec SettingType.bool raw v h = bool-stable raw v h
coerce_as-stable env spec SettingType.select raw v h = select-stable spec raw v h
coerce_as-stable env spec SettingType.str raw v h = text-stable spec raw v h
coerce_as-stable env spec SettingType.secret raw v h = text-stable spec raw v h

-- A value that a check has given passes the same check unchanged.
pub coerce-stable :
    (env : SettingsEnv) (spec : SettingSpec) (raw v : Value)
    → coerce env raw spec ≡ ok v
    → coerce env v spec ≡ ok v
unfolding coerce
coerce-stable env spec raw v h = coerce_as-stable env spec spec.kind raw v h

pub from_stored-to_stored :
    (spec : SettingSpec) (v : Value) → from_stored spec (to_stored spec v) ≡ v
unfolding from_stored to_stored
from_stored-to_stored spec v = elim (Bool-cases (spec.key == "platform_mode")) [
  | inl t ↦ rw t refl
  | inr f ↦ rw f refl
]
