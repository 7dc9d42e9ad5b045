-- ===== src/RuntimeSettings/Refinement.antt =====
-- A session of runtime_settings.py that keeps its cache does what sessions without one do.
use multi_channel_ai_gateway.Base.{String, Option, none, List, [], ◌∷◌, ◌≡◌, refl, ap}
use mathlib.Core.Path.{subst}
use multi_channel_ai_gateway.RuntimeSettings.Value.{Value}
use multi_channel_ai_gateway.RuntimeSettings.Specs.{specs, spec_by_key, overridable}
use multi_channel_ai_gateway.RuntimeSettings.Coerce.{SettingsEnv}
use multi_channel_ai_gateway.RuntimeSettings.Store.{
  Session, get_runtime_value, get_effective_value, set_override, remove_override, cached,
}
use multi_channel_ai_gateway.RuntimeSettings.Update.{update_settings, settings_view, check_all}
use multi_channel_ai_gateway.RuntimeSettings.OneSession.{
  Together, emptied, get-together, get_effective-together, override-together, update-together,
  realign, view_specs-together,
}
use multi_channel_ai_gateway.RuntimeSettings.Cache.{
  value, overridden, errors, items, Operation, get, get_effective, override, remove, update, view,
  Output, answer, run, run_all, run_apart, new_session, CacheOk, new_session-CacheOk,
}

answered {ℓ} :
    {A : Type ℓ} (env : SettingsEnv) (f : A → Output) (a b : Session × A)
    → Together env a b
    → Together env (answer f a) (answer f b)
answered env f a b h = (ap f h.0, h.1, h.2, h.3, h.4)

run-aligned :
    (env : SettingsEnv) (op : Operation) (s : Session) (k : Option (List (String × Value)))
    → CacheOk env s
    → CacheOk env (record s { cache = k })
    → Together env (run env op s) (run env op (record s { cache = k }))
unfolding run get_effective_value set_override remove_override update_settings settings_view
run-aligned env (get key) s k fine fine' =
    answered env value (get_runtime_value env key s)
      (get_runtime_value env key (record s { cache = k }))
      (get-together env s (record s { cache = k }) refl refl fine fine' key)
run-aligned env (get_effective key user channel) s k fine fine' =
    answered env value (get_effective_value env key user channel s)
      (get_effective_value env key user channel (record s { cache = k }))
      (get_effective-together env s k fine fine' key user channel (spec_by_key key))
run-aligned env (override scope_type scope_id key v) s k fine fine' =
    answered env overridden (set_override env scope_type scope_id key v s)
      (set_override env scope_type scope_id key v (record s { cache = k }))
      (override-together env s k fine fine' scope_type scope_id key v (overridable key))
run-aligned env (remove scope_type scope_id key) s k fine fine' =
    let after = remove_override scope_type scope_id key s in
    (refl, refl, refl, emptied env s.config after.overrides, emptied env s.config after.overrides)
run-aligned env (update values) s k fine fine' =
    answered env errors (update_settings env values s)
      (update_settings env values (record s { cache = k }))
      (update-together env s k fine fine' (check_all env values))
run-aligned env view s k fine fine' =
    answered env items (settings_view env s) (settings_view env (record s { cache = k }))
      (view_specs-together env specs s (record s { cache = k }) refl refl fine fine')

run-together :
    (env : SettingsEnv) (op : Operation) (s t : Session)
    → s.config ≡ t.config
    → s.overrides ≡ t.overrides
    → CacheOk env s
    → CacheOk env t
    → Together env (run env op s) (run env op t)
run-together env op s t p q fine fine' =
    subst (λ u. CacheOk env u → Together env (run env op s) (run env op u)) (realign s t p q)
      (run-aligned env op s t.cache fine) fine'

abbrev pub SameTables {ℓ} : {A : Type ℓ} → Session × A → Session × A → Type ℓ
SameTables a b = (a.1 ≡ b.1) × (a.0.config ≡ b.0.config) × (a.0.overrides ≡ b.0.overrides)

run_all-from :
    (env : SettingsEnv) (ops : List Operation) (s t : Session)
    → s.config ≡ t.config
    → s.overrides ≡ t.overrides
    → CacheOk env s
    → SameTables (run_all env ops s) (run_apart env ops t)
unfolding run_all run_apart
run_all-from env [] s t p q fine = (refl, p, q)
run_all-from env (op ∷ ops) s t p q fine =
    let here = run-together env op s (new_session t) p q fine (new_session-CacheOk env t) in
    let later =
      run_all-from env ops (run env op s).0 (run env op (new_session t)).0 here.1 here.2 here.3 in
    (λ i. here.0 i ∷ later.0 i, later.1, later.2)

-- Any sequence of reads, overrides, updates and views that one session makes, with its cache, gives
-- the same answers and leaves the same tables as the same operations made each in a session of its
-- own, which starts without a cache. The session begins without a cache, and no other session
-- writes in between.
pub run_all-run_apart :
    (env : SettingsEnv) (ops : List Operation) (s : Session)
    → s.cache ≡ none
    → SameTables (run_all env ops s) (run_apart env ops s)
unfolding cached
run_all-run_apart env ops s h = run_all-from env ops s s refl refl (λ key v e. absurd (cc (h, e)))
