-- ===== src/RuntimeSettings/Specs.antt =====
-- src/wecom_ai_gateway/runtime_settings.py: `SettingSpec`, `SPECS` and `OVERRIDABLE_KEYS`.
-- Of a setting the texts for display (group, label, description, unit) are left out.
use multi_channel_ai_gateway.Base.{
  ℕ, String, Bool, true, false, Option, none, some, List, [], ◌∷◌, ◌++◌, ◌==◌, if◌then◌else◌, find,
}
use multi_channel_ai_gateway.RuntimeSettings.Value.{pos, Value, null, flag, whole, text}

-- The types `int`, `bool`, `str`, `select` and `secret`. No setting has the type `float`.
pub data SettingType : Type 0 where
  int bool str select secret : SettingType

pub record SettingSpec : Type 0 where
  pub key : String
  pub kind : SettingType
  pub default : Value
  pub env_attr : Option String
  pub min : Option ℕ
  pub max : Option ℕ
  pub options : List String
  pub is_secret : Bool
  pub write_only : Bool
  pub editable : Bool

abbrev plain : String → SettingType → Value → Option String → SettingSpec
plain key kind default env_attr = record {
  key = key;
  kind = kind;
  default = default;
  env_attr = env_attr;
  min = none;
  max = none;
  options = [];
  is_secret = false;
  write_only = false;
  editable = true;
}

abbrev int_in : ℕ → ℕ → SettingSpec → SettingSpec
int_in min max spec = record spec { min = some min; max = some max }

abbrev at_most : ℕ → SettingSpec → SettingSpec
at_most max spec = record spec { max = some max }

abbrev display_only : SettingSpec → SettingSpec
display_only spec = record spec { editable = false }

abbrev env_secret : SettingSpec → SettingSpec
env_secret spec = record spec { is_secret = true }

abbrev written_secret : SettingSpec → SettingSpec
written_secret spec = record spec { is_secret = true; write_only = true }

abbrev one_of : List String → SettingSpec → SettingSpec
one_of options spec = record spec { options = options }

abbrev general_specs : List SettingSpec
general_specs =
    (at_most 80 (plain "platform_name" str null (some "app_name")))
    ∷ (display_only (plain "public_base_url" str null (some "public_base_url")))
    ∷ (at_most 2000 (plain "announcement" str (text "") none))
    ∷ (plain "maintenance_mode" bool (flag false) none)
    ∷ (at_most 500 (plain "maintenance_message" str (text "系统维护中，请稍后再试。") none))
    ∷ []

abbrev model_specs : List SettingSpec
model_specs =
    (at_most 80 (plain "default_provider" str null (some "default_provider")))
    ∷ (at_most 160 (plain "default_model" str null (some "default_model")))
    ∷ (at_most 4000 (plain "default_system_prompt" str null (some "default_system_prompt")))
    ∷ (display_only (
        at_most 500
          (plain "openai_compatible_base_url" str null (some "openai_compatible_base_url"))))
    ∷ (env_secret
        (plain "openai_compatible_api_key" secret null (some "openai_compatible_api_key")))
    ∷ (int_in 30 900 (plain "request_timeout_seconds" int null (some "request_timeout_seconds")))
    ∷ (int_in 256 32768 (plain "default_max_tokens" int null (some "default_max_tokens")))
    ∷ (at_most 500
        (plain "unconfigured_model_message" str null (some "unconfigured_model_message")))
    ∷ (at_most 500 (plain "model_error_message" str (text "[error] 后端服务出现错误，请联系管理员。") none))
    ∷ (plain "model_error_show_detail" bool (flag false) none)
    ∷ []

abbrev tool_specs : List SettingSpec
tool_specs =
    (plain "tools_enabled" bool (flag false) none)
    ∷ (at_most 500 (plain "tools_allowed" str (text "get_current_time,get_weather") none))
    ∷ (int_in 1 10 (plain "tool_max_calls" int (whole (pos 3)) none))
    ∷ (int_in 1 60 (plain "tool_timeout_seconds" int (whole (pos 10)) none))
    ∷ []

abbrev account_specs : List SettingSpec
account_specs =
    (plain "allow_public_registration" bool null (some "allow_public_registration"))
    ∷ (one_of ("self_service" ∷ "managed" ∷ [])
        (plain "platform_mode" select null (some "platform_mode")))
    ∷ (display_only (plain "single_user_mode" bool null (some "single_user_mode")))
    ∷ (int_in 1 90 (plain "auth_session_days" int null (some "auth_session_days")))
    ∷ (int_in 6 64 (plain "password_min_length" int (whole (pos 10)) none))
    ∷ (int_in 1 100 (plain "login_max_attempts" int (whole (pos 5)) none))
    ∷ (int_in 1 1440 (plain "login_lock_minutes" int (whole (pos 15)) none))
    ∷ (int_in 10 1000 (plain "login_ip_max_attempts" int (whole (pos 60)) none))
    ∷ (int_in 60 86400 (plain "login_ip_window_seconds" int (whole (pos 900)) none))
    ∷ []

abbrev quota_specs : List SettingSpec
quota_specs =
    (plain "daily_quota_enabled" bool (flag true) none)
    ∷ (int_in 1000 100000000
        (plain "user_daily_token_quota" int null (some "user_daily_token_quota")))
    ∷ (int_in 50 100 (plain "quota_alert_threshold" int (whole (pos 90)) none))
    ∷ []

abbrev content_specs : List SettingSpec
content_specs =
    (int_in 200 4000 (plain "message_chunk_chars" int (whole (pos 1500)) none))
    ∷ (int_in 100 100000 (plain "message_max_chars" int (whole (pos 10000)) none))
    ∷ (int_in 2 200 (plain "max_context_messages" int (whole (pos 100)) none))
    ∷ (int_in 1 100 (plain "max_cards_per_user" int (whole (pos 20)) none))
    ∷ (int_in 500 200000 (plain "card_max_chars" int (whole (pos 20000)) none))
    ∷ (int_in 1 500 (plain "max_memories_per_user" int (whole (pos 100)) none))
    ∷ (int_in 50 10000 (plain "memory_max_chars" int (whole (pos 2000)) none))
    ∷ (int_in 1 100 (plain "max_presets_per_user" int (whole (pos 20)) none))
    ∷ (plain "kb_enabled" bool (flag false) none)
    ∷ (int_in 1 10 (plain "kb_max_chunks" int (whole (pos 3)) none))
    ∷ (int_in 200 2000 (plain "kb_chunk_chars" int (whole (pos 800)) none))
    ∷ (int_in 1 20 (plain "max_providers_per_user" int (whole (pos 5)) none))
    ∷ []

abbrev media_specs : List SettingSpec
media_specs =
    (at_most 2000 (plain "media_allowed_mime_types" str null (some "media_allowed_mime_types")))
    ∷ (int_in 1048576 524288000
        (plain "media_max_size_bytes" int null (some "media_max_size_bytes")))
    ∷ (int_in 1 8760 (plain "media_retention_hours" int null (some "media_retention_hours")))
    ∷ (display_only (
        int_in 5 120
          (plain "wecom_upload_timeout_seconds" int null (some "wecom_upload_timeout_seconds"))))
    ∷ []

abbrev task_specs : List SettingSpec
task_specs =
    (int_in 1 50 (plain "task_max_attempts" int null (some "task_max_attempts")))
    ∷ (int_in 1 600 (plain "task_retry_base_seconds" int null (some "task_retry_base_seconds")))
    ∷ (int_in 5 3600 (plain "task_retry_max_seconds" int null (some "task_retry_max_seconds")))
    ∷ (int_in 30 3600
        (plain "task_lock_timeout_seconds" int null (some "task_lock_timeout_seconds")))
    ∷ (display_only
        (int_in 1 60 (plain "worker_poll_seconds" int null (some "worker_poll_seconds"))))
    ∷ (display_only (int_in 10 600 (plain "sync_lock_seconds" int null (some "sync_lock_seconds"))))
    ∷ []

abbrev channel_specs : List SettingSpec
channel_specs =
    (display_only
      (at_most 500 (plain "clawbot_bridge_base_url" str null (some "clawbot_bridge_base_url"))))
    ∷ (env_secret (plain "clawbot_bridge_token" secret null (some "clawbot_bridge_token")))
    ∷ (display_only (
        int_in 5 120 (
          plain "clawbot_request_timeout_seconds" int null
            (some "clawbot_request_timeout_seconds"))))
    ∷ (plain "allow_user_clawbot_instances" bool (flag true) none)
    ∷ []

abbrev retention_specs : List SettingSpec
retention_specs =
    (int_in 0 3650 (plain "message_retention_days" int (whole (pos 0)) none))
    ∷ (int_in 0 3650 (plain "dead_task_retention_days" int (whole (pos 0)) none))
    ∷ (int_in 0 3650 (plain "audit_retention_days" int (whole (pos 0)) none))
    ∷ []

abbrev alert_specs : List SettingSpec
alert_specs =
    (plain "alert_email_enabled" bool (flag false) none)
    ∷ (at_most 500 (plain "alert_email_recipient" str (text "") none))
    ∷ (at_most 255 (plain "smtp_host" str (text "") none))
    ∷ (int_in 1 65535 (plain "smtp_port" int (whole (pos 465)) none))
    ∷ (at_most 255 (plain "smtp_user" str (text "") none))
    ∷ (written_secret (at_most 255 (plain "smtp_password" str (text "") none)))
    ∷ (at_most 255 (plain "smtp_from" str (text "") none))
    ∷ []

unfoldable pub specs : List SettingSpec
specs =
    general_specs ++ model_specs ++ tool_specs ++ account_specs ++ quota_specs ++ content_specs
    ++ media_specs ++ task_specs ++ channel_specs ++ retention_specs ++ alert_specs

-- `SPEC_BY_KEY.get(key)`
unfoldable pub spec_by_key : String → Option SettingSpec
spec_by_key key = find (λ spec. spec.key == key) specs

-- `OVERRIDABLE_KEYS.get(key)`; a key that is missing has no scope.
unfoldable pub overridable : String → List String
overridable key =
    if key == "user_daily_token_quota"
    then "user" ∷ []
    else if key == "max_context_messages"
    then "user" ∷ "channel" ∷ []
    else if key == "message_max_chars"
    then "channel" ∷ []
    else []
