-- ===== src/Binding/Tables.antt =====
-- src/wecom_ai_gateway/models.py: the rows that belong to a user, as binding.py reads them.
use multi_channel_ai_gateway.Base.{
  String, Bool, true, false, ◌&&◌, Option, none, some, List, ◌==◌, is_just,
}
use multi_channel_ai_gateway.Models.{Time}
use multi_channel_ai_gateway.Accounts.Rows.{AuthDb}
use multi_channel_ai_gateway.RuntimeSettings.Value.{Value}

-- A row of a table that binding.py hands over as it is: messages, conversations, memories,
-- providers, usage records, and channel instances, whose owner may be missing.
pub record Owned : Type 0 where
  pub id : String
  pub user_id : Option String

-- A row with a user and a name: a card, a preset, or a knowledge item with its title.
pub record Named : Type 0 where
  pub id : String
  pub user_id : String
  pub name : String

pub record ChannelIdentity : Type 0 where
  pub user_id : String
  pub channel : String
  pub account_id : String

pub record KnowledgeChunk : Type 0 where
  pub item_id : String
  pub user_id : String

pub record CommandPolicy : Type 0 where
  pub user_id : Option String
  pub channel : Option String
  pub command : String
  pub allowed : Bool
  pub silent_block : Bool
  pub blocked_strategy : String
  pub created_at : Time

pub record SettingOverride : Type 0 where
  pub scope_type : String
  pub scope_id : String
  pub key : String
  pub value : Value

pub record BindCode : Type 0 where
  pub code : String
  pub user_id : String
  pub expires_at : Time

pub record BindDb : Type 0 where
  pub auth : AuthDb
  pub codes : List BindCode
  pub identities : List ChannelIdentity
  pub messages : List Owned
  pub conversations : List Owned
  pub memories : List Owned
  pub providers : List Owned
  pub instances : List Owned
  pub usage : List Owned
  pub cards : List Named
  pub presets : List Named
  pub policies : List CommandPolicy
  pub overrides : List SettingOverride
  pub items : List Named
  pub chunks : List KnowledgeChunk

abbrev pub owned_by : String → Owned → Bool
owned_by user r = is_just r.user_id user

abbrev pub named_by : String → Named → Bool
named_by user r = r.user_id == user

abbrev pub identity_of : String → ChannelIdentity → Bool
identity_of user r = r.user_id == user

abbrev pub policy_of : String → CommandPolicy → Bool
policy_of user r = is_just r.user_id user

abbrev pub override_of : String → SettingOverride → Bool
override_of user r = (r.scope_type == "user") && (r.scope_id == user)

-- Equality of texts or None in Python.
abbrev pub same_option : Option String → Option String → Bool
same_option none none = true
same_option (some a) (some b) = a == b
same_option _ _ = false

abbrev pub same_name : Named → Named → Bool
same_name a b = a.name == b.name

abbrev pub same_policy : CommandPolicy → CommandPolicy → Bool
same_policy a b = same_option a.channel b.channel && (a.command == b.command)

abbrev pub same_override : SettingOverride → SettingOverride → Bool
same_override a b = a.key == b.key
