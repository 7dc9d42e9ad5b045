-- ===== src/Policy/Decision.antt =====
-- src/wecom_ai_gateway/policy.py: `resolve_user_mode` and `get_command_decision`.
use multi_channel_ai_gateway.Base.{
  ℕ, ◌+◌, String, Bool, true, false, ◌&&◌, ◌||◌, not, Option, none, some, List, [], ◌∷◌, ◌==◌,
  is_just, ltb, if◌then◌else◌, find, select_where,
}
use multi_channel_ai_gateway.Accounts.Rows.{User, user_has_id}
use multi_channel_ai_gateway.Binding.Tables.{CommandPolicy}

-- What the function reads of the settings, and the `mode` of the platform's configuration row.
pub record Modes : Type 0 where
  pub single_user_mode : Bool
  pub platform_mode : String
  pub configured : Option String

abbrev configured_mode : Modes → String
configured_mode modes = elim modes.configured [
  | none ↦ modes.platform_mode
  | some mode ↦
      if (mode == "self_service") || (mode == "managed") then mode else modes.platform_mode
]

abbrev own_mode : Option User → Option String
own_mode none = none
own_mode (some user) = elim user.mode [
  | none ↦ none
  | some mode ↦ if mode == "" then none else some mode
]

unfoldable pub resolve_user_mode : Modes → Option User → String
resolve_user_mode modes user =
    if modes.single_user_mode
    then "single"
    else elim (own_mode user) [ none ↦ configured_mode modes | some mode ↦ mode ]

pub record CommandDecision : Type 0 where
  pub allowed : Bool
  pub silent_block : Bool
  pub blocked_strategy : String
  pub source : String

abbrev pub fits : Option String → String → Bool
fits none value = true
fits (some x) value = x == value

-- The rows that the loop does not skip.
abbrev pub applies : String → String → CommandPolicy → Bool
applies user_id channel row = fits row.user_id user_id && fits row.channel channel

abbrev pub score : String → String → CommandPolicy → ℕ
score user_id channel row =
    (if is_just row.user_id user_id then 2 else 0) + (if is_just row.channel channel then 1 else 0)

-- `score > best_score`, where the score before the first row is -1.
abbrev pub beats : String → String → CommandPolicy → Option CommandPolicy → Bool
beats user_id channel row none = true
beats user_id channel row (some best) = ltb (score user_id channel best) (score user_id channel row)

unfoldable pub best_row :
    String → String → List CommandPolicy → Option CommandPolicy → Option CommandPolicy
best_row user_id channel [] best = best
best_row user_id channel (row ∷ rows) best =
    best_row user_id channel rows
      (if applies user_id channel row && beats user_id channel row best then some row else best)

abbrev read_only : String → Bool
read_only command = (command == "help") || ((command == "status") || (command == "usage"))

unfoldable pub default_decision : String → String → CommandDecision
default_decision mode command =
    if (mode == "managed") && not (read_only command)
    then record {
      allowed = false;
      silent_block = true;
      blocked_strategy = "redirect_to_ai";
      source = "mode";
    }
    else record {
      allowed = true;
      silent_block = false;
      blocked_strategy = "redirect_to_ai";
      source = "default";
    }

unfoldable pub row_decision : String → String → CommandPolicy → CommandDecision
row_decision user_id channel best = record {
  allowed = best.allowed;
  silent_block = best.silent_block;
  blocked_strategy = best.blocked_strategy;
  source =
      if is_just best.user_id user_id
      then "user"
      else if is_just best.channel channel
      then "channel"
      else "platform";
}

abbrev pub for_command : String → CommandPolicy → Bool
for_command command row = row.command == command

-- `policies` is the table in the order of the query, the newest row first.
unfoldable pub get_command_decision :
    Modes → List User → List CommandPolicy → String → String → String → CommandDecision
get_command_decision modes users policies user_id channel command =
    elim (best_row user_id channel (select_where (for_command command) policies) none) [
      | none ↦ default_decision (resolve_user_mode modes (find (user_has_id user_id) users)) command
      | some best ↦ row_decision user_id channel best
    ]
