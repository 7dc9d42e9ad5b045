-- ===== src/Policy/Examples.antt =====
-- The decision on a command with three policies.
use multi_channel_ai_gateway.Base.{
  ◌≤◌, String, Bool, true, false, Option, none, some, List, [], ◌∷◌, ◌≡◌, ◌⊎◌, find,
}
use multi_channel_ai_gateway.Accounts.Rows.{user_has_id}
use multi_channel_ai_gateway.Binding.Tables.{CommandPolicy}
use multi_channel_ai_gateway.Policy.Decision.{
  Modes, applies, score, get_command_decision, row_decision, default_decision, resolve_user_mode,
}
use multi_channel_ai_gateway.Policy.Specific.{Concerns, get_command_decision_specific}

abbrev modes : Modes
modes = record { single_user_mode = false; platform_mode = "managed"; configured = none }

abbrev policy : Option String → Option String → Bool → CommandPolicy
policy user channel allowed = record {
  user_id = user;
  channel = channel;
  command = "card";
  allowed = allowed;
  silent_block = false;
  blocked_strategy = "ignore";
  created_at = 0;
}

abbrev policies : List CommandPolicy
policies =
    policy none none false ∷ policy (some "u1") none true ∷ policy none (some "wecom_kf") false ∷ []

get_command_decision_specific_example :
    ((best : CommandPolicy) × (get_command_decision modes [] policies "u1" "wecom_kf" "card"
        ≡ row_decision "u1" "wecom_kf" best)
      × Concerns policies "card" best
      × (applies "u1" "wecom_kf" best ≡ true)
      × ((row : CommandPolicy)
          → Concerns policies "card" row
          → applies "u1" "wecom_kf" row ≡ true
          → score "u1" "wecom_kf" row ≤ score "u1" "wecom_kf" best))
    ⊎ (((row : CommandPolicy) → Concerns policies "card" row → applies "u1" "wecom_kf" row ≡ false)
        × (get_command_decision modes [] policies "u1" "wecom_kf" "card"
            ≡ default_decision (resolve_user_mode modes (find (user_has_id "u1") [])) "card"))
get_command_decision_specific_example =
    get_command_decision_specific modes [] policies "u1" "wecom_kf" "card"
