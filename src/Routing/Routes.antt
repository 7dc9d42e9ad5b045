-- ===== src/Routing/Routes.antt =====
-- src/wecom_ai_gateway/model_routing.py: active routes and their serial use.
-- The tables are in the order of the queries: groups by creation, routes by priority and creation.
use multi_channel_ai_gateway.Base.{
  ℕ, String, Bool, true, false, ◌&&◌, ◌||◌, Option, none, some, List, [], ◌∷◌, ◌==◌, nat_eq, leb,
  if◌then◌else◌, find,
}

pub record ModelGroup : Type 0 where
  pub id : String
  pub enabled : Bool
  pub is_default : Bool

pub record ModelRoute : Type 0 where
  pub id : String
  pub group_id : String
  pub provider_id : String
  pub model : String
  pub enabled : Bool

pub record PlatformProvider : Type 0 where
  pub id : String
  pub name : String
  pub provider_key : String
  pub enabled : Bool

pub record ToolCall : Type 0 where
  pub id : String
  pub name : String
  pub arguments : String

pub record CompletionResult : Type 0 where
  pub content : String
  pub prompt_tokens : ℕ
  pub completion_tokens : ℕ
  pub tool_calls : Option (List ToolCall)

pub record RoutedCompletion : Type 0 where
  pub content : String
  pub provider_name : String
  pub provider_key : String
  pub model : String
  pub prompt_tokens : ℕ
  pub completion_tokens : ℕ
  pub tool_calls : Option (List ToolCall)
  pub group_id : String
  pub route_id : String

-- The exceptions that a call of a provider may raise, as far as the code tells them apart.
pub data Failure : Type 0 where
  http_status : ℕ → Failure
  timeout network retryable other : Failure

unfoldable pub is_failover_error : Failure → Bool
is_failover_error (http_status code) =
    (nat_eq code 408 || (nat_eq code 409 || (nat_eq code 425 || nat_eq code 429))) || leb 500 code
is_failover_error timeout = true
is_failover_error network = true
is_failover_error retryable = true
is_failover_error other = false

pub record ActiveRoute : Type 0 where
  pub group : ModelGroup
  pub route : ModelRoute
  pub provider : PlatformProvider

abbrev pub chosen_group : Option String → ModelGroup → Bool
chosen_group none g = g.enabled && g.is_default
chosen_group (some id) g = g.enabled && (g.id == id)

abbrev pub serves : String → PlatformProvider → Bool
serves id p = p.id == id

-- The join of a route with its provider: ids are unique, so there is one at most.
abbrev joined :
    ModelGroup → ModelRoute → Option PlatformProvider → List ActiveRoute → List ActiveRoute
joined group route none rest = rest
joined group route (some provider) rest =
    if (route.group_id == group.id) && (route.enabled && provider.enabled)
    then record { group = group; route = route; provider = provider } ∷ rest
    else rest

unfoldable pub group_routes :
    ModelGroup → List PlatformProvider → List ModelRoute → List ActiveRoute
group_routes group providers [] = []
group_routes group providers (route ∷ routes) =
    let rest = group_routes group providers routes in
    joined group route (find (serves route.provider_id) providers) rest

unfoldable pub active_routes :
    List ModelGroup → List ModelRoute → List PlatformProvider → Option String → List ActiveRoute
active_routes groups routes providers group_id = elim (find (chosen_group group_id) groups) [
  | none ↦ []
  | some group ↦ group_routes group providers routes
]

pub data Reply : Type 0 where
  done : CompletionResult → Reply
  failed : Failure → Reply

pub data Routed : Type 0 where
  completed : RoutedCompletion → Routed
  raised : Failure → Routed
  no_routes : Routed

unfoldable pub routed_by : ActiveRoute → CompletionResult → RoutedCompletion
routed_by r result = record {
  content = result.content;
  provider_name = r.provider.name;
  provider_key = r.provider.provider_key;
  model = r.route.model;
  prompt_tokens = result.prompt_tokens;
  completion_tokens = result.completion_tokens;
  tool_calls = result.tool_calls;
  group_id = r.group.id;
  route_id = r.route.id;
}

-- The body of the `try` is `call`: decrypting the key and asking the provider. `last` is the error
-- before.
module _ (call : ActiveRoute → Reply) where
  unfoldable pub try_routes : List ActiveRoute → Failure → Routed
  try_routes [] last = raised last
  try_routes (r ∷ rs) last = elim (call r) [
    | done result ↦ completed (routed_by r result)
    | failed e ↦ let later = try_routes rs e in if is_failover_error e then later else raised e
  ]

  -- Without routes nothing is asked; the error before the first is never seen.
  unfoldable pub complete_with_routing : List ActiveRoute → Routed
  complete_with_routing [] = no_routes
  complete_with_routing (r ∷ rs) = try_routes (r ∷ rs) other
