-- ===== src/Routing/Examples.antt =====
-- A request over two routes, the first of which is overloaded.
use multi_channel_ai_gateway.Base.{
  none, String, true, false, [], ◌∷◌, ◌≡◌, refl, ◌==◌, if◌then◌else◌,
}
use multi_channel_ai_gateway.Routing.Routes.{
  ActiveRoute, Failure, Reply, done, failed, http_status, timeout, completed, raised,
  is_failover_error, routed_by, complete_with_routing, CompletionResult,
}
use multi_channel_ai_gateway.Routing.Failover.{
  complete_with_routing_first, complete_with_routing_exhausted,
}

abbrev answer : CompletionResult
answer = record { content = "hello"; prompt_tokens = 3; completion_tokens = 5; tool_calls = none }

abbrev route : String → ActiveRoute
route id = record {
  group = record { id = "g"; enabled = true; is_default = true };
  route = record { id = id; group_id = "g"; provider_id = "p"; model = "m"; enabled = true };
  provider = record { id = "p"; name = "P"; provider_key = "openai"; enabled = true };
}

abbrev call : ActiveRoute → Reply
call r = if r.route.id == "r1" then failed (http_status 503) else done answer

complete_with_routing_first_example :
    ((result : CompletionResult)
      → done answer ≡ done result
      → complete_with_routing call (route "r1" ∷ route "r2" ∷ [])
        ≡ completed (routed_by (route "r2") result))
    × ((e : Failure)
        → done answer ≡ failed e
        → is_failover_error e ≡ false
        → complete_with_routing call (route "r1" ∷ route "r2" ∷ []) ≡ raised e)
unfolding is_failover_error
complete_with_routing_first_example =
    complete_with_routing_first call (route "r1" ∷ []) [] (route "r2")
      ((http_status 503, refl, refl), tt)

complete_with_routing_exhausted_example :
    complete_with_routing (λ r. failed timeout) (route "r1" ∷ route "r2" ∷ []) ≡ raised timeout
unfolding is_failover_error
complete_with_routing_exhausted_example =
    complete_with_routing_exhausted (λ r. failed timeout) (route "r1" ∷ []) (route "r2") timeout
      ((timeout, refl, refl), tt) refl refl
