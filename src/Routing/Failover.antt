-- ===== src/Routing/Failover.antt =====
-- Which route serves a request of model_routing.py, and which error comes out.
use multi_channel_ai_gateway.Base.{true, false, List, [], ◌∷◌, ◌++◌, ◌≡◌, refl, All}
use multi_channel_ai_gateway.Routing.Routes.{
  ActiveRoute, Failure, Reply, done, failed, completed, raised, is_failover_error, routed_by,
  try_routes, complete_with_routing, other, CompletionResult,
}

module _ (call : ActiveRoute → Reply) where
  -- The route fails in a way that lets the next one try.
  abbrev pub FailsOver : ActiveRoute → Type 0
  FailsOver r = (e : Failure) × (call r ≡ failed e) × (is_failover_error e ≡ true)

  try_routes-first :
      (before after : List ActiveRoute) (r : ActiveRoute) (result : CompletionResult)
      (last : Failure)
      → All FailsOver before
      → call r ≡ done result
      → try_routes call (before ++ r ∷ after) last ≡ completed (routed_by r result)
  unfolding try_routes
  try_routes-first [] after r result last fails h = rw h refl
  try_routes-first (q ∷ qs) after r result last ((e, f, over), fails) h =
      rw (f, over) (try_routes-first qs after r result e fails h)

  try_routes-fatal :
      (before after : List ActiveRoute) (r : ActiveRoute) (e last : Failure)
      → All FailsOver before
      → call r ≡ failed e
      → is_failover_error e ≡ false
      → try_routes call (before ++ r ∷ after) last ≡ raised e
  unfolding try_routes
  try_routes-fatal [] after r e last fails h fatal = rw (h, fatal) refl
  try_routes-fatal (q ∷ qs) after r e last ((e', f, over), fails) h fatal =
      rw (f, over) (try_routes-fatal qs after r e e' fails h fatal)

  -- The first route that does not fail over settles the request, wherever it stands: its answer is
  -- returned, or its error comes out as it is, and the routes after it do not matter.
  pub complete_with_routing_first :
      (before after : List ActiveRoute) (r : ActiveRoute)
      → All FailsOver before
      → ((result : CompletionResult)
          → call r ≡ done result
          → complete_with_routing call (before ++ r ∷ after) ≡ completed (routed_by r result))
        × ((e : Failure)
            → call r ≡ failed e
            → is_failover_error e ≡ false
            → complete_with_routing call (before ++ r ∷ after) ≡ raised e)
  unfolding complete_with_routing
  complete_with_routing_first [] after r fails = (
    λ result h. try_routes-first [] after r result other fails h,
    λ e h fatal. try_routes-fatal [] after r e other fails h fatal,
  )
  complete_with_routing_first (q ∷ qs) after r fails = (
    λ result h. try_routes-first (q ∷ qs) after r result other fails h,
    λ e h fatal. try_routes-fatal (q ∷ qs) after r e other fails h fatal,
  )

  try_routes-exhausted :
      (before : List ActiveRoute) (r : ActiveRoute) (e last : Failure)
      → All FailsOver before
      → call r ≡ failed e
      → is_failover_error e ≡ true
      → try_routes call (before ++ r ∷ []) last ≡ raised e
  unfolding try_routes
  try_routes-exhausted [] r e last fails h over = rw (h, over) refl
  try_routes-exhausted (q ∷ qs) r e last ((e', f, over'), fails) h over =
      rw (f, over') (try_routes-exhausted qs r e e' fails h over)

  -- If every route fails over, the error of the last route comes out.
  pub complete_with_routing_exhausted :
      (before : List ActiveRoute) (r : ActiveRoute) (e : Failure)
      → All FailsOver before
      → call r ≡ failed e
      → is_failover_error e ≡ true
      → complete_with_routing call (before ++ r ∷ []) ≡ raised e
  unfolding complete_with_routing
  complete_with_routing_exhausted [] r e fails h over =
      try_routes-exhausted [] r e other fails h over
  complete_with_routing_exhausted (q ∷ qs) r e fails h over =
      try_routes-exhausted (q ∷ qs) r e other fails h over
