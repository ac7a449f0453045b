-- ===== src/Tests/Transport.antt =====
-- Answers, routes and requests at concrete inputs.
use esim_opensource_mcp.Prelude.{
  ℕ, zero, suc, true, false, codes, eq_codes, lower, ◌≡◌, ◌≢◌, ◌⊎◌, refl,
}
use esim_opensource_mcp.Errors.{ok}
use esim_opensource_mcp.Backend.{Answer, timed_out, unreachable, answered, not_json}
use esim_opensource_mcp.Backend.Retry.{request, LastOf, request-LastOf}
use esim_opensource_mcp.Backend.Routes.{
  enforce_route_is_permitted, enforce_route-mutation, enforce_route-refused, is_route,
  normal_method, normal_path, has_marker, mutation_routes, qa_topup_routes,
}
use esim_opensource_mcp.Purchase.Failure.{BackendPurchaseResult}

post_not_get : eq_codes (normal_method " post") (codes "GET") ≡ false
unfolding normal_method eq_codes
post_not_get = refl

assign_passes : enforce_route_is_permitted " post" "mcp/user/bundle/assign" false ≡ ok tt
unfolding enforce_route_is_permitted lower
assign_passes = refl

enforce_route-mutation_example :
    (is_route (normal_method " post") (normal_path "mcp/user/bundle/assign") mutation_routes ≡ true)
    ⊎ ((false ≡ true)
        × (is_route (normal_method " post") (normal_path "mcp/user/bundle/assign") qa_topup_routes
            ≡ true))
    ⊎ (has_marker (normal_path "mcp/user/bundle/assign") ≡ false)
enforce_route-mutation_example =
    enforce_route-mutation " post" "mcp/user/bundle/assign" false post_not_get assign_passes

legacy_marked : has_marker (normal_path "/user/bundle/assign") ≡ true
unfolding has_marker normal_path lower
legacy_marked = refl

legacy_unlisted :
    is_route (normal_method " post") (normal_path "/user/bundle/assign") mutation_routes ≡ false
unfolding is_route normal_path normal_method lower
legacy_unlisted = refl

enforce_route-refused_example :
    enforce_route_is_permitted " post" "/user/bundle/assign" false ≢ ok tt
enforce_route-refused_example =
    enforce_route-refused " post" "/user/bundle/assign" post_not_get legacy_marked legacy_unlisted

-- two lost answers, then one that cannot be read
abbrev answers : ℕ → Answer BackendPurchaseResult
answers zero = timed_out
answers (suc zero) = unreachable
answers (suc (suc n)) = answered (record { status_code = 200; body = not_json })

request-LastOf_example : LastOf 2 0 answers (request true answers)
request-LastOf_example = request-LastOf true answers
