-- ===== src/Backend/Routes.antt =====
-- client/base.py: `enforce_route_is_permitted`, which every request passes first. Methods and paths
-- are compared as code points, after the normalisation of the source.
use esim_opensource_mcp.Prelude.{
  ℕ, zero, suc, ◌-◌, String, Bool, true, false, not, ◌&&◌, ◌||◌, List, [], ◌∷◌, map, length, any,
  all, eqb, leb, if◌then◌else◌, strip, lower, contains, starts_with, codes, eq_codes, ◌≡◌, ◌≢◌,
  arith, refl, ◌⊎◌, inl, inr, Bool-cases, sym, ◌∙◌, false≢true,
}
use esim_opensource_mcp.Errors.{Result, ok, err, plain, forbidden_backend_route}

abbrev Route : Type 0
Route = String × String

-- `PERMITTED_MUTATION_ROUTES`
abbrev pub mutation_routes : List Route
mutation_routes =
    ("POST", "/mcp/user/bundle/assign")
    ∷ ("POST", "/mcp/user/bundle/card/checkout")
    ∷ ("POST", "/mcp/wallet/top-up/checkout")
    ∷ []

-- `QA_ESIM_TOPUP_ROUTE`
abbrev pub qa_topup_routes : List Route
qa_topup_routes = ("POST", "/user/bundle/assign-top-up") ∷ []

-- `PERMITTED_EXACT_READ_ROUTES`
abbrev pub exact_read_routes : List Route
exact_read_routes = ("GET", "/mcp/wallet/top-up/options") ∷ []

-- `PERMITTED_REFERENCE_READ_ROUTES`: prefixes of GET routes, each with its number of segments
abbrev pub reference_routes : List (String × ℕ)
reference_routes =
    ("/mcp/user/bundle/card/status/", 1)
    ∷ ("/mcp/wallet/top-up/status/", 1)
    ∷ ("/user/consumption/", 1)
    ∷ ("/user/related-topup/", 2)
    ∷ []

-- `FORBIDDEN_PATH_MARKERS`
abbrev pub forbidden_markers : List String
forbidden_markers =
    "bundle/assign" ∷ "bundle/card" ∷ "verify_order_otp" ∷ "top-up" ∷ "topup" ∷ "wallet/top-up"
    ∷ "user_wallet_by_id" ∷ "voucher" ∷ "promotion" ∷ "promo" ∷ "callback" ∷ "payment" ∷ "stripe"
    ∷ "order/" ∷ "consumption" ∷ "translate_bundle" ∷ "translate_tag" ∷ []

abbrev upper_code : ℕ → ℕ
upper_code c = if leb 97 c && leb c 122 then c - 32 else c

-- `method.strip().upper()`
unfoldable pub normal_method : String → List ℕ
unfolding strip
normal_method method = map upper_code (codes (strip method))

abbrev lstrip_slashes : List ℕ → List ℕ
lstrip_slashes [] = []
lstrip_slashes (c ∷ s) = let rest = lstrip_slashes s in if eqb c 47 then rest else c ∷ s

-- `f"/{path.strip().lstrip('/')}".lower()`
unfoldable pub normal_path : String → List ℕ
unfolding strip
normal_path path = 47 ∷ lstrip_slashes (lower (strip path))

unfoldable pub is_route : List ℕ → List ℕ → List Route → Bool
unfolding eq_codes
is_route method path routes =
    any (λ r. eq_codes method (codes r.0) && eq_codes path (codes r.1)) routes

-- a letter, a digit, or one of `._~-`
abbrev is_reference_code : ℕ → Bool
is_reference_code c =
    (leb 97 c && leb c 122)
    || (leb 65 c && leb c 90)
    || (leb 48 c && leb c 57)
    || eqb c 46
    || eqb c 95
    || eqb c 126
    || eqb c 45

-- `$` of the pattern also stands before a line feed that ends the segment
abbrev chomp : List ℕ → List ℕ
chomp [] = []
chomp (c ∷ []) = if eqb c 10 then [] else c ∷ []
chomp (c ∷ s) = c ∷ chomp s

abbrev pub is_segment : List ℕ → Bool
is_segment s =
    leb 1 (length (chomp s)) && leb (length (chomp s)) 128 && all is_reference_code (chomp s)

abbrev prepend : ℕ → List (List ℕ) → List (List ℕ)
prepend c [] = (c ∷ []) ∷ []
prepend c (p ∷ ps) = (c ∷ p) ∷ ps

-- `remainder.split("/")`
unfoldable pub split_slashes : List ℕ → List (List ℕ)
split_slashes [] = [] ∷ []
split_slashes (c ∷ s) = let rest = split_slashes s in if eqb c 47 then [] ∷ rest else prepend c rest

-- `_reference_segments_ok`
unfoldable pub reference_segments_ok : List ℕ → ℕ → Bool
unfolding split_slashes
reference_segments_ok remainder expected =
    let parts = split_slashes remainder in eqb (length parts) expected && all is_segment parts

abbrev pub drop : ℕ → List ℕ → List ℕ
drop zero s = s
drop (suc n) [] = []
drop (suc n) (c ∷ s) = drop n s

abbrev carries_marker : List ℕ → Bool
carries_marker path = any (λ m. contains (codes m) path) forbidden_markers

-- `marker in normalized_path` for one of the markers
unfoldable pub has_marker : List ℕ → Bool
unfolding contains
has_marker path = carries_marker path

-- one reference route whose prefix the path has
abbrev reference_decides : List ℕ → List ℕ → String × ℕ → Bool
reference_decides method path (prefix, segments) =
    eq_codes method (codes "GET")
    && reference_segments_ok (drop (length (codes prefix)) path) segments

-- The first route whose prefix the path has decides, and without one the markers do.
unfoldable pub permitted_read : List ℕ → List ℕ → List (String × ℕ) → Bool
unfolding starts_with reference_segments_ok eq_codes has_marker
permitted_read method path [] = not (has_marker path)
permitted_read method path (r ∷ rs) =
    let rest = permitted_read method path rs in
    if starts_with (codes r.0) path then reference_decides method path r else rest

abbrev permitted : Bool → List ℕ → List ℕ → Bool
permitted qa method path =
    if not (eq_codes method (codes "GET") || eq_codes method (codes "POST"))
    then false
    else if is_route method path mutation_routes
    then true
    else if is_route method path exact_read_routes
    then true
    else if qa && is_route method path qa_topup_routes
    then true
    else permitted_read method path reference_routes

unfoldable pub enforce_route_is_permitted : String → String → Bool → Result (Unit {0})
unfolding normal_method normal_path is_route permitted_read
enforce_route_is_permitted method path qa =
    if permitted qa (normal_method method) (normal_path path)
    then ok tt
    else err (plain forbidden_backend_route)

starts_plain :
    (method path : List ℕ) (routes : List (String × ℕ))
    → eq_codes method (codes "GET") ≡ false
    → permitted_read method path routes ≡ true
    → has_marker path ≡ false
unfolding permitted_read
starts_plain method path [] g h = ground arith
starts_plain method path (r ∷ rs) g h = ground (arith, starts_plain method path rs g)

no_exact_read :
    (method path : List ℕ)
    → eq_codes method (codes "GET") ≡ false
    → is_route method path exact_read_routes ≡ false
unfolding is_route
no_exact_read method path g = rw g refl

-- the tests of the route, one after the other
abbrev decision : Bool → Bool → Bool → Bool → Bool → Bool → Bool
decision allowed mutation read qa topup rest =
    if not allowed
    then false
    else if mutation
    then true
    else if read
    then true
    else if qa && topup
    then true
    else rest

passed :
    (allowed mutation read qa topup rest : Bool)
    → read ≡ false
    → decision allowed mutation read qa topup rest ≡ true
    → (mutation ≡ true) ⊎ ((qa ≡ true) × (topup ≡ true)) ⊎ (rest ≡ true)
passed allowed mutation read qa topup rest r h = ground arith

ok≢err : (r : Result (Unit {0})) → r ≡ ok tt → r ≢ err (plain forbidden_backend_route)
ok≢err r p q = ground arith

enforced :
    (method path : String) (qa : Bool)
    → enforce_route_is_permitted method path qa ≡ ok tt
    → permitted qa (normal_method method) (normal_path path) ≡ true
unfolding enforce_route_is_permitted
enforced method path qa h =
    elim (Bool-cases (permitted qa (normal_method method) (normal_path path))) [
      | inl good ↦ good
      | inr bad ↦ absurd (ok≢err (enforce_route_is_permitted method path qa) h (rw bad refl))
    ]

-- A request that is not a GET and passes goes to one of the three listed mutations, or, where the
-- switch for quality assurance is on, to the listed top-up route, or else its path has no
-- forbidden marker.
pub enforce_route-mutation :
    (method path : String) (qa : Bool)
    → eq_codes (normal_method method) (codes "GET") ≡ false
    → enforce_route_is_permitted method path qa ≡ ok tt
    → (is_route (normal_method method) (normal_path path) mutation_routes ≡ true)
      ⊎ ((qa ≡ true) × (is_route (normal_method method) (normal_path path) qa_topup_routes ≡ true))
      ⊎ (has_marker (normal_path path) ≡ false)
enforce_route-mutation method path qa g h =
    let m = normal_method method in
    let p = normal_path path in
    elim (passed (eq_codes m (codes "GET") || eq_codes m (codes "POST"))
      (is_route m p mutation_routes) (is_route m p exact_read_routes) qa
      (is_route m p qa_topup_routes) (permitted_read m p reference_routes) (no_exact_read m p g)
      (enforced method path qa h)) [
        | inl mutation ↦ inl mutation
        | inr (inl topup) ↦ inr (inl topup)
        | inr (inr rest) ↦ inr (inr (starts_plain m p reference_routes g rest))
      ]

-- With the switch off, a request other than a GET whose path has a forbidden marker is refused
-- unless it is one of the three listed mutations.
pub enforce_route-refused :
    (method path : String)
    → eq_codes (normal_method method) (codes "GET") ≡ false
    → has_marker (normal_path path) ≡ true
    → is_route (normal_method method) (normal_path path) mutation_routes ≡ false
    → enforce_route_is_permitted method path false ≢ ok tt
enforce_route-refused method path g marked other h =
    elim (enforce_route-mutation method path false g h) [
      | inl mutation ↦ false≢true (sym other ∙ mutation)
      | inr (inl topup) ↦ false≢true topup.0
      | inr (inr clean) ↦ false≢true (sym clean ∙ marked)
    ]
