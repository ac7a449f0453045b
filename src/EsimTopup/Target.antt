-- ===== src/EsimTopup/Target.antt =====
-- Which eSIM a top-up is for: `_resolve_target`, `_require_toppable` and `_esim_target` of
-- tools/esim_topup.py, `mask_iccid` of topup/models.py, and the two references that
-- client/topup.py lets into a path.

use Prim.Native.String.{String, ◌++◌}
use esim_opensource_mcp.Prelude.{
  ℕ, ◌-◌, Bool, true, false, ◌&&◌, ◌==◌, Option, some, List, [], ◌∷◌, eqb, leb, if◌then◌else◌,
  strip, codes, length, or_empty, all, is_digit, sized, is_reference,
}
use esim_opensource_mcp.Errors.{
  Result, ok, err, plain, invalid_input, no_purchased_esims, esim_not_found,
  esim_topup_not_supported,
}
use esim_opensource_mcp.Selection.{BackendEsim}
use esim_opensource_mcp.Topup.{EsimTarget}

-- `[esim for esim in esims if esim.iccid]`
unfoldable pub with_iccid : List BackendEsim → List BackendEsim
with_iccid [] = []
with_iccid (e ∷ es) = let rest = with_iccid es in if or_empty e.iccid == "" then rest else e ∷ rest

abbrev pub first_with : String → List BackendEsim → Result BackendEsim
first_with requested [] = err (plain esim_not_found)
first_with requested (e ∷ es) =
    let rest = first_with requested es in if or_empty e.iccid == requested then ok e else rest

abbrev pub only_one : List BackendEsim → Result BackendEsim
only_one (e ∷ []) = ok e
only_one _ = err (plain invalid_input)

abbrev pub chosen_from : String → List BackendEsim → Result BackendEsim
chosen_from requested es = if requested == "" then only_one es else first_with requested es

-- The listed eSIMs have an ICCID each, so an absent one is not equal to a requested one.
unfoldable pub resolve_target : Option String → List BackendEsim → Result BackendEsim
unfolding strip
resolve_target iccid [] = err (plain no_purchased_esims)
resolve_target iccid (e ∷ es) = chosen_from (strip (or_empty iccid)) (e ∷ es)

abbrev pub refused_topup : Option Bool → Bool
refused_topup (some false) = true
refused_topup _ = false

unfoldable pub require_toppable : BackendEsim → Result BackendEsim
require_toppable e =
    if refused_topup e.topup_allowed
    then err (plain esim_topup_not_supported)
    else if or_empty e.bundle_code == ""
    then err (plain esim_topup_not_supported)
    else ok e

abbrev stars : List ℕ → String
stars [] = ""
stars (c ∷ cs) = "*" ++ stars cs

-- `s[n:]`
abbrev pub drop_chars : ℕ → String → String
drop_chars n String.[] = ""
drop_chars n (String.◌∷◌ c s) =
    let rest = drop_chars (n - 1) s in if eqb n 0 then String.◌∷◌ c s else rest

-- `mask_iccid` of an ICCID that is given; the tail that shows has four characters
unfoldable pub mask_iccid : String → String
unfolding strip
mask_iccid value =
    let digits = strip value in
    let n = length (codes digits) in
    if leb n 4 then stars (codes digits) else "****" ++ drop_chars (n - 4) digits

unfoldable pub esim_target : BackendEsim → EsimTarget
unfolding mask_iccid
esim_target e = record {
  iccid = or_empty e.iccid;
  masked_iccid = mask_iccid (or_empty e.iccid);
  bundle_code = or_empty e.bundle_code;
  bundle_name = e.plan_name;
  plan_started = e.plan_started;
  bundle_expired = e.bundle_expired;
  topup_allowed = e.topup_allowed;
  label = e.label_name;
  order_reference = e.order_number;
}

-- `^\d{15,22}$`, on the digits of ASCII
unfoldable pub require_iccid : String → Result String
unfolding strip
require_iccid value =
    let candidate = strip value in
    if sized 15 22 (codes candidate) && all is_digit (codes candidate)
    then ok candidate
    else err (plain invalid_input)

-- `^[A-Za-z0-9._~-]{1,128}$`
unfoldable pub require_bundle_code : String → Result String
unfolding strip is_reference
require_bundle_code value =
    let candidate = strip value in
    if is_reference candidate then ok candidate else err (plain invalid_input)
