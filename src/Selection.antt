-- ===== src/Selection.antt =====
-- selection/: the numbered list of eSIMs that a client was last shown, for one owner.
pub mod Numbers
use esim_opensource_mcp.Prelude.{
  ℕ, suc, ◌+◌, String, Bool, Option, none, some, List, [], ◌∷◌, Dict, lookup, insert, remove,
  is_some, eqb, ltb, ◌==◌, or_empty, if◌then◌else◌,
}
use esim_opensource_mcp.Errors.{
  Result, ok, err, plain, esim_selection_unavailable, esim_selection_out_of_range,
}
use esim_opensource_mcp.Owner.{QuoteOwner}

-- The fields of `BackendEsim` that a listing or a top-up reads. `plan_name` is the first that is
-- given of `bundle_marketing_name`, `bundle_name` and `display_title`, `validity_display` stands for
-- itself or `validity_label`, and `purchased_at` is `payment_date` as `epoch_to_iso` writes it.
pub record BackendEsim : Type 0 where
  pub iccid : Option String
  pub label_name : Option String
  pub order_number : Option String
  pub plan_name : Option String
  pub plan_started : Option Bool
  pub bundle_expired : Option Bool
  pub bundle_code : Option String
  pub topup_allowed : Option Bool
  pub order_status : Option String
  pub gprs_limit_display : Option String
  pub validity_display : Option String
  pub validity_date : Option String
  pub purchased_at : Option String

pub record SelectedEsim : Type 0 where
  pub number : ℕ
  pub iccid : String
  pub label_name : Option String
  pub plan_name : Option String
  pub plan_started : Option Bool
  pub bundle_expired : Option Bool
  pub bundle_code : Option String
  pub topup_allowed : Option Bool
  pub data_allowance : Option String
  pub validity : Option String
  pub order_status : Option String
  pub validity_date : Option String
  pub purchased_at : Option String

pub record EsimSelectionList : Type 0 where
  pub owner_session_key : String
  pub owner_user_ref : String
  pub entries : List SelectedEsim

abbrev selected : ℕ → BackendEsim → SelectedEsim
selected number esim = record {
  number = number;
  iccid = or_empty esim.iccid;
  label_name = esim.label_name;
  plan_name = esim.plan_name;
  plan_started = esim.plan_started;
  bundle_expired = esim.bundle_expired;
  bundle_code = esim.bundle_code;
  topup_allowed = esim.topup_allowed;
  data_allowance = esim.gprs_limit_display;
  validity = esim.validity_display;
  order_status = esim.order_status;
  validity_date = esim.validity_date;
  purchased_at = esim.purchased_at;
}

-- `SelectedEsim.to_backend_esim`
abbrev pub to_backend_esim : SelectedEsim → BackendEsim
to_backend_esim e = record {
  iccid = some e.iccid;
  label_name = e.label_name;
  order_number = none;
  plan_name = e.plan_name;
  plan_started = e.plan_started;
  bundle_expired = e.bundle_expired;
  bundle_code = e.bundle_code;
  topup_allowed = e.topup_allowed;
  order_status = e.order_status;
  gprs_limit_display = e.data_allowance;
  validity_display = e.validity;
  validity_date = e.validity_date;
  purchased_at = none;
}

-- `enumerate((esim for esim in esims if esim.iccid), start=position)`
unfoldable pub number_from : ℕ → List BackendEsim → List SelectedEsim
number_from position [] = []
number_from position (esim ∷ esims) =
    let skipped = number_from position esims in
    let rest = number_from (position + 1) esims in
    if or_empty esim.iccid == "" then skipped else selected position esim ∷ rest

-- `EsimSelectionList.entry`
unfoldable pub entry : List SelectedEsim → ℕ → Option SelectedEsim
entry [] number = none
entry (e ∷ es) number = if eqb e.number number then some e else entry es number

abbrev pub Selections : Type 0
Selections = Dict EsimSelectionList

abbrev own_listing : QuoteOwner → Option EsimSelectionList → Option EsimSelectionList
own_listing owner none = none
own_listing owner (some l) = if l.owner_user_ref == owner.user_ref then some l else none

unfoldable pub get : QuoteOwner → Selections → Option EsimSelectionList
unfolding lookup
get owner d = own_listing owner (lookup owner.session_key d)

unfoldable pub save : EsimSelectionList → Selections → Selections
unfolding insert
save l d = insert l.owner_session_key l d

unfoldable pub invalidate_session : String → Selections → Selections × ℕ
unfolding lookup remove
invalidate_session sk d = (remove sk d, if is_some (lookup sk d) then 1 else 0)

-- `EsimSelectionService.record`
unfoldable pub record_listing :
    QuoteOwner → List BackendEsim → Selections → List SelectedEsim × Selections
unfolding number_from save
record_listing owner esims d = (
  number_from 1 esims,
  save
      (record {
        owner_session_key = owner.session_key;
        owner_user_ref = owner.user_ref;
        entries = number_from 1 esims;
      })
      d,
)

abbrev pub numbered : Option SelectedEsim → Result SelectedEsim
numbered none = err (plain esim_selection_out_of_range)
numbered (some e) = ok e

abbrev resolved : Option EsimSelectionList → ℕ → Result SelectedEsim
resolved none number = err (plain esim_selection_unavailable)
resolved (some l) number = numbered (entry l.entries number)

-- `resolve`: an empty listing has no entry, and raises the error of a number out of range too
unfoldable pub resolve : QuoteOwner → ℕ → Selections → Result SelectedEsim
unfolding get entry
resolve owner number d = resolved (get owner d) number
