-- ===== src/Tests/ToppingUp.antt =====
-- An eSIM is topped up: the quote, the reads of the platform and its answer at concrete inputs.
use esim_opensource_mcp.Prelude.{
  ℕ, ◌≤◌, String, none, some, List, [], ◌∷◌, true, false, lookup, insert, ◌≡◌, ◌≢◌, refl, arith,
  eq_iff, false≢true, strip,
}
use esim_opensource_mcp.Prelude.Int.{pos}
use esim_opensource_mcp.Errors.{Result, ok, err, plain, ◌>>=◌, authentication_required}
use esim_opensource_mcp.Backend.{Answer, timed_out, answered, envelope, accepted}
use esim_opensource_mcp.Quotes.{expiry_from}
use esim_opensource_mcp.Selection.{BackendEsim}
use esim_opensource_mcp.Topup.{EsimTopupTerms, EsimTopupQuote}
use esim_opensource_mcp.Topup.Quotes.{new_quote, create_esim, get_esim_record}
use esim_opensource_mcp.Topup.Execution.{new_execution, attempted}
use esim_opensource_mcp.World.{World}
use esim_opensource_mcp.World.Manager.Authenticated.{
  Rotations, run_authenticated, Settled, IsKeyed, run_authenticated-Settled,
}
use esim_opensource_mcp.EsimTopup.Reads.{Bundle, Platform, currency_of, quoted_bundle}
use esim_opensource_mcp.EsimTopup.Revalidate.{toppable_target, agreed_bundle}
use esim_opensource_mcp.EsimTopup.Prepare.{offered_bundle, priced, terms_of}
use esim_opensource_mcp.EsimTopup.Prepare.Agreement.{IsTrimmed, revalidation_agrees}
use esim_opensource_mcp.EsimTopup.Failure.{BackendLegacyTopupResult}
use esim_opensource_mcp.EsimTopup.Confirm.{
  Call, Confirmed, TopupConfirmation, done, begin, after_reads,
}
use esim_opensource_mcp.EsimTopup.Confirm.Finish.{
  Surroundings, finish, completed_result, confirm_esim_topup,
}
use esim_opensource_mcp.EsimTopup.Confirm.Sends.Whole.{SentChecked, confirm_esim_topup-SentChecked}
use esim_opensource_mcp.EsimTopup.Confirm.Outcomes.{
  replay_of, finish-ends, ToppedUp, finish-ToppedUp,
}
use esim_opensource_mcp.EsimTopup.Confirm.Protocol.{
  System, start, revalidated, answer, prepare, Reach, here, next, after_stage, after_finish,
  create_in, times_sent,
}
use esim_opensource_mcp.EsimTopup.Confirm.Protocol.Safety.{sends_once}
use esim_opensource_mcp.Tests.{owner, settings, covered, signed_in}

abbrev sim : BackendEsim
sim = record {
  iccid = some "8931080019123456789";
  label_name = none;
  order_number = some "o-1";
  plan_name = some "Europe";
  plan_started = some true;
  bundle_expired = none;
  bundle_code = some "eu-5";
  topup_allowed = some true;
  order_status = some "Active";
  gprs_limit_display = some "5 GB";
  validity_display = some "30 days";
  validity_date = none;
  purchased_at = none;
}

abbrev plan : Bundle
plan = record {
  code = some "eu-1";
  name = "Europe";
  data_display = "1 GB";
  is_unlimited = false;
  validity_text = "7 days";
  validity_days = some 7;
  plan_type = none;
  activity_policy = none;
  countries_count = 30;
  price = some (pos 200);
  currency_code = some "EUR";
  is_active = none;
}

abbrev topup_terms : EsimTopupTerms
topup_terms = record {
  target = record {
    iccid = "8931080019123456789";
    masked_iccid = "****6789";
    bundle_code = "eu-5";
    bundle_name = some "Europe";
    plan_started = some true;
    bundle_expired = none;
    topup_allowed = some true;
    label = none;
    order_reference = some "o-1";
  };
  bundle = quoted_bundle plan;
  price = record { amount = pos 200; currency = "EUR" };
  payment_method = "Wallet";
  wallet = some covered;
}

abbrev topup_quote : EsimTopupQuote
topup_quote = new_quote settings owner "topup" "header" topup_terms "en" 0

-- the terms are those that the preparation makes of the plan
terms_test : terms_of sim plan (pos 200) "EUR" covered ≡ topup_terms
unfolding terms_of
terms_test = refl

abbrev given : Confirmed
given = record {
  device_id = "device";
  decimal = λ text. some (pos 200);
  confirmed_amount = "2.00";
  now = 1;
}

abbrev rotations : Rotations
rotations = record { of_fresh = none; of_replay = none }

abbrev platform : Platform
platform = record {
  window = 60;
  now = 1;
  session_key = "client";
  rotations = rotations;
  my_esims = λ n token. ok (sim ∷ []);
  related_topups = λ n token code iccid. ok (plan ∷ []);
  user_wallet = λ n token. ok (some (record { balance = pos 900; currency = "EUR" }));
}

abbrev done_topup : BackendLegacyTopupResult
done_topup = record { order_id = some "o-2"; payment_status = some "COMPLETED" }

abbrev topup_answer : Answer BackendLegacyTopupResult
topup_answer = answered (record {
  status_code = 200;
  body = envelope (record {
    status = some "success";
    data_payload = accepted done_topup;
    title = none;
    message = none;
    response_code = some 200;
  });
})

abbrev topup_surroundings : Surroundings
topup_surroundings = record {
  enabled = true;
  is_production = false;
  digest = λ text. text;
  given = given;
  platform = platform;
  auth = none;
  answer = topup_answer;
}

-- A session whose owner is the one that the digest of this test makes of its user.
abbrev own_quote : EsimTopupQuote
own_quote = record topup_quote { owner_user_ref = "7" }

abbrev topup_ready : World
topup_ready = record signed_in { esim_quotes = ("topup", own_quote) ∷ [] }

-- The call reports the top-up as done, so the theorem below is about one that sends.
topup_test :
    (confirm_esim_topup topup_surroundings "topup" topup_ready).0
    ≡ ok (record { receipt = completed_result own_quote done_topup; replayed = false })
unfolding confirm_esim_topup lookup insert expiry_from
topup_test = refl

confirm_esim_topup-SentChecked_example :
    SentChecked topup_surroundings topup_ready
      (confirm_esim_topup topup_surroundings "topup" topup_ready).1
confirm_esim_topup-SentChecked_example =
    confirm_esim_topup-SentChecked topup_surroundings "topup" topup_ready

abbrev started : System
started = record { world = signed_in; held = [] }

abbrev prepared_topup : System
prepared_topup = record {
  world = create_in settings owner "topup" "header" topup_terms "en" 0 signed_in;
  held = [];
}

abbrev reading : System
reading = after_stage "topup" [] (begin given owner "topup" prepared_topup.world)

abbrev read_call : Call
read_call = record {
  quote = topup_quote;
  execution = new_execution owner "topup";
  owner = owner;
  device_id = "device";
}

abbrev sent_call : Call
sent_call = record read_call { execution = attempted (new_execution owner "topup") }

abbrev sending_topup : System
sending_topup = after_stage "topup" reading.held (after_reads 60 1 read_call (ok sim) reading.world)

abbrev lost_topup : System
lost_topup =
    after_finish "topup" sending_topup.held (finish sent_call timed_out sending_topup.world)

run : Reach started lost_topup
unfolding begin create_esim after_reads finish lookup insert
run =
    next
      (next
        (next (next here (prepare settings owner "topup" "header" topup_terms "en" 0 refl refl))
          (start given owner "topup" refl refl))
        (revalidated "topup" read_call 60 1 (ok sim) refl refl))
      (answer "topup" sent_call timed_out refl refl)

sends_once_example : times_sent "topup" lost_topup.world.topups_sent ≤ 1
sends_once_example = sends_once started lost_topup "topup" (refl, refl, refl, refl) run

-- and it was sent
once_test : times_sent "topup" lost_topup.world.topups_sent ≡ 1
unfolding times_sent begin create_esim after_reads finish lookup insert
once_test = refl

not_empty : topup_quote.quote_id ≢ ""
not_empty h = false≢true ((eq_iff topup_quote.quote_id "").1 h)

finish-ends_example :
    let v = (finish sent_call topup_answer sending_topup.world).1 in
    (s : Result TopupConfirmation) × (begin given owner "topup" v ≡ (done s, v))
    × ((x : TopupConfirmation) (q : EsimTopupQuote)
        → (finish sent_call topup_answer sending_topup.world).0 ≡ ok x
        → get_esim_record owner "topup" v.esim_quotes ≡ ok q
        → s ≡ ok (replay_of x))
finish-ends_example =
    finish-ends sent_call topup_answer sending_topup.world
      (finish sent_call topup_answer sending_topup.world).1 "topup" given
      (not_empty, refl, refl, refl) refl

abbrev topped_up : TopupConfirmation
topped_up = record { receipt = completed_result topup_quote done_topup; replayed = false }

reported : (finish sent_call topup_answer sending_topup.world).0 ≡ ok topped_up
unfolding begin create_esim after_reads finish lookup insert
reported = refl

finish-ToppedUp_example : ToppedUp sent_call topup_answer topped_up
finish-ToppedUp_example =
    finish-ToppedUp sent_call topup_answer sending_topup.world topped_up reported

sim_listed : toppable_target none (sim ∷ []) ≡ ok sim
unfolding toppable_target
sim_listed = refl

plan_offered : (offered_bundle "eu-1" (plan ∷ []) >>= priced "USD") ≡ ok (plan, pos 200)
unfolding offered_bundle priced
plan_offered = refl

quoted_terms : topup_quote.terms ≡ terms_of sim plan (pos 200) (currency_of plan "USD") covered
unfolding terms_of
quoted_terms = refl

sim_number : topup_terms.target.iccid ≢ ""
sim_number h = false≢true ((eq_iff topup_terms.target.iccid "").1 h)

sim-IsTrimmed : IsTrimmed "8931080019123456789"
unfolding strip
sim-IsTrimmed = (refl, sim_number)

revalidation_agrees_example :
    (toppable_target (some topup_quote.terms.target.iccid) (sim ∷ []) ≡ ok sim)
    × (agreed_bundle topup_quote (plan ∷ []) ≡ ok plan)
revalidation_agrees_example =
    revalidation_agrees none "eu-1" "USD" (sim ∷ []) (plan ∷ []) sim plan (pos 200) covered
      topup_quote sim_listed plan_offered quoted_terms sim-IsTrimmed

-- The first answer refuses the token, and the session cannot be renewed.
abbrev refusing : ℕ → String → Result (List BackendEsim)
refusing n token = err (plain authentication_required)

signed_in-IsKeyed : IsKeyed "client" signed_in
unfolding lookup
signed_in-IsKeyed s h = ground (arith, h)

run_authenticated-Settled_example :
    Settled "client" refusing (run_authenticated 60 1 rotations "client" refusing true signed_in)
run_authenticated-Settled_example =
    run_authenticated-Settled 60 1 rotations "client" refusing true signed_in signed_in-IsKeyed
