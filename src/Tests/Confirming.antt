-- ===== src/Tests/Confirming.antt =====
-- Confirmations at concrete inputs.
use esim_opensource_mcp.Prelude.{
  ◌+◌, ◌≤◌, none, some, [], ◌∷◌, false, length, lookup, insert, ◌≡◌, refl, inl,
}
use esim_opensource_mcp.Errors.{ok, err, plain, purchase_rejected, code}
use esim_opensource_mcp.Backend.{Answer, timed_out, answered, envelope, accepted}
use esim_opensource_mcp.Purchase.Service.{get_record, create}
use esim_opensource_mcp.Purchase.Execution.{
  PurchaseExecution, Receipt, new_execution, succeeded_with, unsuccessful, failed, replay_error,
  attempted,
}
use esim_opensource_mcp.Purchase.Failure.{BackendPurchaseResult}
use esim_opensource_mcp.World.{World}
use esim_opensource_mcp.Confirm.{
  Confirmation, Surroundings, begin, finish, done, confirm_purchase, completed_result,
}
use esim_opensource_mcp.Confirm.Sends.{Completed, finish-Completed, confirm_purchase-sent}
use esim_opensource_mcp.Confirm.Replay.{Stored, begin-ended}
use esim_opensource_mcp.Confirm.Retry.{LeftOpen, finish-LeftOpen}
use esim_opensource_mcp.Tests.{owner, prepared, ready}
use esim_opensource_mcp.Tests.Run.{call, calling}

abbrev bought : BackendPurchaseResult
bought = record {
  status = some " completed";
  order_id = some "o-1";
  payment_status = some "PAID";
  order_status = none;
  idempotent_replay = false;
  provisioning_status = none;
  next_action = none;
}

abbrev completed_answer : Answer BackendPurchaseResult
completed_answer = answered (record {
  status_code = 200;
  body = envelope (record {
    status = some "success";
    data_payload = accepted bought;
    title = none;
    message = none;
    response_code = some 200;
  });
})

abbrev receipt : Receipt
receipt = completed_result prepared bought

abbrev confirmation : Confirmation
confirmation = record { receipt = receipt; replayed = false }

call_finished : (finish call completed_answer calling.world).0 ≡ ok confirmation
unfolding finish begin lookup insert create
call_finished = refl

finish-Completed_example : Completed call completed_answer confirmation
finish-Completed_example =
    finish-Completed call completed_answer calling.world confirmation call_finished

finish-LeftOpen_example : LeftOpen call calling.world (finish call timed_out calling.world)
finish-LeftOpen_example = finish-LeftOpen call timed_out calling.world (inl refl)

abbrev surroundings : Surroundings
surroundings = record {
  window = 60;
  now = 1;
  digest = λ text. text;
  session_key = "client";
  device_id = "device";
  fresh_key = "key";
  auth = none;
  answer = completed_answer;
}

confirm_purchase-sent_example : length (confirm_purchase surroundings "quote" ready).1.sent ≤ 0 + 1
confirm_purchase-sent_example = confirm_purchase-sent surroundings "quote" ready

abbrev tried : PurchaseExecution
tried = attempted (new_execution owner "quote" "key")

abbrev open_world : World
open_world = record ready { executions = ("quote", tried) ∷ [] }

abbrev bought_world : World
bought_world = record ready { executions = ("quote", succeeded_with receipt tried) ∷ [] }

abbrev refused : PurchaseExecution
refused = unsuccessful (plain purchase_rejected) failed tried

abbrev refused_world : World
refused_world = record ready { executions = ("quote", refused) ∷ [] }

bought-Stored : Stored owner "quote" bought_world prepared (succeeded_with receipt tried)
unfolding get_record lookup
bought-Stored = (refl, refl, (refl, refl))

refused-Stored : Stored owner "quote" refused_world prepared refused
unfolding get_record lookup code
refused-Stored = (refl, refl, (refl, refl))

begin-ended_example :
    begin 60 7 "tablet" owner "quote" "later" refused_world
    ≡ (done (err (replay_error refused)), refused_world)
begin-ended_example =
    begin-ended 60 7 "tablet" owner "quote" "later" refused_world prepared refused refused-Stored
      (inl refl)
