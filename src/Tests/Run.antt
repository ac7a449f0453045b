-- ===== src/Tests/Run.antt =====
-- A run of the server: a quote is prepared, its purchase is sent, the answer is lost, and the
-- purchase is sent again.
use esim_opensource_mcp.Prelude.{none, some, [], ◌∷◌, lookup, insert, remove, ◌≡◌, refl}
use esim_opensource_mcp.Backend.{timed_out}
use esim_opensource_mcp.Purchase.Service.{create}
use esim_opensource_mcp.Purchase.Execution.{new_execution}
use esim_opensource_mcp.Confirm.{Call, begin, finish}
use esim_opensource_mcp.Confirm.Retry.{sending}
use esim_opensource_mcp.Confirm.Protocol.{
  System, start, answer, prepare, Reach, here, next, after_stage, after_finish, create_in,
  sent_keys, Flight, awaiting_purchase,
}
use esim_opensource_mcp.Confirm.Protocol.Invariant.{Settled}
use esim_opensource_mcp.Confirm.Protocol.Safety.{sends_one_key}
use esim_opensource_mcp.Tests.{owner, settings, request, prepared, signed_in}

abbrev started : System
started = record { world = signed_in; held = [] }

abbrev prepared_system : System
prepared_system = record { world = create_in settings owner "quote" request 0 signed_in; held = [] }

abbrev pub calling : System
calling = after_stage "quote" [] (begin 60 1 "device" owner "quote" "key" prepared_system.world)

abbrev pub call : Call
call = sending prepared (new_execution owner "quote" "key") owner "device"

abbrev lost : System
lost = after_finish "quote" calling.held (finish call timed_out calling.world)

abbrev calling_again : System
calling_again = after_stage "quote" lost.held (begin 60 2 "device" owner "quote" "other" lost.world)

held_by_call : lookup "quote" calling.held ≡ some (awaiting_purchase call)
unfolding lookup insert begin create
held_by_call = refl

free_again : lookup "quote" lost.held ≡ none
unfolding lookup insert remove begin create finish
free_again = refl

new_id : lookup "quote" signed_in.quotes ≡ none
unfolding lookup
new_id = refl

unheld : lookup {V = Flight} "quote" [] ≡ none
unfolding lookup
unheld = refl

run : Reach started calling_again
run =
    next
      (next
        (next (next here (prepare settings owner "quote" request 0 new_id refl))
          (start 60 1 "device" owner "quote" "key" unheld refl))
        (answer "quote" call timed_out held_by_call refl))
      (start 60 2 "device" owner "quote" "other" free_again refl)

both_sent : sent_keys "quote" calling_again.world.sent ≡ "key" ∷ "key" ∷ []
unfolding sent_keys lookup insert remove begin create finish
both_sent = refl

sends_one_key_example : Settled (sent_keys "quote" calling_again.world.sent)
sends_one_key_example = sends_one_key started calling_again "quote" (refl, refl, refl, refl) run
