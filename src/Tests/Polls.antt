-- ===== src/Tests/Polls.antt =====
-- A wait over two polls.
use rust_solana_cc_v.Prelude.{◌≡◌, ◌≢◌, refl, true, none, some, [], ◌∷◌, arith}
use rust_solana_cc_v.Sell.Confirm.{
  Poll, status_seen, status_failed, status_unknown, balance, node_error, wait_sell_confirm,
}
use rust_solana_cc_v.Sell.Waits.{Rests, wait_sell_confirm_sound, node_error_confirms}

abbrev first_poll : Poll
first_poll = record { cached = none; status = status_seen; rpc = balance 100 }

abbrev second_poll : Poll
second_poll = record { cached = some 150; status = status_unknown; rpc = node_error }

wait_sell_confirm_sound_example :
    Rests 50
      (first_poll ∷ second_poll ∷ [])
      (wait_sell_confirm true 50 (first_poll ∷ second_poll ∷ []))
wait_sell_confirm_sound_example =
    wait_sell_confirm_sound true 50 (first_poll ∷ second_poll ∷ []) (omega arith)

unknown_no_failure : status_unknown ≢ status_failed
unknown_no_failure e = cc

node_error_ends : (wait_sell_confirm true 50 (second_poll ∷ first_poll ∷ [])).confirmed ≡ true
node_error_ends = node_error_confirms 50 second_poll (first_poll ∷ []) refl unknown_no_failure
