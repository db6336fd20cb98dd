-- ===== src/Custody/Tests.antt =====
-- The custody transfer against an API that decides at its second or third reply.
use kalam_network.Prelude.{
  ◌+◌, ◌*◌, ◌≤◌, ◌≡◌, refl, none, some, [], ltb, if◌then◌else◌, true, arith,
}
use kalam_network.Exec.{ok, err}
use kalam_network.Custody.{
  CustodyApi, CustodyState, completed, pending, signing, poll_transaction_status, poll_step,
  execute_transfer,
}
use kalam_network.Custody.Units.{tmusd, cent, to_smallest_units, to_smallest_units_near}
use kalam_network.Custody.Polling.{
  Posts, poll_transaction_status_first, poll_transaction_status_exhausted, execute_transfer-Posts,
}

-- Transaction 77 is decided from request number 2 on; any other never is.
abbrev slow_api : CustodyApi
slow_api = record {
  configured = true;
  token_address = 5;
  create = λ n b. ok (some 77);
  poll = λ n id.
      if ltb n 2
      then ok (record { status = pending 1; tx_hash = none; explorer_url = none })
      else ok (record { status = completed; tx_hash = some 88; explorer_url = none });
}

abbrev stuck_api : CustodyApi
stuck_api = record {
  configured = true;
  token_address = 5;
  create = λ n b. ok (some 77);
  poll = λ n id. ok (record { status = pending 1; tx_hash = none; explorer_url = none });
}

abbrev fresh : CustodyState
fresh = record { posted = []; requests = 0 }

poll_transaction_status_first_example : poll_transaction_status slow_api 77 fresh ≡ (
  ok (record { tx_hash = 88; status = completed; explorer_url = none }),
  record fresh { requests = 3 },
)
unfolding poll_step
poll_transaction_status_first_example =
    poll_transaction_status_first slow_api 77 2 fresh
      (ok (record { tx_hash = 88; status = completed; explorer_url = none })) (omega arith)
      (refl, (refl, tt)) refl

poll_transaction_status_exhausted_example :
    poll_transaction_status stuck_api 77 fresh ≡ (err signing, record fresh { requests = 30 })
unfolding poll_step
poll_transaction_status_exhausted_example =
    poll_transaction_status_exhausted stuck_api 77 fresh (ground arith)

execute_transfer-Posts_example :
    let (r, s') = execute_transfer slow_api 21 12 150_000_000 tmusd fresh in
    Posts 21 12 150_000_000 tmusd fresh r s'
execute_transfer-Posts_example = execute_transfer-Posts slow_api 21 12 150_000_000 tmusd fresh

to_smallest_units_near_example :
    (2 * 1_400_000 ≤ 2 * (to_smallest_units 1_400_000 tmusd * cent) + cent)
    × (2 * (to_smallest_units 1_400_000 tmusd * cent) ≤ 2 * 1_400_000 + cent)
to_smallest_units_near_example = to_smallest_units_near 1_400_000
