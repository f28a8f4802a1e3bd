-- ===== src/StopApp/Tests.antt =====
-- Teardowns of a lease in several states, and the theorem at one of them.
use manifest_mcp_mono.Common.{
  ◌≡◌, refl, true, List, [], ◌∷◌, Option, none, some, Text, codes, Datum, truth, number, string,
  no_members, member, Result, ok, err,
}
use manifest_mcp_mono.LeaseWait.{LeaseState, pending, active, closed}
use manifest_mcp_mono.LeaseWait.Poll.{chain_closed}
use manifest_mcp_mono.DeployManifest.{Thrown, sdk_error}
use manifest_mcp_mono.StopApp.{
  Lease, already_inactive, StopAnswers, reconciliation_from, race_error, stop_app,
}
use manifest_mcp_mono.StopApp.Grounds.{Grounds, stop_app-Grounds}

abbrev lease_in : LeaseState → Lease
lease_in s = record { state = s; rejection_reason = none }

abbrev refused_tx : Thrown
refused_tx =
    sdk_error (string (codes "TX_FAILED")) (codes "code 5")
      (member (codes "sent") (truth true) (member (codes "code") (number 5) no_members))

abbrev answers : LeaseState → LeaseState → StopAnswers
answers before after = record {
  first = ok (some (lease_in before));
  transaction = err refused_tx;
  fresh = ok (some (lease_in after));
  waits = true;
}

abbrev known : List Text
known = codes "TX_FAILED" ∷ []

closed_meanwhile :
    (stop_app known (answers active closed)).outcome
    ≡ ok (already_inactive chain_closed none (some (reconciliation_from known refused_tx)))
unfolding stop_app manifest_mcp_mono.Common.same_text
closed_meanwhile = refl

acknowledged_meanwhile :
    (stop_app known (answers pending active)).outcome ≡ err (race_error known refused_tx)
unfolding stop_app manifest_mcp_mono.Common.same_text
acknowledged_meanwhile = refl

still_active : (stop_app known (answers active active)).outcome ≡ err refused_tx
unfolding stop_app manifest_mcp_mono.Common.same_text
still_active = refl

stop_app-Grounds_example :
    Grounds known
      (answers pending active)
      (stop_app known (answers pending active)).broadcasts
      (stop_app known (answers pending active)).outcome
stop_app-Grounds_example = stop_app-Grounds known (answers pending active)
