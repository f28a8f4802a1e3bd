-- ===== src/FredFailure/Tests.antt =====
-- An old provider's failure, with its reason in a form that this client does not know.
use manifest_mcp_mono.Common.{ℕ, ◌≡◌, refl, true, none, some, Text, codes}
use manifest_mcp_mono.FredFailure.{
  FredFailureSource, FredFailure, describe_fred_failure, failure_detail,
}

abbrev old : FredFailureSource
old = record {
  reason = some (codes "Evicted");
  message = some (codes "");
  last_error = none;
  error = some (codes "gone");
}

abbrev described : FredFailure
described = record { reason = some (codes "Evicted"); message = some (codes "gone"); legacy = true }

described_computed :
    (describe_fred_failure old ≡ some described)
    × (failure_detail old ≡ some (codes "Evicted: gone"))
unfolding describe_fred_failure failure_detail
described_computed = (refl, refl)

abbrev unchanged : Text → ℕ → Text
unchanged raw max = raw
