-- ===== src/AppManifest/Payload.antt =====
-- packages/fred/src/tools/validateManifestPayload.ts: the sizes of a manifest and of the request that
-- carries an update of it.
use mathlib.Core.Path.{Path}
use manifest_mcp_mono.Common.{
  ℕ, ◌+◌, ◌-◌, ◌*◌, ◌/◌, ◌≤◌, ◌≡◌, ◌↔◌, List, codes, length, leb, arith, Result, ok, err,
  if◌then◌else◌,
}
use manifest_mcp_mono.DeployManifest.{Thrown, invalid_config}

-- `1 << 20`
abbrev pub max_manifest_bytes : ℕ
max_manifest_bytes = 1048576

-- The UTF-8 bytes of `JSON.stringify({ payload: '' })`, all of them ASCII.
abbrev pub empty_update_envelope_bytes : ℕ
empty_update_envelope_bytes = length (codes "{\"payload\":\"\"}")

abbrev pub max_update_manifest_bytes : ℕ
max_update_manifest_bytes = 3 * ((max_manifest_bytes - empty_update_envelope_bytes) / 4)

unfoldable pub assert_manifest_fits_update_request : List ℕ → Result Thrown (Unit {0})
assert_manifest_fits_update_request bytes =
    if leb (length bytes) max_update_manifest_bytes
    then ok tt
    else err (invalid_config (codes "Update manifest would exceed Fred's request limit"))

-- The text of `bytes` bytes in base64, four characters for each group of three, padded.
abbrev pub base64_length : ℕ → ℕ
base64_length bytes = 4 * ((bytes + 2) / 3)

fits :
    (n : ℕ)
    → (n ≤ max_update_manifest_bytes)
      ↔ (empty_update_envelope_bytes + base64_length n ≤ max_manifest_bytes)
fits n = (λ h. omega (arith, h), λ h. omega (arith, h))

passes :
    (n : ℕ) (e : Thrown)
    → (Path
        (Result Thrown (Unit {0}))
        (if leb n max_update_manifest_bytes then ok tt else err e)
        (ok tt))
      ↔ (n ≤ max_update_manifest_bytes)
passes n e = ground arith

-- A manifest passes exactly where the request that carries it in base64 is within the provider's limit.
pub fits_update_iff :
    (bytes : List ℕ)
    → (assert_manifest_fits_update_request bytes ≡ ok tt)
      ↔ (empty_update_envelope_bytes + base64_length (length bytes) ≤ max_manifest_bytes)
unfolding assert_manifest_fits_update_request
fits_update_iff bytes =
    let (kept, back) =
      passes (length bytes)
        (invalid_config (codes "Update manifest would exceed Fred's request limit")) in
    let (small, large) = fits (length bytes) in (λ h. small (kept h), λ h. back (large h))
