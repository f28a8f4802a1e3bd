-- ===== src/DeployManifest/Compatibility.antt =====
-- packages/fred/src/compatibility.ts: the contract of a provider, from a mode for all or from a map by
-- URL. `provider_key` stands for `new URL` and what is made of it: none where it throws or the protocol
-- is not HTTP.
use manifest_mcp_mono.Common.{
  Bool, true, false, List, [], ◌∷◌, ◌++◌, Option, none, some, Text, codes, same_text, Datum,
  undefined, string, object, Members, no_members, member, Result, ok, err, ◌>>=◌, ◌>>◌, any,
  if◌then◌else◌,
}
use manifest_mcp_mono.DeployManifest.{Thrown, invalid_config}

pub data FredCompatibility : Type 0 where
  v0_13 pr240 : FredCompatibility

abbrev pub same_mode : FredCompatibility → FredCompatibility → Bool
same_mode v0_13 v0_13 = true
same_mode pr240 pr240 = true
same_mode _ _ = false

pub data Normalized : Type 0 where
  for_all : FredCompatibility → Normalized
  by_url : List (Text × FredCompatibility) → Normalized

abbrev mode_of_text : Text → Result Thrown FredCompatibility
mode_of_text t =
    if same_text t (codes "v0.13")
    then ok v0_13
    else if same_text t (codes "pr240")
    then ok pr240
    else err (invalid_config (codes "fredCompatibility must be \"v0.13\" or \"pr240\"."))

unfoldable pub mode : Datum → Result Thrown FredCompatibility
mode (string t) = mode_of_text t
mode _ = err (invalid_config (codes "fredCompatibility must be \"v0.13\" or \"pr240\"."))

abbrev pub listed : Text → List (Text × FredCompatibility) → Option FredCompatibility
listed key [] = none
listed key ((k, m) ∷ rest) = if same_text k key then some m else listed key rest

abbrev lookup_mode : Text → List (Text × FredCompatibility) → FredCompatibility
lookup_mode key modes = elim (listed key modes) [ none ↦ v0_13 | some m ↦ m ]

module _ (provider_key : Text → Option Text) where
  abbrev key_of : Text → Result Thrown Text
  key_of url = elim (provider_key url) [
    | some key ↦ ok key
    | none ↦
        err
          (invalid_config (codes "Fred compatibility maps require absolute HTTP(S) provider URLs."))
  ]

  abbrev check_new : Text → List (Text × FredCompatibility) → Result Thrown (Unit {0})
  check_new key modes =
      if any (λ entry. same_text entry.0 key) modes
      then err (invalid_config (codes "Fred compatibility map contains duplicate provider URLs."))
      else ok tt

  unfoldable pub normalize_members :
      Members → List (Text × FredCompatibility) → Result Thrown (List (Text × FredCompatibility))
  unfolding mode
  normalize_members no_members modes = ok modes
  normalize_members (member url value rest) modes = do
    key ← key_of url
    check_new key modes
    m ← mode value
    normalize_members rest (modes ++ ((key, m) ∷ []))

  unfoldable pub normalize_fred_compatibility : Datum → Result Thrown Normalized
  unfolding mode normalize_members
  normalize_fred_compatibility undefined = ok (for_all v0_13)
  normalize_fred_compatibility (string t) = mode (string t) >>= λ m. ok (for_all m)
  normalize_fred_compatibility (object ms) = normalize_members ms [] >>= λ modes. ok (by_url modes)
  normalize_fred_compatibility _ =
      err (invalid_config (codes "fredCompatibility must be a mode or a provider URL map."))

  abbrev select_mode : Option Text → Normalized → Result Thrown FredCompatibility
  select_mode url (for_all m) = ok m
  select_mode none (by_url modes) =
      err
        (invalid_config (codes "A provider URL is required to select its Fred compatibility mode."))
  select_mode (some url) (by_url modes) = key_of url >>= λ key. ok (lookup_mode key modes)

  unfoldable pub resolve_fred_compatibility :
      Datum → (provider_url : Option Text) (override : Datum) → Result Thrown FredCompatibility
  unfolding normalize_fred_compatibility mode
  resolve_fred_compatibility config provider_url undefined =
      normalize_fred_compatibility config >>= select_mode provider_url
  resolve_fred_compatibility config provider_url override = mode override
