-- ===== src/AppManifest/Tests.antt =====
-- Runs of a merge and of the bounds of a payload, and the theorems at them.
use manifest_mcp_mono.Common.{
  ℕ, ◌+◌, ◌≤◌, ◌≡◌, ◌↔◌, refl, inr, true, List, [], ◌∷◌, Option, none, some, Text, codes, length,
  decimal, arith, Datum, string, object, Members, no_members, member, member_of, Result, ok, err,
}
use manifest_mcp_mono.AppManifest.{merge_members, merge_manifest, get_service_names}
use manifest_mcp_mono.AppManifest.Merge.{
  IsDistinct, entries, section_key, Section, env, ports, labels, IsMerged, merge_members-IsMerged,
}
use manifest_mcp_mono.AppManifest.Payload.{
  empty_update_envelope_bytes, base64_length, max_manifest_bytes,
  assert_manifest_fits_update_request, fits_update_iff,
}
use manifest_mcp_mono.AppManifest.Literals.{
  digits_of, integer_literal_fits_int64, int64_magnitude, integer_literal_fits_int64_iff,
}

abbrev old : Members
old = member (codes "image") (string (codes "app:1")) (
    member (codes "env")
      (object (
        member (codes "A") (string (codes "1"))
          (member (codes "B") (string (codes "2")) no_members)))
      (member (codes "user") (string (codes "root")) no_members))

abbrev new : Members
new =
    member (codes "image") (string (codes "app:2")) (
      member (codes "env") (object (member (codes "B") (string (codes "3")) no_members)) no_members)

abbrev merged : Members
merged = member (codes "image") (string (codes "app:2")) (
    member (codes "env")
      (object (
        member (codes "A") (string (codes "1"))
          (member (codes "B") (string (codes "3")) no_members)))
      (member (codes "user") (string (codes "root")) no_members))

merges : merge_manifest (λ json. some (object old)) new (codes "{}") ≡ ok merged
unfolding merge_manifest manifest_mcp_mono.AppManifest.carry_forward
    manifest_mcp_mono.AppManifest.merge_section manifest_mcp_mono.Common.same_text
merges = refl

names :
    get_service_names (
      object (
        member
          (codes "services")
          (object (member (codes "web") (object old) (member (codes "db") (object new) no_members)))
          no_members))
    ≡ codes "web" ∷ codes "db" ∷ []
unfolding get_service_names manifest_mcp_mono.Common.same_text
names = refl

new-IsDistinct : (s : Section) → IsDistinct (entries (section_key s) new)
unfolding manifest_mcp_mono.Common.same_text
new-IsDistinct env = (refl, tt)
new-IsDistinct ports = tt
new-IsDistinct labels = tt

old-IsDistinct : (s : Section) → IsDistinct (entries (section_key s) old)
unfolding manifest_mcp_mono.Common.same_text
old-IsDistinct env = (refl, (refl, tt))
old-IsDistinct ports = tt
old-IsDistinct labels = tt

merge_members-IsMerged_example : IsMerged new old (merge_members new old)
unfolding manifest_mcp_mono.Common.same_text
merge_members-IsMerged_example =
    merge_members-IsMerged new old (refl, (refl, tt)) new-IsDistinct old-IsDistinct

fits_update_iff_example :
    (assert_manifest_fits_update_request (123 ∷ 125 ∷ []) ≡ ok tt)
    ↔ (empty_update_envelope_bytes + base64_length 2 ≤ max_manifest_bytes)
fits_update_iff_example = fits_update_iff (123 ∷ 125 ∷ [])

integer_literal_fits_int64_iff_example :
    (integer_literal_fits_int64 (codes "-9223372036854775808") ≡ true) ↔ (
      decimal (digits_of (codes "-9223372036854775808"))
      ≤ int64_magnitude (codes "-9223372036854775808"))
unfolding manifest_mcp_mono.Common.all_digits
integer_literal_fits_int64_iff_example =
    integer_literal_fits_int64_iff (codes "-9223372036854775808") (inr (refl, omega arith))
