-- ===== src/Ssrf/Tests.antt =====
-- The policy over a small table of addresses.
use manifest_mcp_mono.Common.{
  ◌≡◌, ◌↔◌, refl, Bool, true, false, Option, none, some, String, str_eq, is_some, if◌then◌else◌,
}
use manifest_mcp_mono.Ssrf.{
  Kind, ipv4, ipv6, IpAddr, BlockedRange, allowed, blocked, unparseable, is_blocked,
}
use manifest_mcp_mono.Ssrf.AllowList.{JudgedBy, allowed_iff}

-- 8.8.8.8, 127.0.0.1, the mapped form of the latter, and a 6to4 address.
data Sample : Type 0 where
  dns loopback mapped sixtofour : Sample

parse_sample : String → Option Sample
parse_sample s =
    if str_eq s "8.8.8.8"
    then some dns
    else if str_eq s "127.0.0.1"
    then some loopback
    else if str_eq s "::ffff:127.0.0.1"
    then some mapped
    else if str_eq s "2002:7f00::1"
    then some sixtofour
    else none

kind_of : Sample → Kind
kind_of dns = ipv4
kind_of loopback = ipv4
kind_of mapped = ipv6
kind_of sixtofour = ipv6

is_mapped : Sample → Bool
is_mapped mapped = true
is_mapped _ = false

to_ipv4 : Sample → Sample
to_ipv4 dns = dns
to_ipv4 _ = loopback

range_of : Sample → String
range_of dns = "unicast"
range_of loopback = "loopback"
range_of mapped = "ipv4Mapped"
range_of sixtofour = "6to4"

to_ipv4-kind : (a : Sample) → kind_of (to_ipv4 a) ≡ ipv4
unfolding kind_of to_ipv4
to_ipv4-kind dns = refl
to_ipv4-kind _ = refl

abbrev samples : IpAddr
samples = record {
  Address = Sample;
  parse = parse_sample;
  kind = kind_of;
  is_ipv4_mapped_address = is_mapped;
  to_ipv4_address = to_ipv4;
  range = range_of;
  is_valid = λ s. is_some (parse_sample s);
  to_ipv4_address-kind = to_ipv4-kind;
  is_valid-parse = λ s. refl;
}

abbrev six_to_four : BlockedRange
six_to_four = record { range = "6to4"; rfc = "ipaddr.js classification (default-deny non-unicast)" }

verdicts :
    (is_blocked samples "8.8.8.8" ≡ allowed)
    × (is_blocked samples "2002:7f00::1" ≡ blocked six_to_four)
    × (is_blocked samples "::ffff:127.0.0.1"
        ≡ blocked (record { range = "loopback"; rfc = "RFC 5735 — 127/8 (loopback)" }))
    × (is_blocked samples "example.com" ≡ unparseable)
unfolding is_blocked parse_sample kind_of is_mapped to_ipv4 range_of
verdicts = (refl, refl, refl, refl)

allowed_iff_example : (is_blocked samples "::ffff:127.0.0.1" ≡ allowed) ↔ (
    (a : Sample) × (b : Sample) × (parse_sample "::ffff:127.0.0.1" ≡ some a)
    × JudgedBy samples a b
    × (range_of b ≡ "unicast"))
allowed_iff_example = allowed_iff samples "::ffff:127.0.0.1"
