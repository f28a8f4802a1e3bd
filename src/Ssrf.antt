-- ===== src/Ssrf.antt =====
-- packages/core/src/internals/ssrf-classify.ts: which IP addresses a provider URL may reach. The
-- package ipaddr.js is outside the repository: its parser and its range tables are the parameter.
pub mod AllowList
pub mod Tests
use manifest_mcp_mono.Common.{
  ◌≡◌, Bool, true, false, List, [], ◌∷◌, Option, none, some, String, find, str_eq, is_some,
  if◌then◌else◌,
}

pub data Kind : Type 0 where
  ipv4 ipv6 : Kind

-- ipaddr.js. An IPv4-mapped address converts to an IPv4 address, and `isValid` tells what parses.
pub record IpAddr : Type 1 where
  pub Address : Type 0
  pub parse : String → Option Address
  pub kind : Address → Kind
  pub is_ipv4_mapped_address : Address → Bool
  pub to_ipv4_address : Address → Address
  pub range : Address → String
  pub is_valid : String → Bool
  pub to_ipv4_address-kind : (a : Address) → kind (to_ipv4_address a) ≡ ipv4
  pub is_valid-parse : (s : String) → is_valid s ≡ is_some (parse s)

pub record BlockedRange : Type 0 where
  pub range : String
  pub rfc : String

abbrev pub blocked_ranges_ipv4 : List BlockedRange
blocked_ranges_ipv4 =
    record { range = "unspecified"; rfc = "RFC 1122 §3.2.1.3 — 0.0.0.0/8 (this network / meta)" }
    ∷ record { range = "private"; rfc = "RFC 1918 — 10/8, 172.16/12, 192.168/16 (private)" }
    ∷ record { range = "loopback"; rfc = "RFC 5735 — 127/8 (loopback)" }
    ∷ record {
      range = "linkLocal";
      rfc = "RFC 3927 — 169.254/16 (link-local, incl. AWS/GCP/Azure metadata at 169.254.169.254)";
    }
    ∷ record { range = "carrierGradeNat"; rfc = "RFC 6598 — 100.64/10 (carrier-grade NAT)" }
    ∷ record { range = "broadcast"; rfc = "RFC 919 — 255.255.255.255 (limited broadcast)" }
    ∷ record { range = "multicast"; rfc = "RFC 5771 — 224/4 (multicast)" }
    ∷ record {
      range = "reserved";
      rfc = "RFC 1112 / 6890 — 240/4, 192.0.0/24, 198.18/15 etc. (reserved)";
    }
    ∷ []

abbrev pub blocked_ranges_ipv6 : List BlockedRange
blocked_ranges_ipv6 =
    record { range = "unspecified"; rfc = "RFC 4291 — :: (unspecified)" }
    ∷ record { range = "loopback"; rfc = "RFC 4291 — ::1/128 (loopback)" }
    ∷ record { range = "linkLocal"; rfc = "RFC 4291 — fe80::/10 (link-local)" }
    ∷ record { range = "uniqueLocal"; rfc = "RFC 4193 — fc00::/7 (unique local / private)" }
    ∷ record { range = "multicast"; rfc = "RFC 4291 — ff00::/8 (multicast)" }
    ∷ record { range = "reserved"; rfc = "RFC 4291 / 5156 — various reserved blocks" }
    ∷ []

abbrev pub default_deny : String
default_deny = "ipaddr.js classification (default-deny non-unicast)"

-- `null` is `allowed`; the exception on a text that does not parse is `unparseable`.
pub data Verdict : Type 0 where
  allowed : Verdict
  blocked : BlockedRange → Verdict
  unparseable : Verdict

abbrev pub ranges_of : Kind → List BlockedRange
ranges_of ipv4 = blocked_ranges_ipv4
ranges_of ipv6 = blocked_ranges_ipv6

abbrev pub describe : Kind → String → BlockedRange
describe k label = elim (find (λ r. str_eq r.range label) (ranges_of k)) [
  | some named ↦ named
  | none ↦ record { range = label; rfc = default_deny }
]

module _ (ip : IpAddr) where
  open ip use {Address, parse, kind, is_ipv4_mapped_address, to_ipv4_address, range, is_valid}

  -- An IPv4-mapped IPv6 address stands for its IPv4 address.
  pub normalize : Address → Address
  normalize a = elim (kind a) [
    | ipv4 ↦ a
    | ipv6 ↦ if is_ipv4_mapped_address a then to_ipv4_address a else a
  ]

  pub classify : Address → Verdict
  classify a = if str_eq (range a) "unicast" then allowed else blocked (describe (kind a) (range a))

  pub is_blocked : String → Verdict
  unfolding normalize classify
  is_blocked ip_string = elim (parse ip_string) [
    | none ↦ unparseable
    | some a ↦ classify (normalize a)
  ]

  pub is_ip_literal : String → Bool
  is_ip_literal host = is_valid host
