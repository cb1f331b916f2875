-- ===== src/Tests/Wire.antt =====
-- Runs of the theorems on messages, subnets, TTLs and addresses.
use ferrumdns.Base.{
  ℕ, ◌+◌, ◌*◌, ◌^◌, ◌≤◌, ◌≡◌, refl, true, false, not, none, some, [], ◌∷◌, codes, any, All, arith,
  ok, leb, ◌&&◌, Bool,
}
use ferrumdns.Actions.Bounds.{apply-parse_ttl_range}
use ferrumdns.Actions.{ttl, parse_ttl_range, apply}
use ferrumdns.Context.{QueryContext}
use ferrumdns.Dns.{v4, v6, ClientSubnet, Message}
use ferrumdns.Dnsutil.{encode_udp}
use ferrumdns.Ecs.Address.{is_public_ip}
use ferrumdns.Ecs.Attach.{Ecs}
use ferrumdns.Ecs.Privacy.{within, withheld, is_public_v4-withheld}
use ferrumdns.Plugin.{Action}
use ferrumdns.Server.Percent.Encoded.{percent_encode, percent_decode-percent_encode}
use ferrumdns.Server.Percent.{percent_decode}
use ferrumdns.Tests.Fixtures.{reply, crates, start, address, client}

-- The reply above does not fit, and is cut.
encode_udp_cut : encode_udp crates reply 1 ≡ ok (7 ∷ [])
unfolding encode_udp
encode_udp_cut = refl

abbrev subnet : ClientSubnet
subnet = record { addr = v4 16909056; source_prefix = 24; scope_prefix = 0 }

is_public_v4-withheld_example :
    (is_public_ip client ≡ not (any (within (134744072)) withheld))
    × (is_public_ip (v6 (0xffff * 2 ^ 32 + 134744072)) ≡ is_public_ip client)
is_public_v4-withheld_example = is_public_v4-withheld 134744072 (omega arith)

-- The automatic setting.
abbrev automatic : Ecs
automatic = record {
  tag = codes "ecs";
  auto = true;
  ipv4 = none;
  ipv6 = none;
  force_overwrite = false;
  mask4 = 24;
  mask6 = 48;
}

abbrev answered : QueryContext
answered = record start { response = some reply }

abbrev clamped : Message
clamped = record reply { answers = record address { ttl = 120 } ∷ [] }

apply-parse_ttl_range_example :
    ((apply (ttl 60 120) answered).0 ≡ ok Action.continue)
    × All (λ r. (60 ≤ r.ttl) × (r.ttl ≤ 120)) clamped.answers
    × All (λ r. (60 ≤ r.ttl) × (r.ttl ≤ 120)) clamped.name_servers
unfolding parse_ttl_range apply
apply-parse_ttl_range_example =
    apply-parse_ttl_range (codes "60-120") 60 120 answered clamped refl refl

-- Letters alone are kept.
abbrev keep_letters : ℕ → Bool
keep_letters c = leb b'a' c && leb c b'z'

percent_decode-percent_encode_example :
    percent_decode (percent_encode keep_letters (b'a' ∷ b'%' ∷ 255 ∷ [])) ≡ b'a' ∷ b'%' ∷ 255 ∷ []
percent_decode-percent_encode_example =
    percent_decode-percent_encode keep_letters (b'a' ∷ b'%' ∷ 255 ∷ []) refl
      (omega arith, (omega arith, (omega arith, tt)))

encoded : percent_encode keep_letters (b'a' ∷ b'%' ∷ 255 ∷ []) ≡ codes "a%25%FF"
unfolding percent_encode
encoded = refl
