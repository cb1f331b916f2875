-- ===== src/Dnsutil/Spec.antt =====
-- dnsutil.rs: a client subnet that is written in a text.
use ferrumdns.Base.{
  ℕ, none, some, Text, split_once, trim, parse_unsigned, if◌then◌else◌, Result, ok, ◌>>=◌, ok_or,
  config,
}
use ferrumdns.Dns.{Ip, ClientSubnet}
use ferrumdns.Ecs.Address.{Networks, is_ipv4, masked}
use ferrumdns.Net.{parse_ip}

abbrev subnet_in : Ip × ℕ → ClientSubnet
subnet_in (net, prefix) = record { addr = net; source_prefix = prefix; scope_prefix = 0 }

-- An address with a prefix of eight bits, or an address alone.
unfoldable pub parse_ecs_spec : Networks → Text → Result ClientSubnet
unfolding trim split_once parse_ip parse_unsigned masked
parse_ecs_spec N s = elim (split_once b'/' (trim s)) [
  | some (a, p) ↦ do
    ip ← ok_or (parse_ip a) (config "bad ecs addr")
    prefix ← ok_or (parse_unsigned 255 p) (config "bad ecs prefix")
    ok (subnet_in (masked N ip prefix))
  | none ↦ do
    ip ← ok_or (parse_ip (trim s)) (config "bad ecs addr")
    ok (subnet_in (masked N ip (if is_ipv4 ip then 24 else 48)))
]
