-- ===== src/Ecs/Attach.antt =====
-- plugin/ecs.rs: the plugins `ecs` and `no_ecs`.
use ferrumdns.Base.{
  ℕ, Bool, true, false, not, ◌&&◌, Option, none, some, ◌++◌, Text, codes, ◌==◌, decimal,
  if◌then◌else◌, Result, ok, err, ◌>>=◌, config,
}
use ferrumdns.Context.{QueryContext, push_trace, qtype}
use ferrumdns.Dns.RecordType
use ferrumdns.Dns.{Ip, v4, v6, Hickory}
use ferrumdns.Dnsutil.{ecs_of, set_ecs, remove_ecs, ecs_label}
use ferrumdns.Ecs.Address.{Networks, is_ipv4, is_public_ip, masked, parse_mask}
use ferrumdns.Yaml.{Value, get, as_str, as_bool, and_then, unwrap_or}

pub record Ecs : Type 0 where
  pub tag : Text
  pub auto : Bool
  pub ipv4 : Option ℕ
  pub ipv6 : Option ℕ
  pub force_overwrite : Bool
  pub mask4 : ℕ
  pub mask6 : ℕ

abbrev pub is_some {ℓ} : {A : Type ℓ} → Option A → Bool
is_some none = false
is_some (some a) = true

-- An address of one family that a setting gives, if it gives one.
abbrev address : (Text → Option ℕ) → Option Text → Result (Option ℕ)
address parse none = ok none
address parse (some s) = elim (parse s) [ none ↦ err (config "ecs address") | some n ↦ ok (some n) ]

module _ (N : Networks) where
  -- `parse::<Ipv4Addr>()` and `parse::<Ipv6Addr>()`.
  abbrev parse_v4 : Text → Option ℕ
  parse_v4 s = elim (N.parse_ip s) [ some (v4 n) ↦ some n | _ ↦ none ]

  abbrev parse_v6 : Text → Option ℕ
  parse_v6 s = elim (N.parse_ip s) [ some (v6 n) ↦ some n | _ ↦ none ]

  unfoldable pub from_args : Text → Value → Result Ecs
  unfolding parse_mask get
  from_args tag args = do
    let auto = unwrap_or (and_then (get (codes "auto") args) as_bool) false
    ipv4 ← address parse_v4 (and_then (get (codes "ipv4") args) as_str)
    ipv6 ← address parse_v6 (and_then (get (codes "ipv6") args) as_str)
    (if not auto && not (is_some ipv4) && not (is_some ipv6)
        then err (config "ecs plugin needs `ipv4`/`ipv6` or `auto: true`")
        else (do
          mask4 ← parse_mask args (codes "mask4") 24 32
          mask6 ← parse_mask args (codes "mask6") 48 128
          ok (record {
            tag = tag;
            auto = auto;
            ipv4 = ipv4;
            ipv6 = ipv6;
            force_overwrite =
                unwrap_or (and_then (get (codes "force_overwrite") args) as_bool) false;
            mask4 = mask4;
            mask6 = mask6;
          })))

-- The first of two addresses that is there.
abbrev first_of_two : Option (Ip × ℕ) → Option (Ip × ℕ) → Option (Ip × ℕ)
first_of_two none b = b
first_of_two (some a) b = some a

abbrev with_mask4 : Ecs → Option (Ip × ℕ)
with_mask4 e = elim e.ipv4 [ none ↦ none | some n ↦ some (v4 n, e.mask4) ]

abbrev with_mask6 : Ecs → Option (Ip × ℕ)
with_mask6 e = elim e.ipv6 [ none ↦ none | some n ↦ some (v6 n, e.mask6) ]

unfoldable pub pick : Ecs → QueryContext → Option (Ip × ℕ)
unfolding is_public_ip qtype
pick e ctx =
    if e.auto
    then elim ctx.client_addr [
      | none ↦ none
      | some ip ↦
          if not (is_public_ip ip) then none else some (ip, if is_ipv4 ip then e.mask4 else e.mask6)
    ]
    else if not (qtype ctx == RecordType.aaaa)
    then first_of_two (with_mask4 e) (with_mask6 e)
    else first_of_two (with_mask6 e) (with_mask4 e)

module _ (H : Hickory) (N : Networks) where
  -- `attach`, after a network is picked; `strip` says that the client sent no subnet.
  unfoldable pub attach : Ecs → QueryContext → Bool → Ip × ℕ → QueryContext
  unfolding masked set_ecs push_trace
  attach e ctx strip (ip, mask) =
      let (net, mask') = masked N ip mask in
      let ctx' = record ctx {
        strip_ecs_on_reply = if strip then true else ctx.strip_ecs_on_reply;
        query =
            set_ecs H ctx.query (record { addr = net; source_prefix = mask'; scope_prefix = 0 });
      } in
      push_trace ctx' e.tag (codes "attach") (H.ip_text net ++ (codes "/" ++ decimal mask'))

  unfoldable pub exec : Ecs → QueryContext → QueryContext
  unfolding ecs_of ecs_label pick attach push_trace
  exec e ctx =
      let existing = ecs_of ctx.query in
      if is_some existing && not e.force_overwrite
      then push_trace ctx e.tag (codes "keep") (ecs_label H existing)
      else elim (pick e ctx) [
        | none ↦ push_trace ctx e.tag (codes "skip") (codes "no public address")
        | some picked ↦ attach e ctx (not (is_some existing)) picked
      ]

unfoldable pub exec_no_ecs : Text → QueryContext → QueryContext
unfolding remove_ecs push_trace
exec_no_ecs tag ctx =
    push_trace (record ctx { query = remove_ecs ctx.query; strip_ecs_on_reply = true }) tag
      (codes "strip") (codes "query")
