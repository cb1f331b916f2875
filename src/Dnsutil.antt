-- ===== src/Dnsutil.antt =====
-- dnsutil.rs: the wire helpers, the checks on messages, TTLs and EDNS options.
pub mod Codes
pub mod Spec
pub mod Validation
pub mod Subnet
pub mod Ageing
use ferrumdns.Base.{
  Text, codes, decimal, ℕ, ◌-◌, min, Bool, true, false, not, ◌&&◌, ◌||◌, Option, none, some, List,
  [], ◌∷◌, ◌++◌, map, protocol, Result, ok, err, ◌>>=◌, ok_or, ◌==◌, leb, if◌then◌else◌, length,
  filter,
}
use ferrumdns.Dns.OpCode
use ferrumdns.Dns.Rcode
use ferrumdns.Dns.RecordType
use ferrumdns.Dns.{
  MessageType, class_in, subnet_code, Name, Rdata, Record, record_type, ClientSubnet, EdnsOption,
  Edns, Message, new_message, Hickory, questions_eq,
}

pub data Incoming : Type 0 where
  drop not_imp accept : Incoming

unfoldable pub classify_incoming : Message → Incoming
classify_incoming msg = elim msg.message_type [
  | MessageType.response ↦ drop
  | MessageType.query ↦ if msg.op_code == OpCode.query then accept else not_imp
]

abbrev pub is_response : Message → Bool
is_response msg = elim msg.message_type [ MessageType.response ↦ true | MessageType.query ↦ false ]

module _ (H : Hickory) where
  unfoldable pub decode : List ℕ → Result Message
  decode buf = ok_or (H.from_vec buf) (protocol "decode")

  unfoldable pub encode : Message → Result (List ℕ)
  encode msg = ok_or (H.to_vec msg) (protocol "encode")

  unfoldable pub take_response : Message → Message → Result Message
  unfolding questions_eq
  take_response q resp =
      if not (is_response resp)
      then err (protocol "upstream sent a query")
      else if not (resp.id == q.id)
      then err (protocol "id mismatch")
      else if not (resp.op_code == q.op_code)
      then err (protocol "opcode mismatch")
      else if not (questions_eq H resp.queries q.queries)
      then err (protocol "question mismatch")
      else ok resp

  unfoldable pub encode_udp : Message → ℕ → Result (List ℕ)
  unfolding encode
  encode_udp msg max_len = do
    bytes ← encode msg
    if leb (length bytes) max_len then ok bytes else encode (H.truncate msg)

unfoldable pub is_usable_response : Message → Bool
is_usable_response msg =
    is_response msg
    && not msg.truncated
    && not (
        msg.response_code == Rcode.serv_fail
        || msg.response_code == Rcode.form_err
        || msg.response_code == Rcode.not_imp
        || msg.response_code == Rcode.refused)

-- `map(max_payload).filter(n >= 512).unwrap_or(512).min(4096)`.
unfoldable pub udp_payload_max : Message → ℕ
udp_payload_max q = elim q.edns [
  | none ↦ min 512 4096
  | some e ↦ min (if leb 512 e.max_payload then e.max_payload else 512) 4096
]

unfoldable pub reply_skeleton : Message → ℕ → Message
reply_skeleton q rcode = record new_message {
  id = q.id;
  message_type = MessageType.response;
  op_code = q.op_code;
  recursion_desired = q.recursion_desired;
  recursion_available = true;
  response_code = rcode;
  queries = q.queries;
  edns = q.edns;
}

-- `map(ttl).min()` of the records.
unfoldable pub least_ttl : List Record → Option ℕ
least_ttl [] = none
least_ttl (r ∷ rs) = elim (least_ttl rs) [ none ↦ some r.ttl | some t ↦ some (min r.ttl t) ]

unfoldable pub min_ttl : Message → ℕ
unfolding least_ttl
min_ttl msg = elim (least_ttl (msg.answers ++ msg.name_servers)) [ none ↦ 0 | some t ↦ t ]

-- One step of `bump`; `-` on ℕ stops at 0, as `saturating_sub` does.
unfoldable pub decay : ℕ → Record → Record
decay elapsed r = if record_type r == RecordType.opt then r else record r { ttl = r.ttl - elapsed }

unfoldable pub subtract_ttl : Message → ℕ → Message
unfolding decay
subtract_ttl msg elapsed = record msg {
  answers = map (decay elapsed) msg.answers;
  name_servers = map (decay elapsed) msg.name_servers;
  additionals = map (decay elapsed) msg.additionals;
}

abbrev pub with_ttl : ℕ → Record → Record
with_ttl t r = record r { ttl = t }

unfoldable pub set_all_ttl : Message → ℕ → Message
set_all_ttl msg t = record msg {
  answers = map (with_ttl t) msg.answers;
  name_servers = map (with_ttl t) msg.name_servers;
}

-- `Record::from_rdata`.
abbrev pub from_rdata : Name → ℕ → Rdata → Record
from_rdata n t d = record { name = n; dns_class = class_in; ttl = t; rdata = d }

unfoldable pub record_a : Name → ℕ → ℕ → Record
record_a n t ip = from_rdata n t (Rdata.a ip)

unfoldable pub record_aaaa : Name → ℕ → ℕ → Record
record_aaaa n t ip = from_rdata n t (Rdata.aaaa ip)

unfoldable pub record_cname : Name → ℕ → Name → Record
record_cname n t target = from_rdata n t (Rdata.cname target)

-- `option(EdnsCode::Subnet)`, and the match on it.
unfoldable pub subnet_of : List (ℕ × EdnsOption) → Option ClientSubnet
subnet_of [] = none
subnet_of ((code, EdnsOption.subnet cs) ∷ os) =
    if code == subnet_code then some cs else subnet_of os
subnet_of ((code, EdnsOption.unknown bytes) ∷ os) =
    if code == subnet_code then none else subnet_of os

unfoldable pub ecs_of : Message → Option ClientSubnet
unfolding subnet_of
ecs_of msg = elim msg.edns [ none ↦ none | some e ↦ subnet_of e.options ]

-- `options_mut().remove(EdnsCode::Subnet)`.
abbrev pub is_other_option : ℕ × EdnsOption → Bool
is_other_option o = not (o.0 == subnet_code)

abbrev pub without_subnet : Edns → Edns
without_subnet e = record e { options = filter is_other_option e.options }

abbrev pub with_subnet : ClientSubnet → Edns → Edns
with_subnet cs e = record e {
  options = filter is_other_option e.options ++ (subnet_code, EdnsOption.subnet cs) ∷ [];
}

-- `Edns::new()` with the payload size set.
abbrev pub fresh_edns : Hickory → Edns
fresh_edns H = record { max_payload = H.payload 1232; version = 0; dnssec_ok = false; options = [] }

unfoldable pub set_ecs : Hickory → Message → ClientSubnet → Message
set_ecs H msg cs = record msg {
  edns = elim msg.edns [
    | none ↦ some (with_subnet cs (fresh_edns H))
    | some e ↦ some (with_subnet cs e)
  ];
}

unfoldable pub remove_ecs : Message → Message
remove_ecs msg = record msg {
  edns = elim msg.edns [ none ↦ none | some e ↦ some (without_subnet e) ];
}

unfoldable pub ecs_label : Hickory → Option ClientSubnet → Text
ecs_label H none = codes "-"
ecs_label H (some cs) = H.ip_text cs.addr ++ (codes "/" ++ decimal cs.source_prefix)

unfoldable pub ecs_cache_key : Hickory → Message → Text
unfolding ecs_of ecs_label
ecs_cache_key H msg = codes "ecs=" ++ ecs_label H (ecs_of msg)
