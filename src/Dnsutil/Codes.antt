-- ===== src/Dnsutil/Codes.antt =====
-- dnsutil.rs: record types and response codes by name.
use ferrumdns.Base.{
  ℕ, ◌-◌, ◌^◌, ◌||◌, Option, none, some, Text, codes, teq, to_ascii_uppercase, parse_unsigned,
  if◌then◌else◌,
}
use ferrumdns.Dns.Rcode
use ferrumdns.Dns.RecordType
use ferrumdns.Dns.{Hickory}

unfoldable pub qtype_from_str : Hickory → Text → Option ℕ
unfolding to_ascii_uppercase teq
qtype_from_str H s =
    let u = to_ascii_uppercase s in
    if teq u (codes "A")
    then some RecordType.a
    else if teq u (codes "AAAA")
    then some RecordType.aaaa
    else if teq u (codes "CNAME")
    then some RecordType.cname
    else if teq u (codes "MX")
    then some RecordType.mx
    else if teq u (codes "NS")
    then some RecordType.ns
    else if teq u (codes "PTR")
    then some RecordType.ptr
    else if teq u (codes "SOA")
    then some RecordType.soa
    else if teq u (codes "SRV")
    then some RecordType.srv
    else if teq u (codes "TXT")
    then some RecordType.txt
    else if teq u (codes "HTTPS")
    then some RecordType.https
    else if teq u (codes "SVCB")
    then some RecordType.svcb
    else if teq u (codes "ANY") || teq u (codes "*")
    then some RecordType.any
    else H.type_from_str u

-- The largest `u16` and `u32`.
abbrev pub max_u16 : ℕ
max_u16 = 2 ^ 16 - 1

abbrev pub max_u32 : ℕ
max_u32 = 2 ^ 32 - 1

unfoldable pub rcode_from_str : Text → ℕ
unfolding to_ascii_uppercase teq parse_unsigned
rcode_from_str s =
    let u = to_ascii_uppercase s in
    if teq u (codes "NOERROR") || teq u (codes "0")
    then Rcode.no_error
    else if teq u (codes "FORMERR") || teq u (codes "1")
    then Rcode.form_err
    else if teq u (codes "SERVFAIL") || teq u (codes "2")
    then Rcode.serv_fail
    else if teq u (codes "NXDOMAIN") || teq u (codes "3")
    then Rcode.nx_domain
    else if teq u (codes "NOTIMP") || teq u (codes "4")
    then Rcode.not_imp
    else if teq u (codes "REFUSED") || teq u (codes "5")
    then Rcode.refused
    else elim (parse_unsigned max_u16 u) [ some v ↦ v | none ↦ Rcode.refused ]
