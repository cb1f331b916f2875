-- ===== src/Hosts.antt =====
-- plugin/hosts.rs: local names.
pub mod Table
use ferrumdns.Base.{
  ℕ, ◌^◌, ◌%◌, Bool, true, false, not, ◌||◌, Option, none, some, List, [], ◌∷◌, ◌++◌, Text, codes,
  teq, trim, trim_end_by, to_ascii_lowercase, split_on, split_whitespace, filter_map, is_empty,
  first, ◌==◌, if◌then◌else◌, Result, ok, err, ◌>>=◌, ok_or, config,
}
use ferrumdns.Actions.{head_or, tail_words}
use ferrumdns.Config.Paths.{resolve_path}
use ferrumdns.Context.Answers.{build_hosts_response}
use ferrumdns.Context.{QueryContext, push_trace, set_response, qname_str, qtype}
use ferrumdns.Dns.RecordType
use ferrumdns.Dns.{Ip, v4, v6, Name, Record, Hickory}
use ferrumdns.Dnsutil.{record_a, record_aaaa}
use ferrumdns.Ecs.Address.{Networks}
use ferrumdns.Matcher.DomainSet.{is_comment, lines}
use ferrumdns.Yaml.{Value, items, get, as_str, as_u64, as_mapping, and_then, unwrap_or}

-- Names in lower case without the last dot, each with its addresses.
abbrev pub HostTable : Type 0
HostTable = List (Text × List Ip)

pub record Hosts : Type 0 where
  pub tag : Text
  pub table : HostTable
  pub ttl : ℕ

unfoldable pub host_key : Text → Text
unfolding to_ascii_lowercase trim_end_by
host_key n = to_ascii_lowercase (trim_end_by (λ c. c == b'.') n)

unfoldable pub find_host : Text → HostTable → Option (List Ip)
find_host key [] = none
find_host key ((k, ips) ∷ t) = if teq k key then some ips else find_host key t

-- `entry(key).or_default().push(…)`.
unfoldable pub push_host : Text → Ip → HostTable → HostTable
push_host key ip [] = (key, ip ∷ []) ∷ []
push_host key ip ((k, ips) ∷ t) =
    let rest = push_host key ip t in if teq k key then (k, ips ++ ip ∷ []) ∷ t else (k, ips) ∷ rest

module _ (H : Hickory) (N : Networks) where
  -- The loop over the names of a line.
  unfoldable pub add_names : List Text → Ip → HostTable → Result HostTable
  unfolding host_key push_host
  add_names [] ip t = ok t
  add_names (n ∷ ns) ip t = elim (H.from_ascii n) [
    | none ↦ err (config "bad hostname in hosts")
    | some _ ↦ add_names ns ip (push_host (host_key n) ip t)
  ]

  abbrev pub add_line_names : List Text → Ip → HostTable → Result HostTable
  add_line_names [] ip t = err (config "hosts line needs a hostname")
  add_line_names (n ∷ ns) ip t = add_names (n ∷ ns) ip t

  -- `name ip`.
  abbrev pub name_first : Text → List Text → HostTable → Result HostTable
  name_first name (word ∷ []) t = elim (N.parse_ip word) [
    | none ↦ err (config "bad hosts line")
    | some ip ↦ add_line_names (name ∷ []) ip t
  ]
  name_first name _ t = err (config "bad hosts line")

  unfoldable pub parse_hosts_line : Text → HostTable → Result HostTable
  unfolding add_names trim split_on split_whitespace
  parse_hosts_line line' t =
      let line = trim (head_or [] (split_on b'#' line')) in
      let words = split_whitespace line in
      if is_comment line then ok t else elim (N.parse_ip (head_or [] words)) [
        | some ip ↦ add_line_names (tail_words words) ip t
        | none ↦ name_first (head_or [] words) (tail_words words) t
      ]

  unfoldable pub parse_lines : List Text → HostTable → Result HostTable
  unfolding parse_hosts_line
  parse_lines [] t = ok t
  parse_lines (l ∷ ls) t = do t' ← parse_hosts_line l t; parse_lines ls t'

  abbrev load_file : (Text → Option Text) → Text → HostTable → Result HostTable
  load_file read path t = do
    text ← ok_or (read path) (config "hosts file")
    parse_lines (lines text) t

  unfoldable pub load_files :
      (Text → Option Text) → Text → List Value → HostTable → Result HostTable
  unfolding parse_lines lines resolve_path
  load_files read base [] t = ok t
  load_files read base (v ∷ vs) t = do
    t' ← elim (as_str v) [ none ↦ ok t | some p ↦ load_file read (resolve_path base p) t ]
    load_files read base vs t'

  -- The form `name: ip` of a mapping.
  abbrev pair_line : Value × Value → Option Text
  pair_line (k, v) = elim (as_str k) [
    | none ↦ none
    | some name ↦ elim (as_str v) [ none ↦ none | some ip ↦ some (ip ++ (codes " " ++ name)) ]
  ]

  unfoldable pub from_args : Text → (Text → Option Text) → Value → Text → Result Hosts
  unfolding parse_lines load_files get
  from_args tag read args base = do
    t ← parse_lines (filter_map as_str (items (codes "entries") args)) []
    t' ← load_files read base (items (codes "files") args) t
    t'' ←
        parse_lines
          (filter_map pair_line (unwrap_or (and_then (get (codes "hosts") args) as_mapping) [])) t'
    ok (record {
      tag = tag;
      table = t'';
      ttl = unwrap_or (and_then (get (codes "ttl") args) as_u64) 60 % 2 ^ 32;
    })

-- The record of an address, if the type asks for it.
unfoldable pub host_record : Name → ℕ → ℕ → Ip → Option Record
unfolding record_a record_aaaa
host_record n t qt (v4 ip) =
    if qt == RecordType.a
    then some (record_a n t ip)
    else if qt == RecordType.aaaa
    then none
    else if qt == RecordType.any
    then some (record_a n t ip)
    else none
host_record n t qt (v6 ip) =
    if qt == RecordType.aaaa
    then some (record_aaaa n t ip)
    else if qt == RecordType.a
    then none
    else if qt == RecordType.any
    then some (record_aaaa n t ip)
    else none

module _ (H : Hickory) (h : Hosts) where
  unfoldable pub lookup : Text → ℕ → List Record
  unfolding host_key find_host host_record
  lookup name qt = elim (find_host (host_key name) h.table) [
    | none ↦ []
    | some ips ↦ elim (H.from_str (host_key name ++ codes ".")) [
      | none ↦ []
      | some n ↦ filter_map (host_record n h.ttl qt) ips
    ]
  ]

  unfoldable pub known_name : Text → Bool
  unfolding host_key find_host
  known_name name = elim (find_host (host_key name) h.table) [ none ↦ false | some _ ↦ true ]

  unfoldable pub exec : QueryContext → QueryContext
  unfolding lookup known_name push_trace set_response build_hosts_response qname_str qtype
  exec ctx =
      let name = qname_str ctx in
      let recs = lookup name (qtype ctx) in
      if not (is_empty recs)
      then set_response (push_trace ctx h.tag (codes "hit") name)
          (build_hosts_response ctx.query recs)
      else if known_name name
      then set_response (push_trace ctx h.tag (codes "nodata") name)
          (build_hosts_response ctx.query [])
      else ctx
