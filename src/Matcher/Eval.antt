-- ===== src/Matcher/Eval.antt =====
-- matcher.rs: address sets, and the matchers of a step on the context of a query.
use ferrumdns.Base.{
  ℕ, Bool, true, false, not, Option, none, some, List, [], ◌∷◌, ◌++◌, Text, codes, trim,
  contains_text, ◌==◌, any, if◌then◌else◌, Result, ok, ◌>>=◌, ok_or, config,
}
use ferrumdns.Config.Paths.{resolve_path}
use ferrumdns.Context.Answers.{answer_ips, has_wanted_ans}
use ferrumdns.Context.{QueryContext, has_resp, has_mark, qname_str, qtype}
use ferrumdns.Dns.{Ip, v4, v6}
use ferrumdns.Dnsutil.{ecs_of}
use ferrumdns.Ecs.Address.{Networks}
use ferrumdns.Matcher.DomainSet
use ferrumdns.Matcher.DomainSet.{DomainSet, Regexes, is_comment, lines}
use ferrumdns.Yaml.{Value, items, as_str, get}

abbrev pub IpSet : Type 0
IpSet = List (Ip × ℕ)

-- `IpNet::from(ip)`: the network of the address alone.
abbrev pub full_prefix : Ip → Ip × ℕ
full_prefix (v4 n) = (v4 n, 32)
full_prefix (v6 n) = (v6 n, 128)

module _ (N : Networks) where
  unfoldable pub add : Text → IpSet → Result IpSet
  unfolding trim contains_text
  add raw' nets =
      let raw = trim raw' in
      if contains_text (codes "/") raw
      then (do net ← ok_or (N.parse_net raw) (config "bad cidr"); ok (nets ++ net ∷ []))
      else (do ip ← ok_or (N.parse_ip raw) (config "bad ip"); ok (nets ++ full_prefix ip ∷ []))

  unfoldable pub load_lines : List Text → IpSet → Result IpSet
  unfolding add
  load_lines [] nets = ok nets
  load_lines (l ∷ ls) nets =
      let line = trim l in
      let skip = load_lines ls nets in
      let next = add line nets >>= load_lines ls in if is_comment line then skip else next

  unfoldable pub load_file : (Text → Option Text) → Text → IpSet → Result IpSet
  unfolding load_lines lines
  load_file read path nets = do
    text ← ok_or (read path) (config "ip_set file")
    load_lines (lines text) nets

  unfoldable pub add_values : List Value → IpSet → Result IpSet
  unfolding add
  add_values [] nets = ok nets
  add_values (v ∷ vs) nets = do
    nets' ← elim (as_str v) [ none ↦ ok nets | some s ↦ add s nets ]
    add_values vs nets'

  unfoldable pub load_files : (Text → Option Text) → Text → List Value → IpSet → Result IpSet
  unfolding load_file resolve_path
  load_files read base [] nets = ok nets
  load_files read base (v ∷ vs) nets = do
    nets' ← elim (as_str v) [ none ↦ ok nets | some p ↦ load_file read (resolve_path base p) nets ]
    load_files read base vs nets'

  unfoldable pub from_args : (Text → Option Text) → Value → Text → Result IpSet
  unfolding add_values load_files get
  from_args read args base = do
    nets ← add_values (items (codes "exps") args) []
    load_files read base (items (codes "files") args) nets

  unfoldable pub contains : Ip → IpSet → Bool
  contains ip nets = any (λ n. N.net_contains n ip) nets

-- A set is shared with the registry and never changes after loading, so a matcher holds its value.
pub data Matcher : Type 0 where
  qname : DomainSet → Matcher
  qtype_in : List ℕ → Matcher
  client_ip resp_ip : IpSet → Matcher
  has_response has_wanted has_ecs : Matcher
  rcode mark : ℕ → Matcher
  neg : Matcher → Matcher

module _ (R : Regexes) (N : Networks) where
  unfoldable pub matches : Matcher → QueryContext → Bool
  unfolding DomainSet.contains contains answer_ips has_wanted_ans has_mark qname_str qtype ecs_of
  matches (qname set) ctx = DomainSet.contains R (qname_str ctx) set
  matches (qtype_in types) ctx = any (λ t. t == qtype ctx) types
  matches (client_ip set) ctx = elim ctx.client_addr [ none ↦ false | some ip ↦ contains N ip set ]
  matches (resp_ip set) ctx = any (λ ip. contains N ip set) (answer_ips ctx)
  matches has_response ctx = has_resp ctx
  matches has_wanted ctx = has_wanted_ans ctx
  matches (rcode code) ctx = elim ctx.response [ none ↦ false | some r ↦ r.response_code == code ]
  matches (mark m) ctx = has_mark ctx m
  matches has_ecs ctx = elim (ecs_of ctx.query) [ none ↦ false | some _ ↦ true ]
  matches (neg inner) ctx = not (matches inner ctx)
