-- ===== src/Actions/Redirect.antt =====
-- plugin/actions.rs: the plugins `black_hole` and `redirect`.
use ferrumdns.Base.{
  ℕ, Bool, ◌||◌, none, some, List, [], ◌∷◌, ◌++◌, Text, codes, teq, trim_end_by, to_ascii_lowercase,
  ends_with, split_whitespace, ◌==◌, if◌then◌else◌, Result, ok, err, ◌>>=◌, ok_or, config,
}
use ferrumdns.Context.Rebind.{rewrite_name}
use ferrumdns.Context.{QueryContext, reject, push_trace, qname_str}
use ferrumdns.Dns.Rcode
use ferrumdns.Dns.{Name, Hickory}
use ferrumdns.Dnsutil.Codes.{rcode_from_str}
use ferrumdns.Yaml.{Value, sequence, mapping, get, as_str, pairs, to_list, and_then}

-- `Blackhole::from_args`: the response code.
unfoldable pub blackhole_rcode : Value → ℕ
unfolding get rcode_from_str
blackhole_rcode args = elim (and_then (get (codes "rcode") args) as_str) [
  | none ↦ Rcode.nx_domain
  | some s ↦ rcode_from_str s
]

unfoldable pub blackhole : ℕ → QueryContext → QueryContext
unfolding reject
blackhole rcode ctx = reject ctx rcode

abbrev pub Rules : Type 0
Rules = List (Text × Name)

-- `trim_end_matches('.')` and lower case.
unfoldable pub bare_name : Text → Text
unfolding to_ascii_lowercase trim_end_by
bare_name s = to_ascii_lowercase (trim_end_by (λ c. c == b'.') s)

module _ (H : Hickory) where
  unfoldable pub add : Text → Text → Rules → Result Rules
  unfolding bare_name
  add from to rules = do
    source ← ok_or (H.from_ascii from) (config "bad redirect source")
    target ← ok_or (H.from_ascii to) (config "bad redirect target")
    ok (rules ++ (bare_name source, target) ∷ [])

  unfoldable pub add_pairs : List (Value × Value) → Rules → Result Rules
  unfolding add
  add_pairs [] rules = ok rules
  add_pairs ((k, v) ∷ es) rules = do
    from ← ok_or (as_str k) (config "redirect source must be a string")
    to ← ok_or (as_str v) (config "redirect target must be a string")
    rules' ← add from to rules
    add_pairs es rules'

  abbrev add_words : List Text → Rules → Result Rules
  add_words (from ∷ to ∷ []) rules = add from to rules
  add_words _ rules = err (config "redirect rule needs source and target")

  unfoldable pub add_items : List Value → Rules → Result Rules
  unfolding add split_whitespace
  add_items [] rules = ok rules
  add_items (v ∷ vs) rules = do
    s ← ok_or (as_str v) (config "redirect rule must be a string")
    rules' ← add_words (split_whitespace s) rules
    add_items vs rules'

  unfoldable pub from_args : Value → Result Rules
  unfolding add_pairs add_items get
  from_args args = elim (get (codes "rules") args) [
    | none ↦ ok []
    | some (mapping es) ↦ add_pairs (pairs es) []
    | some (sequence vs) ↦ add_items (to_list vs) []
    | some _ ↦ err (config "redirect rules must be a map or list")
  ]

  -- The test of a rule on the name that is asked for.
  unfoldable pub applies : Text → Text → Bool
  unfolding trim_end_by ends_with teq
  applies qn from' =
      let from = trim_end_by (λ c. c == b'.') from' in
      teq qn from || ends_with (codes "." ++ from) qn

  -- The loop of `exec`: the first rule that applies.
  unfoldable pub redirect_by : Rules → Text → QueryContext → QueryContext
  unfolding applies rewrite_name push_trace
  redirect_by [] qn ctx = ctx
  redirect_by ((from, to) ∷ rules) qn ctx =
      let later = redirect_by rules qn ctx in
      if applies qn from
      then push_trace (rewrite_name H ctx to) (codes "redirect") (codes "rewrite")
          (qn ++ (codes " -> " ++ to))
      else later

  unfoldable pub redirect : Rules → QueryContext → QueryContext
  unfolding redirect_by qname_str bare_name
  redirect rules ctx = redirect_by rules (bare_name (qname_str ctx)) ctx
