-- ===== src/Sequence.antt =====
-- plugin/sequence.rs: the steps of a sequence as they are written, and as they are compiled.
pub mod Run
pub mod Calls
pub mod Deferred
pub mod Ends
use ferrumdns.Base.{
  ℕ, Bool, true, false, not, ◌||◌, Option, none, some, List, [], ◌∷◌, ◌++◌, Text, codes, teq, trim,
  trim_start_by, split_whitespace, strip_prefix, parse_unsigned, is_white, ◌==◌, filter_map,
  map_result, ◌&&◌, if◌then◌else◌, Error, Result, ok, err, ◌>>=◌, ok_or, config, unknown_tag,
}
use ferrumdns.Actions.{Builtin, parse, head_or, tail_words, next_word, trim_dollar}
use ferrumdns.Dns.{Ip, Hickory}
use ferrumdns.Dnsutil.Codes.{qtype_from_str, rcode_from_str, max_u32}
use ferrumdns.Matcher.DomainSet.{DomainSet}
use ferrumdns.Matcher.Eval.{
  IpSet, Matcher, qname, qtype_in, client_ip, resp_ip, has_response, has_wanted, has_ecs, rcode,
  mark, neg,
}
use ferrumdns.Yaml.{Value, string, mapping, sequence, find_key, pairs, to_list, as_str}

pub record RawStep : Type 0 where
  pub conditions : List Text
  pub exec : Text

pub data Exec : Type 0 where
  plugin : Text → Exec
  builtin : Builtin → Exec

pub record Step : Type 0 where
  pub matchers : List Matcher
  pub exec : Exec

pub record Sequence : Type 0 where
  pub tag : Text
  pub steps : List Step

abbrev text_of : Value → Result Text
text_of v = ok_or (as_str v) (config "sequence `matches` entries must be strings")

unfoldable pub conditions_of : Option Value → Result (List Text)
conditions_of none = ok []
conditions_of (some (string s)) = ok (s ∷ [])
conditions_of (some (sequence vs)) = map_result text_of (to_list vs)
conditions_of (some _) = err (config "sequence `matches` must be a string or a list of strings")

unfoldable pub raw_step : Value → Result RawStep
unfolding conditions_of find_key
raw_step (string s) = ok (record { conditions = []; exec = s })
raw_step (mapping es) = do
  exec ← elim (find_key (codes "exec") (pairs es)) [
    | none ↦ err (config "sequence step missing exec")
    | some v ↦ ok_or (as_str v) (config "sequence step missing exec")
  ]
  conditions ← conditions_of (find_key (codes "matches") (pairs es))
  ok (record { conditions = conditions; exec = exec })
raw_step _ = err (config "invalid sequence step")

unfoldable pub parse_steps : Value → Result (List RawStep)
unfolding raw_step
parse_steps (sequence vs) = map_result raw_step (to_list vs)
parse_steps other = map_result raw_step (other ∷ [])

unfoldable pub parse_exec : Text → Result Exec
unfolding trim strip_prefix parse
parse_exec s = elim (strip_prefix (codes "$") (trim s)) [
  | some tag ↦ ok (plugin tag)
  | none ↦ do b ← parse (trim s); ok (builtin b)
]

-- The sets of the registry.
pub record Sets : Type 0 where
  pub domains : Text → Option DomainSet
  pub ips : Text → Option IpSet

-- The loop that strips each `!` and the space after it, a character at a time; `after` says that
-- a `!` was met.
unfoldable pub strip_bangs : Bool → Bool → Text → Bool × Text
unfolding is_white
strip_bangs after negate [] = (negate, [])
strip_bangs after negate (c ∷ s) =
    let bang = strip_bangs true (not negate) s in
    let space = strip_bangs after negate s in
    if c == b'!' then bang else if after && is_white c then space else (negate, c ∷ s)

abbrev set_of {ℓ} : {A : Type ℓ} → (Text → Option A) → Text → Result A
set_of find tag' = let tag = trim_dollar tag' in ok_or (find tag) (unknown_tag tag)

abbrev number_or_zero : Text → ℕ
number_or_zero s = elim (parse_unsigned max_u32 s) [ none ↦ 0 | some n ↦ n ]

module _ (H : Hickory) (sets : Sets) where
  unfoldable pub bind_words : List Text → Result Matcher
  unfolding teq trim_start_by qtype_from_str rcode_from_str parse_unsigned
  bind_words words =
      let head = head_or [] words in
      let rest = tail_words words in
      if teq head (codes "has_resp")
      then ok has_response
      else if teq head (codes "has_wanted_ans")
      then ok has_wanted
      else if teq head (codes "qname")
      then (do
        tag ← next_word rest "qname matcher needs a domain_set tag"
        set ← set_of sets.domains tag
        ok (qname set))
      else if teq head (codes "qtype")
      then ok (qtype_in (filter_map (qtype_from_str H) rest))
      else if teq head (codes "client_ip")
      then (do
        tag ← next_word rest "client_ip matcher needs an ip_set tag"
        set ← set_of sets.ips tag
        ok (client_ip set))
      else if teq head (codes "resp_ip")
      then (do
        tag ← next_word rest "resp_ip matcher needs an ip_set tag"
        set ← set_of sets.ips tag
        ok (resp_ip set))
      else if teq head (codes "rcode")
      then ok (rcode (rcode_from_str (head_or (codes "NOERROR") rest)))
      else if teq head (codes "mark")
      then ok (mark (number_or_zero (head_or (codes "0") rest)))
      else if teq head (codes "ecs") || teq head (codes "has_ecs")
      then ok has_ecs
      else err (config "unknown matcher")

  unfoldable pub bind_matcher : Text → Result Matcher
  unfolding trim strip_bangs split_whitespace bind_words
  bind_matcher expr' =
      let (negate, expr) = strip_bangs false false (trim expr') in
      do matcher ← bind_words (split_whitespace expr); ok (if negate then neg matcher else matcher)

  abbrev compile_step : RawStep → Result Step
  compile_step r = do
    matchers ← map_result bind_matcher r.conditions
    exec ← parse_exec r.exec
    ok (record { matchers = matchers; exec = exec })

  unfoldable pub compile_steps : Text → List RawStep → Result Sequence
  unfolding bind_matcher parse_exec
  compile_steps tag raw = do
    steps ← map_result compile_step raw
    ok (record { tag = tag; steps = steps })
