-- ===== src/Actions.antt =====
-- plugin/actions.rs: the steps that a sequence has built in, and the plugins `black_hole` and
-- `redirect`.
pub mod Redirect
pub mod Bounds
use ferrumdns.Base.{
  ℕ, Bool, true, false, not, ◌||◌, Option, none, some, List, [], ◌∷◌, ◌++◌, Text, codes, teq, trim,
  trim_start_by, split_whitespace, split_once, parse_unsigned, decimal, ◌==◌, ltb, if◌then◌else◌,
  Result, ok, err, ◌>>=◌, ok_or, config, String,
}
use ferrumdns.Context.Answers.{apply_ttl_clamp, prefer_ipv4, prefer_ipv6}
use ferrumdns.Context.{QueryContext, reject, drop_response, add_mark}
use ferrumdns.Dns.{Hickory}
use ferrumdns.Dnsutil.Codes.{rcode_from_str, max_u32}
use ferrumdns.Dnsutil.{remove_ecs}
use ferrumdns.Plugin.{Action}

pub data Builtin : Type 0 where
  accept return drop_resp prefer_v4 prefer_v6 no_ecs : Builtin
  reject_with mark : ℕ → Builtin
  ttl : ℕ → ℕ → Builtin
  goto : Text → Builtin

-- `parse::<u32>()` with the error of its place.
abbrev pub parse_u32 : Text → String → Result ℕ
parse_u32 s message = ok_or (parse_unsigned max_u32 s) (config message)

unfoldable pub parse_ttl_range : Text → Result (ℕ × ℕ)
unfolding split_once trim parse_unsigned
parse_ttl_range spec = elim (split_once b'-' spec) [
  | some (a, b) ↦ do
    lo ← parse_u32 (trim a) "bad ttl minimum"
    hi ← parse_u32 (trim b) "bad ttl maximum"
    if ltb hi lo then err (config "ttl minimum must not exceed maximum") else ok (lo, hi)
  | none ↦ do v ← parse_u32 spec "bad ttl"; ok (v, v)
]

abbrev pub head_or : Text → List Text → Text
head_or d [] = d
head_or d (w ∷ ws) = w

abbrev pub tail_words : List Text → List Text
tail_words [] = []
tail_words (w ∷ ws) = ws

-- `parts.next().ok_or_else(…)`.
abbrev pub next_word : List Text → String → Result Text
next_word [] message = err (config message)
next_word (w ∷ ws) message = ok w

-- `trim_start_matches('$')`.
abbrev pub trim_dollar : Text → Text
trim_dollar s = trim_start_by (λ c. c == b'$') s

unfoldable pub parse : Text → Result Builtin
unfolding trim split_whitespace teq rcode_from_str parse_ttl_range parse_unsigned trim_start_by
parse s =
    let words = split_whitespace (trim s) in
    let head = head_or [] words in
    let rest = tail_words words in
    if teq head (codes "accept")
    then ok accept
    else if teq head (codes "return")
    then ok return
    else if teq head (codes "drop_resp") || teq head (codes "drop")
    then ok drop_resp
    else if teq head (codes "prefer_ipv4")
    then ok prefer_v4
    else if teq head (codes "prefer_ipv6")
    then ok prefer_v6
    else if teq head (codes "reject")
    then ok (reject_with (rcode_from_str (head_or (codes "REFUSED") rest)))
    else if teq head (codes "ttl")
    then (do
      spec ← next_word rest "ttl needs a value or range"
      (lo, hi) ← parse_ttl_range spec
      ok (ttl lo hi))
    else if teq head (codes "mark")
    then (do n ← parse_u32 (head_or (codes "0") rest) "bad mark"; ok (mark n))
    else if teq head (codes "goto") || teq head (codes "jump")
    then (do tag ← next_word rest "goto needs a tag"; ok (goto (trim_dollar tag)))
    else if teq head (codes "no_ecs") || teq head (codes "_no_ecs")
    then ok no_ecs
    else err (config "unknown builtin exec")

unfoldable pub label : Hickory → Builtin → Text
label H accept = codes "accept"
label H return = codes "return"
label H (reject_with c) = codes "reject " ++ H.rcode_text c
label H drop_resp = codes "drop_resp"
label H (ttl lo hi) = codes "ttl " ++ (decimal lo ++ (codes "-" ++ decimal hi))
label H prefer_v4 = codes "prefer_ipv4"
label H prefer_v6 = codes "prefer_ipv6"
label H (mark m) = codes "mark " ++ decimal m
label H (goto t) = codes "goto " ++ t
label H no_ecs = codes "no_ecs"

-- The result, and the context after it.
unfoldable pub apply : Builtin → QueryContext → Result Action × QueryContext
unfolding reject drop_response apply_ttl_clamp prefer_ipv4 prefer_ipv6 add_mark remove_ecs
apply accept ctx = (ok Action.accept, ctx)
apply return ctx = (ok Action.return, ctx)
apply (reject_with c) ctx = (ok Action.accept, reject ctx c)
apply drop_resp ctx = (ok Action.continue, drop_response ctx)
apply (ttl lo hi) ctx =
    if ltb hi lo
    then (err (config "ttl minimum must not exceed maximum"), ctx)
    else (ok Action.continue, apply_ttl_clamp ctx lo hi)
apply prefer_v4 ctx = (ok Action.continue, prefer_ipv4 ctx)
apply prefer_v6 ctx = (ok Action.continue, prefer_ipv6 ctx)
apply (mark m) ctx = (ok Action.continue, add_mark ctx m)
apply (goto t) ctx = (ok (Action.goto t), ctx)
apply no_ecs ctx =
    (ok Action.continue, record ctx { query = remove_ecs ctx.query; strip_ecs_on_reply = true })
