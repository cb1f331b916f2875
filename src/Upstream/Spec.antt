-- ===== src/Upstream/Spec.antt =====
-- upstream.rs: the settings of an upstream.
use ferrumdns.Base.{
  ℕ, Bool, false, Option, none, some, Text, codes, Result, ok, ◌>>=◌, ok_or, config,
}
use ferrumdns.Yaml.{Value, get, as_str, as_u64, as_bool, and_then, or_else, unwrap_or}

-- The idle timeout is in seconds.
pub record UpstreamSpec : Type 0 where
  pub addr : Text
  pub dial_addr : Option Text
  pub bootstrap : Option Text
  pub idle_timeout : ℕ
  pub insecure : Bool
  pub tag : Option Text

unfoldable pub from_value : Value → Result UpstreamSpec
unfolding get
from_value v = elim (as_str v) [
  | some s ↦ ok (record {
    addr = s;
    dial_addr = none;
    bootstrap = none;
    idle_timeout = 10;
    insecure = false;
    tag = none;
  })
  | none ↦ do
    addr ← ok_or (and_then (get (codes "addr") v) as_str) (config "upstream missing addr")
    ok (record {
      addr = addr;
      dial_addr = and_then (get (codes "dial_addr") v) as_str;
      bootstrap = and_then (get (codes "bootstrap") v) as_str;
      idle_timeout = unwrap_or (and_then (get (codes "idle_timeout") v) as_u64) 10;
      insecure =
          unwrap_or
            (and_then (or_else (get (codes "insecure_skip_verify") v) (get (codes "insecure") v))
              as_bool)
            false;
      tag = and_then (get (codes "tag") v) as_str;
    })
]

abbrev pub label : UpstreamSpec → Text
label spec = unwrap_or spec.tag spec.addr
