-- ===== src/Forward/Setup.antt =====
-- plugin/forward.rs: a forwarder made from its arguments.
use ferrumdns.Base.{
  ℕ, max, Bool, none, some, List, [], ◌∷◌, map, map_result, Text, codes, is_empty, if◌then◌else◌,
  Result, ok, err, ◌>>=◌, ok_or, config,
}
use ferrumdns.Forward.{Forward}
use ferrumdns.Upstream.Connect.{Upstream, connect}
use ferrumdns.Upstream.Spec.{UpstreamSpec, from_value, label}
use ferrumdns.Yaml.{Value, get, as_sequence, as_u64, and_then, or_else, unwrap_or}

-- The settings with the upstreams themselves; the timeout is in milliseconds.
pub record Connected (C S : Type 0) : Type 0 where
  pub forward : Forward
  pub connections : List (Upstream C S)
  pub timeout : ℕ

abbrev one_or_more : Value → List Value
one_or_more v = elim (as_sequence v) [ none ↦ v ∷ [] | some vs ↦ vs ]

module _ {C S : Type 0} (builds : UpstreamSpec → Bool) where
  abbrev connect_value : Value → Result (Upstream C S)
  connect_value v = do spec ← from_value v; connect builds spec

  abbrev connect_all : Text → List Value → Result (List (Upstream C S))
  connect_all tag vs =
      if is_empty vs
      then err (config "forward has empty upstreams")
      else map_result connect_value vs

  unfoldable pub from_args : Text → Value → Result (Connected C S)
  unfolding get from_value connect
  from_args tag args = do
    list ←
        ok_or (or_else (get (codes "upstreams") args) (get (codes "upstream") args))
          (config "forward has no upstreams")
    upstreams ← connect_all tag (one_or_more list)
    ok (record {
      forward = record {
        tag = tag;
        upstreams = map (λ (u : Upstream C S). label u.spec) upstreams;
        concurrent = max (unwrap_or (and_then (get (codes "concurrent") args) as_u64) 1) 1;
      };
      connections = upstreams;
      timeout = max (unwrap_or (and_then (get (codes "timeout") args) as_u64) 5000) 1;
    })
