-- ===== src/Upstream/Connect.antt =====
-- upstream.rs: `Upstream::connect`, which reads the address of an upstream.
use ferrumdns.Base.{
  ℕ, ◌*◌, ◌^◌, Bool, true, false, ◌||◌, Option, none, some, List, [], ◌∷◌, ◌++◌, Text, codes, teq,
  if◌then◌else◌, trim, starts_with, Result, ok, err, ◌>>=◌, config, upstream,
}
use ferrumdns.Net.{SocketAddr}
use ferrumdns.Upstream.Endpoint.{
  split_scheme, host_of, normalize_hostport, url_host_port, parse_ip_port,
}
use ferrumdns.Upstream.Pool.{StreamPool, new_pool}
use ferrumdns.Upstream.Spec.{UpstreamSpec}

-- The cell `dest` holds the address once it has been resolved.
pub data Kind : Type 0 where
  udp tcp : Text → Option SocketAddr → Kind
  tls : Text → Text → Option SocketAddr → Kind
  doh : Text → Kind

abbrev https_url : Text → Text → Text
https_url addr rest = if starts_with (codes "https://") addr then addr else codes "https://" ++ rest

abbrev http_url : Text → Text → Text
http_url addr rest = if starts_with (codes "http") addr then addr else codes "http://" ++ rest

abbrev tls_target : Option Text → Text → Text
tls_target none rest = normalize_hostport rest 853
tls_target (some d) rest = normalize_hostport d 853

unfoldable pub kind_of : UpstreamSpec → Result Kind
unfolding trim split_scheme normalize_hostport host_of starts_with teq
kind_of spec =
    let addr = trim spec.addr in
    let (scheme, rest) = split_scheme addr in
    if teq scheme (codes "udp") || teq scheme []
    then ok (udp (normalize_hostport rest 53) none)
    else if teq scheme (codes "tcp")
    then ok (tcp (normalize_hostport rest 53) none)
    else if teq scheme (codes "tls") || teq scheme (codes "dot")
    then ok (tls (tls_target spec.dial_addr rest) (host_of rest) none)
    else if teq scheme (codes "https") || teq scheme (codes "h2") || teq scheme (codes "doh")
    then ok (doh (https_url addr rest))
    else if teq scheme (codes "http")
    then ok (doh (http_url addr rest))
    else err (config "unsupported upstream scheme")

pub record PinResolver : Type 0 where
  pub pins : List SocketAddr
  pub bootstrap : Option Text
  pub cache : List (Text × List SocketAddr)

unfoldable pub new_resolver : UpstreamSpec → ℕ → Result PinResolver
unfolding parse_ip_port
new_resolver spec port = elim spec.dial_addr [
  | none ↦ ok (record { pins = []; bootstrap = spec.bootstrap; cache = [] })
  | some dial ↦ do
    pin ← parse_ip_port dial port
    ok (record { pins = pin ∷ []; bootstrap = spec.bootstrap; cache = [] })
]

abbrev is_given : Option Text → Bool
is_given none = false
is_given (some t) = true

-- `build_http_client`; whether the client itself can be built is the crate's part.
unfoldable pub build_http_client :
    (UpstreamSpec → Bool) → UpstreamSpec → Text → Result (Option PinResolver)
unfolding url_host_port new_resolver starts_with
build_http_client builds spec url = do
  resolver ←
      (if is_given spec.dial_addr || is_given spec.bootstrap
        then (do
          r ←
              new_resolver spec
                (url_host_port url (if starts_with (codes "http://") url then 80 else 443)).1
          ok (some r))
        else ok none)
  if builds spec then ok resolver else err (upstream spec.addr (codes "http client"))

-- The pools are those of TCP and of TLS streams; only that of the own kind is used.
pub record Upstream (C S : Type 0) : Type 0 where
  pub spec : UpstreamSpec
  pub kind : Kind
  pub resolver : Option PinResolver
  pub tcp_pool : StreamPool C
  pub tls_pool : StreamPool S

abbrev pub pool_cap : ℕ
pool_cap = 8

module _ {C S : Type 0} where
  abbrev new_upstream : UpstreamSpec → Kind → Option PinResolver → Upstream C S
  new_upstream spec kind resolver = record {
    spec = spec;
    kind = kind;
    resolver = resolver;
    tcp_pool = new_pool pool_cap (spec.idle_timeout * 10 ^ 9);
    tls_pool = new_pool pool_cap (spec.idle_timeout * 10 ^ 9);
  }

  abbrev of_kind : (UpstreamSpec → Bool) → UpstreamSpec → Kind → Result (Upstream C S)
  of_kind builds spec (doh url) = do
    resolver ← build_http_client builds spec url
    ok (new_upstream spec (doh url) resolver)
  of_kind builds spec kind = ok (new_upstream spec kind none)

  unfoldable pub connect : (UpstreamSpec → Bool) → UpstreamSpec → Result (Upstream C S)
  unfolding kind_of build_http_client
  connect builds spec = do kind ← kind_of spec; of_kind builds spec kind
