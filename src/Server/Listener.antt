-- ===== src/Server/Listener.antt =====
-- server.rs: the settings of a listener, as they are checked and as they are used.
pub mod Checked
use ferrumdns.Base.{
  ℕ, max, min, Bool, true, false, not, ◌&&◌, ◌||◌, Option, none, some, List, [], ◌∷◌, Text, codes,
  teq, ◌==◌, ltb, if◌then◌else◌, is_empty, any, starts_with, split_on, to_ascii_lowercase, Result,
  ok, err, ◌>>=◌, ok_or, config,
}
use ferrumdns.Config.Types.{ListenerConfig}
use ferrumdns.Net.{SocketAddr, parse_socket}
use ferrumdns.Yaml.{unwrap_or}

-- What is not in this program: whether a certificate and a key make a TLS acceptor, and the path and
-- the query that the crate http reads in a URI.
pub record Tls : Type 0 where
  pub acceptor : Text → Text → Result (Unit {0})
  pub parse_uri : Text → Option (Text × Option Text)

abbrev pub is_given : Option Text → Bool
is_given none = false
is_given (some t) = true

abbrev segments_fixed : Text → Bool
segments_fixed path = not (any (starts_with (codes ":")) (split_on b'/' path))

-- The guard on the path of a DoH listener.
abbrev pub is_fixed_path : Text → Text × Option Text → Bool
is_fixed_path path (uri_path, query) =
    starts_with (codes "/") path
    && teq uri_path path
    && not (is_given query)
    && not (any (λ c. c == b'{' || c == b'}' || c == b'*' || c == b'#') path)
    && segments_fixed path

abbrev pub is_tls : Text → Bool
is_tls protocol = teq protocol (codes "tls") || teq protocol (codes "dot")

abbrev pub is_doh : Text → Bool
is_doh protocol =
    teq protocol (codes "doh") || teq protocol (codes "https") || teq protocol (codes "http")

abbrev pub is_udp : Text → Bool
is_udp protocol = teq protocol (codes "udp") || is_empty protocol

abbrev pub doh_path : ListenerConfig → Text
doh_path l = unwrap_or l.url_path (codes "/dns-query")

-- The protocols that have a listener, as the messages with which one may start.
pub data Service : Type 0 where
  udp : ℕ → Service
  tcp tls : ℕ → Service
  doh : Text → Bool → Service

module _ (T : Tls) where
  open T use {acceptor, parse_uri}

  -- The certificate and the key of a DoH listener: both or none.
  abbrev pub doh_acceptor : Option Text → Option Text → Result Bool
  doh_acceptor (some cert) (some key) = do _ ← acceptor cert key; ok true
  doh_acceptor none none = ok false
  doh_acceptor _ _ = err (config "doh https needs both cert and key")

  abbrev pub tls_files : ListenerConfig → Result (Unit {0})
  tls_files l = do
    cert ← ok_or l.cert (config "tls listener needs cert")
    key ← ok_or l.key (config "tls listener needs key")
    acceptor cert key

  abbrev pub validate_doh : ListenerConfig → Result (Unit {0})
  validate_doh l = do
    uri ← ok_or (parse_uri (doh_path l)) (config "bad doh path")
    fixed ←
        (if is_fixed_path (doh_path l) uri
          then ok tt
          else err (config "doh url_path must be a fixed absolute URL path"))
    _ ← doh_acceptor l.cert l.key
    ok fixed

  abbrev pub check_protocol : ListenerConfig → Text → Result (Unit {0})
  check_protocol l protocol =
      if is_udp protocol || teq protocol (codes "tcp")
      then ok tt
      else if is_tls protocol
      then tls_files l
      else if is_doh protocol
      then validate_doh l
      else err (config "unknown listener protocol")

  unfoldable pub validate_listener : ListenerConfig → Result (Unit {0})
  unfolding to_ascii_lowercase parse_socket teq starts_with split_on
  validate_listener l = do
    _ ← ok_or (parse_socket l.addr) (config "bad listen addr")
    check_protocol l (to_ascii_lowercase l.protocol)

  -- `cpus` is the parallelism that the system reports, if it reports one.
  unfoldable pub udp_worker_count : Option ℕ → ListenerConfig → ℕ
  udp_worker_count cpus l =
      let count : ℕ = elim cpus [ none ↦ 2 | some n ↦ min (max n 1) 8 ] in
      elim l.workers [ none ↦ count | some n ↦ if ltb 0 n then n else count ]

  -- The idle time of a connection, in seconds.
  abbrev pub idle_secs : ListenerConfig → ℕ
  idle_secs l = max (unwrap_or l.idle_timeout 10) 1

  abbrev pub start_doh : ListenerConfig → Result Service
  start_doh l = do
    _ ← ok_or (parse_socket l.addr) (config "bad doh addr")
    secure ← doh_acceptor l.cert l.key
    ok (doh (doh_path l) secure)

  abbrev pub start : Option ℕ → ListenerConfig → Text → Result Service
  start cpus l protocol =
      if is_udp protocol
      then ok (udp (max (udp_worker_count cpus l) 1))
      else if teq protocol (codes "tcp")
      then ok (tcp (idle_secs l))
      else if is_tls protocol
      then (do _ ← tls_files l; ok (tls (idle_secs l)))
      else if is_doh protocol
      then start_doh l
      else err (config "unknown listener protocol")

  -- Up to the point where the sockets are bound: the service that starts.
  unfoldable pub spawn_listener : Option ℕ → ListenerConfig → Result Service
  unfolding validate_listener to_ascii_lowercase udp_worker_count parse_socket teq
  spawn_listener cpus l = do _ ← validate_listener l; start cpus l (to_ascii_lowercase l.protocol)
