-- ===== src/Tests/Upstreams.antt =====
-- Runs of the theorems on upstreams, on listeners and on their sessions.
use ferrumdns.Base.{
  ℕ, ◌==◌, ◌≡◌, ◌↔◌, refl, inr, true, false, none, some, List, [], ◌∷◌, ◌++◌, Text, codes,
  if◌then◌else◌, ok, err, io, arith,
}
use ferrumdns.Config.Types.{ListenerConfig}
use ferrumdns.Context.{tcp}
use ferrumdns.Dns.RecordType
use ferrumdns.Dns.{v4, Message, Hickory}
use ferrumdns.Dnsutil.{encode, decode}
use ferrumdns.Metrics.{new_metrics}
use ferrumdns.Net.{is_ipv6}
use ferrumdns.Server.Listener.Checked.{spawn_listener-validate_listener}
use ferrumdns.Server.Listener.{Tls, Service, spawn_listener, validate_listener}
use ferrumdns.Server.Reply.Session.{
  in_memory, frames, buffer, octets, messages, converse, serve_framed-converse,
}
use ferrumdns.Server.Reply.{Listening, Shared, serve_framed}
use ferrumdns.Tests.Fixtures.{request, reply, crates, client}
use ferrumdns.Tests.Serving.{pipelines}
use ferrumdns.Upstream.Bootstrap.Order.{resolved, bootstrap_ips-resolved}
use ferrumdns.Upstream.Bootstrap.{Lookups, bootstrap_query, bootstrap_ips, found}
use ferrumdns.Upstream.Connect.{Upstream, Kind}
use ferrumdns.Upstream.Connect
use ferrumdns.Upstream.Endpoint.Parts.{host_port-normalize_hostport}
use ferrumdns.Upstream.Endpoint.{host_of, port_of, normalize_hostport, bootstrap_socket}
use ferrumdns.Upstream.Exchange.Replies.{IsChecked, exchange-IsChecked}
use ferrumdns.Upstream.Exchange.{Network, exchange}
use ferrumdns.Upstream.Framing.RoundTrip.{Buffer, read_framed-write_framed}
use ferrumdns.Upstream.Framing.RoundTrip
use ferrumdns.Upstream.Framing.{Transport, done, write_framed, read_framed}
use ferrumdns.Upstream.Pool.{new_pool}

host_port-normalize_hostport_example :
    (host_of (normalize_hostport (codes "dns") 853) ≡ codes "dns")
    × (port_of (normalize_hostport (codes "dns") 853) 53 ≡ 853)
unfolding is_ipv6
host_port-normalize_hostport_example =
    host_port-normalize_hostport (codes "dns") 853
      ((refl, (refl, (refl, tt))), (refl, (refl, (refl, tt))), (refl, (refl, (refl, tt)))) 53
      (omega arith) (inr (refl, (refl, (refl, (refl, tt))), refl))

abbrev empty : Buffer
empty = record { incoming = []; outgoing = [] }

read_framed-write_framed_example :
    (written : List ℕ) × (write_framed crates RoundTrip.in_memory request empty
      ≡ ok (record empty { outgoing = [] ++ written }))
    × (read_framed crates RoundTrip.in_memory (record empty { incoming = written ++ 1 ∷ [] })
        ≡ ok (reply, record empty { incoming = 1 ∷ [] }))
unfolding encode decode
read_framed-write_framed_example =
    read_framed-write_framed crates empty request reply (7 ∷ []) (1 ∷ []) refl (omega arith)
      (omega arith) refl

-- The lookup of IPv6 addresses ends first, and finds nothing.
abbrev lookups : Lookups
lookups = record {
  reply_of = λ dest q. ok reply;
  id_of = λ t. t;
  order = RecordType.aaaa ∷ RecordType.a ∷ [];
  is_late = λ t. t == RecordType.aaaa;
}

bootstrap_ips-resolved_example :
    bootstrap_ips crates lookups (codes "9.9.9.9") (codes "dns.")
    ≡ resolved (
        found crates lookups (v4 151587081, 53) (codes "dns") RecordType.a
        ++ found crates lookups (v4 151587081, 53) (codes "dns") RecordType.aaaa)
unfolding bootstrap_socket bootstrap_query
bootstrap_ips-resolved_example =
    bootstrap_ips-resolved crates lookups (codes "9.9.9.9") (codes "dns.") (v4 151587081, 53)
      (inr refl) refl (refl, tt) tt

abbrev silent_stream : Transport Text
silent_stream = record {
  write_all = λ bytes s. some s;
  flush = λ s. some s;
  read_exact = λ n s. done (if n == 2 then 0 ∷ 1 ∷ [] else 7 ∷ [], s);
}

abbrev network : Network Text Text
network = record {
  datagrams = λ dest. record { opened = true; sent = true; receive = λ i. some (7 ∷ []) };
  connect = λ dest. ok (codes "stream");
  is_name = λ t. true;
  handshake = λ name c. some c;
  post = λ url bytes. err io;
  lookup_host = λ t. none;
  lookup_name = λ t. none;
  id_of = λ t. t;
  order = RecordType.a ∷ RecordType.aaaa ∷ [];
  is_late = λ t. false;
  tcp_stream = silent_stream;
  tls_stream = silent_stream;
  taken = 5;
  now = 9;
}

abbrev quad : Upstream Text Text
quad = record {
  spec = record {
    addr = codes "9.9.9.9";
    dial_addr = none;
    bootstrap = none;
    idle_timeout = 10;
    insecure = false;
    tag = none;
  };
  kind = Connect.udp (codes "9.9.9.9:53") none;
  resolver = none;
  tcp_pool = new_pool 8 10;
  tls_pool = new_pool 8 10;
}

exchange-IsChecked_example :
    IsChecked crates request network quad (exchange crates network none quad request).1
exchange-IsChecked_example = exchange-IsChecked crates network none quad request

abbrev no_tls : Tls
no_tls = record { acceptor = λ cert key. err io; parse_uri = λ t. some (t, none) }

abbrev local : ListenerConfig
local = record {
  protocol = codes "DoH";
  addr = codes "127.0.0.1:443";
  cert = none;
  key = none;
  url_path = none;
  idle_timeout = none;
  workers = none;
}

spawn_listener-validate_listener_example :
    ((service : Service) × (spawn_listener no_tls none local ≡ ok service))
    ↔ (validate_listener no_tls local ≡ ok tt)
spawn_listener-validate_listener_example = spawn_listener-validate_listener no_tls local none

-- The octets of each message decode to a query.
abbrev asking : Hickory
asking = record crates { from_vec = λ bytes. some request }

abbrev listening : Listening ℕ
listening = record {
  live = λ n. pipelines;
  state_of = λ n s. s;
  entry = codes "main";
  times = λ n. 40;
}

abbrev sent : List (List ℕ × Message)
sent = (7 ∷ [], request) ∷ []

abbrev shared : Shared ℕ
shared = record { plugins = 0; metrics = new_metrics }

serve_framed-converse_example :
    (rest : List ℕ) × (serve_framed asking listening in_memory tcp
        (some client)
        2
        0
        (buffer asking listening tcp
          (some client)
          (frames (octets asking listening tcp (some client) sent))
          [])
        shared
      ≡ some (
        (converse asking listening tcp
            (some client)
            0
            (messages asking listening tcp (some client) sent)
            shared).1,
        buffer asking listening tcp (some client) rest (
            frames
              (converse asking listening tcp
                (some client)
                0
                (messages asking listening tcp (some client) sent)
                shared).0),
        (converse asking listening tcp
            (some client)
            0
            (messages asking listening tcp (some client) sent)
            shared).2,
      ))
unfolding decode
serve_framed-converse_example =
    serve_framed-converse asking listening tcp (some client) sent shared
      ((refl, omega arith, omega arith), tt)
