-- ===== src/Server/Listener/Checked.antt =====
-- server.rs: a listener whose settings have been checked starts.
use ferrumdns.Base.{
  ℕ, ◌≡◌, ◌↔◌, refl, Error, ok_or-eq, arith, max, inl, inr, Bool-cases, Option, some, Text, codes,
  teq, to_ascii_lowercase, if◌then◌else◌, Result, ok, err, >>=-eq-ok, ok_or, config,
}
use ferrumdns.Config.Types.{ListenerConfig}
use ferrumdns.Net.{SocketAddr, parse_socket}
use ferrumdns.Server.Listener.{
  Tls, Service, is_udp, is_tls, is_doh, doh_acceptor, udp, tcp, tls, doh, validate_doh,
  validate_listener, spawn_listener, start_doh, start, doh_path, is_fixed_path, check_protocol,
  idle_secs, udp_worker_count,
}

no_error : {e : Error} → ◌≡◌ {A = Result (Unit {0})} (err e) (ok tt) → ⊥
no_error h = ground arith

module _ (T : Tls) (l : ListenerConfig) where
  start_doh-ok :
      {addr : SocketAddr}
      → parse_socket l.addr ≡ some addr
      → validate_doh T l ≡ ok tt
      → (service : Service) × (start_doh T l ≡ ok service)
  start_doh-ok bound h =
      let (uri, _, h1) = >>=-eq-ok (ok_or (T.parse_uri (doh_path l)) (config "bad doh path")) _ h in
      let (fixed, _, h2) =
        >>=-eq-ok
          (if is_fixed_path (doh_path l) uri
            then ok tt
            else err (config "doh url_path must be a fixed absolute URL path"))
          _ h1 in
      let (secure, e, _) = >>=-eq-ok (doh_acceptor T l.cert l.key) _ h2 in
      (doh (doh_path l) secure, rw (bound, e) refl)

  start-ok :
      (cpus : Option ℕ) (protocol : Text) {addr : SocketAddr}
      → parse_socket l.addr ≡ some addr
      → check_protocol T l protocol ≡ ok tt
      → (service : Service) × (start T cpus l protocol ≡ ok service)
  start-ok cpus protocol bound h = elim (Bool-cases (is_udp protocol)) [
    | inl u ↦ rw u (udp (max (udp_worker_count T cpus l) 1), refl)
    | inr nu ↦ elim (Bool-cases (teq protocol (codes "tcp"))) [
      | inl t ↦ rw (nu, t) (tcp (idle_secs T l), refl)
      | inr nt ↦ elim (Bool-cases (is_tls protocol)) [
        | inl s ↦ rw (nu, nt, s) (tls (idle_secs T l), rw (rw (nu, nt, s) at h) refl)
        | inr ns ↦ elim (Bool-cases (is_doh protocol)) [
          | inl d ↦ rw (nu, nt, ns, d) (start_doh-ok bound (rw (nu, nt, ns, d) at h))
          | inr nd ↦ absurd (no_error (rw (nu, nt, ns, nd) at h))
        ]
      ]
    ]
  ]

  -- A listener starts exactly when its settings pass their check, which the build of a runtime makes:
  -- starting reads the settings again and meets no error that the check has not found.
  pub spawn_listener-validate_listener :
      (cpus : Option ℕ)
      → ((service : Service) × (spawn_listener T cpus l ≡ ok service))
        ↔ (validate_listener T l ≡ ok tt)
  unfolding spawn_listener validate_listener
  spawn_listener-validate_listener cpus = (
    λ (service, h). let (_, e, _) = >>=-eq-ok (validate_listener T l) _ h in e,
    λ h.
        let (addr, bound, checked) =
          >>=-eq-ok (ok_or (parse_socket l.addr) (config "bad listen addr")) _ h in
        rw (spawn_listener, h)
          (start-ok cpus (to_ascii_lowercase l.protocol) (ok_or-eq (parse_socket l.addr) _ bound)
            checked),
  )
