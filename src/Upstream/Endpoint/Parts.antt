-- ===== src/Upstream/Endpoint/Parts.antt =====
-- upstream.rs: the host and the port of a normalised address.
use ferrumdns.Base.{
  ℕ, ◌≤◌, ◌≡◌, ◌⊎◌, inl, inr, refl, ap, ◌∙◌, arith, true, false, none, some, [], ◌∷◌, ◌++◌, Text,
  codes, decimal, ◌==◌, All, All-append, All-weaken, Lacks, split_on-Lacks, split_on-found,
  filter-Lacks, IsDigit, decimal-digits, parse_unsigned-decimal, strip_prefix, split_on, get_elem?,
  filter,
}
use ferrumdns.Actions.{head_or}
use ferrumdns.Yaml.{unwrap_or}
use ferrumdns.Dnsutil.Codes.{max_u16}
use ferrumdns.Net.{is_ipv6}
use ferrumdns.Upstream.Endpoint.{
  authority_of, rsplit_once, host_of, port_of, colon_port, normalize_hostport, parse_port, host_in,
  port_in, normalize_in, port_after,
}

abbrev pub IsHost : Text → Type 0
IsHost h = Lacks b'/' h × Lacks b'[' h × Lacks b']' h

-- Digits, and a colon before them, are none of the characters that cut an address.
digits-Lacks : (c : ℕ) (s : Text) → c ≤ b'/' ⊎ b':' ≤ c → All IsDigit s → Lacks c s
digits-Lacks c s h d = All-weaken s (λ x dx. digit c x h dx) d
  where
    digit : (c x : ℕ) → c ≤ b'/' ⊎ b':' ≤ c → IsDigit x → (x == c) ≡ false
    digit c x (inl h) dx = ground arith
    digit c x (inr h) dx = ground arith

colon_port-Lacks : (c port : ℕ) → c ≤ b'/' ⊎ b';' ≤ c → Lacks c (colon_port port)
colon_port-Lacks c port (inl h) =
    (ground arith, digits-Lacks c (decimal port) (inl h) (decimal-digits port))
colon_port-Lacks c port (inr h) =
    (ground arith, digits-Lacks c (decimal port) (inr (omega arith)) (decimal-digits port))

rsplit_once-Lacks : (c : ℕ) (s : Text) → Lacks c s → rsplit_once c s ≡ none
unfolding rsplit_once
rsplit_once-Lacks c [] h = refl
rsplit_once-Lacks c (x ∷ s) (h, hs) = ground (arith, rsplit_once-Lacks c s hs)

rsplit_once-found : (c : ℕ) (h p : Text) → Lacks c p → rsplit_once c (h ++ (c ∷ p)) ≡ some (h, p)
unfolding rsplit_once
rsplit_once-found c [] p l = ground (arith, rsplit_once-Lacks c p l)
rsplit_once-found c (x ∷ h) p l = ground (arith, rsplit_once-found c h p l)

bracket-Lacks : (s : Text) → Lacks b'[' s → strip_prefix (codes "[") s ≡ none
unfolding strip_prefix
bracket-Lacks [] h = refl
bracket-Lacks (x ∷ s) (h, _) = ground arith

abbrev bracketed_with : Text → ℕ → Text
bracketed_with h port = codes "[" ++ (h ++ (codes "]" ++ colon_port port))

abbrev named_with : Text → ℕ → Text
named_with h port = h ++ colon_port port

host_in-cut :
    (s h p : Text) (n : ℕ)
    → strip_prefix (codes "[") s ≡ none
    → is_ipv6 s ≡ false
    → rsplit_once b':' s ≡ some (h, p)
    → parse_port p ≡ some n
    → host_in s ≡ h
unfolding host_in
host_in-cut s h p n a b c d = rw (host_in, a, b, c, d) refl

port_in-cut :
    (s h p : Text) (n d : ℕ)
    → strip_prefix (codes "[") s ≡ none
    → is_ipv6 s ≡ false
    → rsplit_once b':' s ≡ some (h, p)
    → parse_port p ≡ some n
    → port_in s d ≡ n
unfolding port_in
port_in-cut s h p n d a b c e = rw (port_in, a, b, c, e) refl

module _ (h : Text) (port : ℕ) (host : IsHost h) where
  bracketed-authority : authority_of (bracketed_with h port) ≡ (bracketed_with h port)
  bracketed-authority = ap (head_or []) (split_on-Lacks b'/' (bracketed_with h port) (refl, rest))
    where
      rest : Lacks b'/' (h ++ (codes "]" ++ colon_port port))
      rest =
          All-append (λ x. (x == b'/') ≡ false) h _ host.0
            (refl, colon_port-Lacks b'/' port (inl (omega arith)))

  bracketed-parts : split_on b']' (h ++ (codes "]" ++ colon_port port)) ≡ h ∷ colon_port port ∷ []
  bracketed-parts =
      split_on-found b']' h (colon_port port) host.2
      ∙ ap (λ l. h ∷ l)
          (split_on-Lacks b']' (colon_port port) (colon_port-Lacks b']' port (inr (omega arith))))

  named-Lacks : (c : ℕ) → Lacks c h → c ≤ b'/' ⊎ b';' ≤ c → Lacks c (named_with h port)
  named-Lacks c l le = All-append (λ x. (x == c) ≡ false) h _ l (colon_port-Lacks c port le)

  named-authority : authority_of (named_with h port) ≡ (named_with h port)
  named-authority =
      ap (head_or [])
        (split_on-Lacks b'/' (named_with h port) (named-Lacks b'/' host.0 (inl (omega arith))))

  host_of-bracketed : host_of (bracketed_with h port) ≡ h
  unfolding host_of host_in
  host_of-bracketed = ap host_in bracketed-authority ∙ ap (head_or []) bracketed-parts

  port_of-bracketed : (d : ℕ) → port ≤ max_u16 → port_of (bracketed_with h port) d ≡ port
  unfolding port_of port_in
  port_of-bracketed d fits =
      ap (λ s. port_in s d) bracketed-authority
      ∙ ap (λ l. unwrap_or (port_after (get_elem? l 1)) d) bracketed-parts
      ∙ ap (λ p. unwrap_or p d) (parse_unsigned-decimal max_u16 port fits)

  module _ (plain : is_ipv6 (named_with h port) ≡ false) where
    named-cut : rsplit_once b':' (named_with h port) ≡ some (h, decimal port)
    named-cut =
        rsplit_once-found b':' h (decimal port)
          (digits-Lacks b':' (decimal port) (inr (omega arith)) (decimal-digits port))

    named-bracket : strip_prefix (codes "[") (named_with h port) ≡ none
    named-bracket = bracket-Lacks (named_with h port) (named-Lacks b'[' host.1 (inr (omega arith)))

    host_of-named : port ≤ max_u16 → host_of (named_with h port) ≡ h
    unfolding host_of
    host_of-named fits =
        ap host_in named-authority
        ∙ host_in-cut (named_with h port) h (decimal port) port named-bracket plain named-cut
            (parse_unsigned-decimal max_u16 port fits)

    port_of-named : (d : ℕ) → port ≤ max_u16 → port_of (named_with h port) d ≡ port
    unfolding port_of
    port_of-named d fits =
        ap (λ s. port_in s d) named-authority
        ∙ port_in-cut (named_with h port) h (decimal port) port d named-bracket plain named-cut
            (parse_unsigned-decimal max_u16 port fits)

normalize_in-ipv6 :
    (h : Text) (port : ℕ)
    → strip_prefix (codes "[") h ≡ none
    → is_ipv6 h ≡ true
    → normalize_in h port ≡ bracketed_with h port
unfolding normalize_in
normalize_in-ipv6 h port a b = rw (normalize_in, a, b) refl

normalize_in-named :
    (h : Text) (port : ℕ)
    → strip_prefix (codes "[") h ≡ none
    → is_ipv6 h ≡ false
    → filter (λ c. c == b':') h ≡ []
    → normalize_in h port ≡ named_with h port
unfolding normalize_in
normalize_in-named h port a b c = rw (normalize_in, a, b, c) refl

module _ (h : Text) (port : ℕ) (host : IsHost h) where
  normalize_in-host : normalize_hostport h port ≡ normalize_in h port
  unfolding normalize_hostport
  normalize_in-host = ap (λ l. normalize_in (head_or [] l) port) (split_on-Lacks b'/' h host.0)

  -- The two forms of an address without a port.
  abbrev pub IsBare : Type 0
  IsBare =
      (is_ipv6 h ≡ true)
      ⊎ ((is_ipv6 h ≡ false) × Lacks b':' h × (is_ipv6 (named_with h port) ≡ false))

  normalize-bare :
      IsBare
      → (normalize_hostport h port ≡ bracketed_with h port)
        ⊎ ((normalize_hostport h port ≡ named_with h port) × (is_ipv6 (named_with h port) ≡ false))
  normalize-bare (inl six) =
      inl (normalize_in-host ∙ normalize_in-ipv6 h port (bracket-Lacks h host.1) six)
  normalize-bare (inr (a, b, c)) = inr (
    normalize_in-host
        ∙ normalize_in-named h port (bracket-Lacks h host.1) a (filter-Lacks b':' h b),
    c,
  )

  -- The address that is made of a host without slashes and brackets, and of a default port up to
  -- 65535, names that host and that port, whichever default port it is read with: if the host is
  -- an IPv6 address, or if it is not, has no colon, and is no IPv6 address with the port behind it.
  pub host_port-normalize_hostport :
      (d : ℕ)
      → port ≤ max_u16
      → IsBare
      → (host_of (normalize_hostport h port) ≡ h) × (port_of (normalize_hostport h port) d ≡ port)
  host_port-normalize_hostport d fits bare = elim (normalize-bare bare) [
    | inl e ↦ (
      ap host_of e ∙ host_of-bracketed h port host,
      ap (λ s. port_of s d) e ∙ port_of-bracketed h port host d fits,
    )
    | inr (e, plain) ↦ (
      ap host_of e ∙ host_of-named h port host plain fits,
      ap (λ s. port_of s d) e ∙ port_of-named h port host plain d fits,
    )
  ]
