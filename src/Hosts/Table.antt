-- ===== src/Hosts/Table.antt =====
-- plugin/hosts.rs: what the table of local names keeps, and what is answered from it.
use ferrumdns.Base.{
  ◌≡◌, arith, subst, inl, inr, none, some, List, [], ◌∷◌, ◌++◌, Text, teq, teq_iff, Bool-cases,
  Option-cases, Result, ok, if◌then◌else◌, trim, split_on, split_whitespace, >>=-eq-ok, append_nil,
  append_assoc,
}
use ferrumdns.Actions.{head_or, tail_words}
use ferrumdns.Matcher.DomainSet.{is_comment}
use ferrumdns.Context.{QueryContext}
use ferrumdns.Dns.Rcode
use ferrumdns.Dns.{Ip, MessageType, Message, Hickory}
use ferrumdns.Ecs.Address.{Networks}
use ferrumdns.Hosts.{
  HostTable, Hosts, host_key, find_host, push_host, add_names, parse_hosts_line, parse_lines,
  add_line_names, name_first,
}

abbrev pub addresses : Text → HostTable → List Ip
addresses key t = elim (find_host key t) [ none ↦ [] | some ips ↦ ips ]

find_host-push_host :
    (key other : Text) (ip : Ip) (t : HostTable)
    → find_host other (push_host key ip t)
      ≡ (if teq key other then some (addresses key t ++ ip ∷ []) else find_host other t)
unfolding find_host push_host
find_host-push_host key other ip [] = ground arith
find_host-push_host key other ip ((k, ips) ∷ t) =
    ground
      (arith, find_host-push_host key other ip t, teq_iff k key, teq_iff k other, teq_iff key other)

-- Every address of a name stays, in its place.
abbrev pub Keeps : HostTable → HostTable → Type 0
Keeps t t' =
    (key : Text) (ips : List Ip)
    → find_host key t ≡ some ips
    → (more : List Ip) × (find_host key t' ≡ some (ips ++ more))

Keeps-refl : (t : HostTable) → Keeps t t
Keeps-refl t key ips h = ([], ground (arith, append_nil ips))

Keeps-trans : (a b c : HostTable) → Keeps a b → Keeps b c → Keeps a c
Keeps-trans a b c f g key ips h =
    let (more, k) = f key ips h in
    let (rest, l) = g key (ips ++ more) k in
    (more ++ rest, ground (arith, append_assoc ips more rest))

Keeps-push_host : (key : Text) (ip : Ip) (t : HostTable) → Keeps t (push_host key ip t)
Keeps-push_host key ip t other ips h = elim (Bool-cases (teq key other)) [
  | inl same ↦ (ip ∷ [], ground (arith, find_host-push_host key other ip t, teq_iff key other))
  | inr differ ↦ ([], ground (arith, find_host-push_host key other ip t, append_nil ips))
]

ok-eq : {A : Type 0} (a b : A) → Result.ok a ≡ ok b → a ≡ b
ok-eq a b h = cc

module _ (H : Hickory) (N : Networks) where
  add_names-Keeps :
      (ns : List Text) (ip : Ip) (t t' : HostTable) → add_names H N ns ip t ≡ ok t' → Keeps t t'
  unfolding add_names
  add_names-Keeps [] ip t t' h = subst (Keeps t) (ok-eq t t' h) (Keeps-refl t)
  add_names-Keeps (n ∷ ns) ip t t' h = elim (Option-cases (H.from_ascii n)) [
    | inl absent ↦ absurd (ground arith)
    | inr (name, present) ↦
        Keeps-trans t (push_host (host_key n) ip t) t' (Keeps-push_host (host_key n) ip t)
          (add_names-Keeps ns ip (push_host (host_key n) ip t) t' (ground arith))
  ]

  add_line_names-Keeps :
      (ns : List Text) (ip : Ip) (t t' : HostTable)
      → add_line_names H N ns ip t ≡ ok t'
      → Keeps t t'
  add_line_names-Keeps [] ip t t' h = absurd (ground arith)
  add_line_names-Keeps (n ∷ ns) ip t t' h = add_names-Keeps (n ∷ ns) ip t t' h

  name_first-Keeps :
      (name : Text) (words : List Text) (t t' : HostTable)
      → name_first H N name words t ≡ ok t'
      → Keeps t t'
  name_first-Keeps name [] t t' h = absurd (ground arith)
  name_first-Keeps name (w ∷ v ∷ ws) t t' h = absurd (ground arith)
  name_first-Keeps name (w ∷ []) t t' h = elim (Option-cases (N.parse_ip w)) [
    | inl absent ↦ absurd (ground arith)
    | inr (ip, present) ↦ add_line_names-Keeps (name ∷ []) ip t t' (ground arith)
  ]

  parse_hosts_line-Keeps :
      (line : Text) (t t' : HostTable) → parse_hosts_line H N line t ≡ ok t' → Keeps t t'
  unfolding parse_hosts_line
  parse_hosts_line-Keeps line t t' h =
      let text = trim (head_or [] (split_on b'#' line)) in
      let words = split_whitespace text in
      elim (Bool-cases (is_comment text)) [
        | inl comment ↦ subst (Keeps t) (ok-eq t t' (ground arith)) (Keeps-refl t)
        | inr other ↦ elim (Option-cases (N.parse_ip (head_or [] words))) [
          | inr (ip, present) ↦ add_line_names-Keeps (tail_words words) ip t t' (ground arith)
          | inl absent ↦ name_first-Keeps (head_or [] words) (tail_words words) t t' (ground arith)
        ]
      ]

  -- Reading more lines of a hosts file keeps, in their order, the addresses that a name had.
  pub parse_lines-Keeps :
      (ls : List Text) (t t' : HostTable) → parse_lines H N ls t ≡ ok t' → Keeps t t'
  unfolding parse_lines
  parse_lines-Keeps [] t t' h = subst (Keeps t) (ok-eq t t' h) (Keeps-refl t)
  parse_lines-Keeps (l ∷ ls) t t' h =
      let (mid, one, rest) = >>=-eq-ok (parse_hosts_line H N l t) (λ u. parse_lines H N ls u) h in
      Keeps-trans t mid t' (parse_hosts_line-Keeps l t mid one) (parse_lines-Keeps ls mid t' rest)

-- A reply as the context takes it.
abbrev taken : QueryContext → Message → Message
taken ctx msg = record msg { id = ctx.query.id; message_type = MessageType.response }
