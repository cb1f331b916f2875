-- ===== src/Upstream/Bootstrap/Order.antt =====
-- upstream.rs: the two lookups of a bootstrap server may end in any order.
use ferrumdns.Base.{
  ◌≡◌, ◌⊎◌, inl, inr, refl, arith, Bool, true, false, not, List, [], ◌∷◌, ◌++◌, Text, ◌==◌, filter,
  is_empty, All, append_nil, if◌then◌else◌, Result, ok, err, config, trim_end_by,
}
use ferrumdns.Dns.RecordType
use ferrumdns.Dns.{Ip, Hickory}
use ferrumdns.Ecs.Address.{is_ipv4}
use ferrumdns.Net.{SocketAddr}
use ferrumdns.Upstream.Bootstrap.{Lookups, dedup, sort_ips, found, bootstrap_ips}
use ferrumdns.Upstream.Endpoint.{bootstrap_socket}

module _ {ℓ} {A : Type ℓ} (p : A → Bool) where
  filter-append : (xs ys : List A) → filter p (xs ++ ys) ≡ filter p xs ++ filter p ys
  filter-append [] ys = refl
  filter-append (x ∷ xs) ys = ground (arith, filter-append xs ys)

  filter-All : (xs : List A) → All (λ x. p x ≡ true) xs → filter p xs ≡ xs
  filter-All [] h = refl
  filter-All (x ∷ xs) (h, hs) = rw (h, filter-All xs hs) refl

  filter-none : (xs : List A) → All (λ x. p x ≡ false) xs → filter p xs ≡ []
  filter-none [] h = refl
  filter-none (x ∷ xs) (h, hs) = rw (h, filter-none xs hs) refl

abbrev pub AllV4 : List Ip → Type 0
AllV4 ips = All (λ ip. is_ipv4 ip ≡ true) ips

abbrev pub AllV6 : List Ip → Type 0
AllV6 ips = All (λ ip. is_ipv4 ip ≡ false) ips

abbrev is_other : Ip → Bool
is_other ip = not (is_ipv4 ip)

not-true : (ips : List Ip) → AllV4 ips → All (λ ip. not (is_ipv4 ip) ≡ false) ips
not-true [] h = tt
not-true (ip ∷ ips) (h, hs) = (rw h refl, not-true ips hs)

not-false : (ips : List Ip) → AllV6 ips → All (λ ip. not (is_ipv4 ip) ≡ true) ips
not-false [] h = tt
not-false (ip ∷ ips) (h, hs) = (rw h refl, not-false ips hs)

module _ (xs ys : List Ip) (four : AllV4 xs) (six : AllV6 ys) where
  only_four : filter is_ipv4 xs ≡ xs
  only_four = filter-All is_ipv4 xs four

  no_six : filter is_ipv4 ys ≡ []
  no_six = filter-none is_ipv4 ys six

  no_four : filter is_other xs ≡ []
  no_four = filter-none is_other xs (not-true xs four)

  only_six : filter is_other ys ≡ ys
  only_six = filter-All is_other ys (not-false ys six)

  sort_ips-sorted : sort_ips (xs ++ ys) ≡ xs ++ ys
  unfolding sort_ips
  sort_ips-sorted =
      rw
        (
          filter-append is_ipv4 xs ys,
          filter-append is_other xs ys,
          only_four,
          no_six,
          no_four,
          only_six,
          append_nil,
        )
        refl

  sort_ips-swapped : sort_ips (ys ++ xs) ≡ xs ++ ys
  unfolding sort_ips
  sort_ips-swapped =
      rw
        (
          filter-append is_ipv4 ys xs,
          filter-append is_other ys xs,
          only_four,
          no_six,
          no_four,
          only_six,
          append_nil,
        )
        refl

is_empty-swapped : (xs ys : List Ip) → is_empty (ys ++ xs) ≡ is_empty (xs ++ ys)
is_empty-swapped [] [] = refl
is_empty-swapped [] (y ∷ ys) = refl
is_empty-swapped (x ∷ xs) [] = refl
is_empty-swapped (x ∷ xs) (y ∷ ys) = refl

-- The result for the addresses of both families.
abbrev pub resolved : List Ip → Result (List Ip)
resolved ips = if is_empty ips then err (config "bootstrap could not resolve") else ok (dedup ips)

abbrev host_name : Text → Text
host_name name = trim_end_by (λ c. c == b'.') name

-- When the addresses that the lookups of the types A and AAAA find are of their own families, the
-- order in which the lookups end does not matter: the bootstrap gives the IPv4 addresses and then
-- the IPv6 addresses, neighbours that are equal only once, and an error when neither family has an
-- address. So one family is enough, also when the other lookup fails or is late.
pub bootstrap_ips-resolved :
    (H : Hickory) (L : Lookups) (bootstrap hostname : Text) (boot : SocketAddr)
    → (L.order ≡ RecordType.a ∷ RecordType.aaaa ∷ [])
      ⊎ (L.order ≡ RecordType.aaaa ∷ RecordType.a ∷ [])
    → bootstrap_socket bootstrap ≡ ok boot
    → AllV4 (found H L boot (host_name hostname) RecordType.a)
    → AllV6 (found H L boot (host_name hostname) RecordType.aaaa)
    → bootstrap_ips H L bootstrap hostname
      ≡ resolved (
          found H L boot (host_name hostname) RecordType.a
          ++ found H L boot (host_name hostname) RecordType.aaaa)
unfolding bootstrap_ips
bootstrap_ips-resolved H L bootstrap hostname boot (inl o) b four six =
    rw (bootstrap_ips, b, o, append_nil, sort_ips-sorted _ _ four six) refl
bootstrap_ips-resolved H L bootstrap hostname boot (inr o) b four six =
    rw (bootstrap_ips, b, o, append_nil, sort_ips-swapped _ _ four six, is_empty-swapped) refl
