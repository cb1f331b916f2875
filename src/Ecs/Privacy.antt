-- ===== src/Ecs/Privacy.antt =====
-- plugin/ecs.rs: which address of the client is sent on.
use ferrumdns.Base.{
  ℕ, ◌+◌, ◌*◌, ◌-◌, ◌/◌, ◌^◌, ◌<◌, ◌≡◌, ◌∙◌, refl, ap, arith, inl, inr, Bool, true, false, not,
  ◌&&◌, ◌||◌, some, List, [], ◌∷◌, any, ◌==◌, ltb, leb, if◌then◌else◌, Option-cases,
}
use ferrumdns.Context.{QueryContext, push_trace}
use ferrumdns.Dns.{Ip, v4, v6, Hickory}
use ferrumdns.Ecs.Address.{Networks, is_public_v4, mapped, is_public_ip, octet}
use ferrumdns.Ecs.Attach.{Ecs, pick, exec}

-- The number lies in a block, given by its first address and by the one after its last.
abbrev pub within : ℕ → ℕ × ℕ → Bool
within n (first, last) = leb first n && ltb n last

abbrev pub block : ℕ → ℕ → ℕ → ℕ → ℕ → ℕ × ℕ
block a b c d size =
    (((a * 256 + b) * 256 + c) * 256 + d, ((a * 256 + b) * 256 + c) * 256 + d + size)

octet0-eq : (n k : ℕ) → n < 2 ^ 32 → k < 256 → (octet 0 n == k) ≡ within n (block k 0 0 0 (2 ^ 24))
octet0-eq n k h j = ground arith

shared-eq :
    (n : ℕ)
    → n < 2 ^ 32
    → ((octet 0 n == 100) && (octet 1 n / 64 == 1)) ≡ within n (block 100 64 0 0 (2 ^ 22))
shared-eq n h = ground arith

private12-eq :
    (n : ℕ)
    → n < 2 ^ 32
    → ((octet 0 n == 172) && leb 16 (octet 1 n) && leb (octet 1 n) 31)
      ≡ within n (block 172 16 0 0 (2 ^ 20))
private12-eq n h = ground arith

pair-eq :
    (n a b : ℕ)
    → n < 2 ^ 32
    → a < 256
    → b < 256
    → ((octet 0 n == a) && (octet 1 n == b)) ≡ within n (block a b 0 0 (2 ^ 16))
pair-eq n a b h i j = ground arith

triple-eq : (n k : ℕ) → (n / 256 == k) ≡ within n (k * 256, k * 256 + 256)
triple-eq n k = ground arith

high-eq : (n : ℕ) → n < 2 ^ 32 → leb 224 (octet 0 n) ≡ within n (block 224 0 0 0 (2 ^ 29))
high-eq n h = ground arith

-- The blocks of IPv4 addresses that are kept from upstreams.
abbrev pub withheld : List (ℕ × ℕ)
withheld =
    block 0 0 0 0 (2 ^ 24)
    ∷ block 10 0 0 0 (2 ^ 24)
    ∷ block 100 64 0 0 (2 ^ 22)
    ∷ block 127 0 0 0 (2 ^ 24)
    ∷ block 169 254 0 0 (2 ^ 16)
    ∷ block 172 16 0 0 (2 ^ 20)
    ∷ block 192 0 2 0 (2 ^ 8)
    ∷ block 192 168 0 0 (2 ^ 16)
    ∷ block 198 51 100 0 (2 ^ 8)
    ∷ block 203 0 113 0 (2 ^ 8)
    ∷ block 224 0 0 0 (2 ^ 29)
    ∷ []

-- The tests of the code, put in the order of the blocks.
tests-join :
    (a10 a172 a192 a127 a169 zero' last d1 d2 d3 m1 m2 sh a0 : Bool)
    → (zero' ≡ true → a0 ≡ true)
    → (last ≡ true → m1 ≡ true)
    → (if (a10 || a172 || a192) || a127 || a169 || zero' || last || (d1 || d2 || d3) || (m1 && m2)
        then false
        else if sh
        then false
        else if a0 || m1
        then false
        else true)
      ≡ not (
          a0
          || (a10
              || (sh
                  || (a127
                      || (a169 || (a172 || (d1 || (a192 || (d2 || (d3 || (m1 || false)))))))))))
tests-join a10 a172 a192 a127 a169 zero' last d1 d2 d3 m1 m2 sh a0 f g = ground arith

is_public_ip-mapped : (m n : ℕ) → mapped m ≡ some n → is_public_ip (v6 m) ≡ is_public_ip (v4 n)
unfolding is_public_ip
is_public_ip-mapped m n h = rw (is_public_ip, h) refl

mapped-eq : (n : ℕ) → n < 2 ^ 32 → mapped (0xffff * 2 ^ 32 + n) ≡ some n
mapped-eq n h = ground arith

or-cong : {a b c d : Bool} → a ≡ b → c ≡ d → a || c ≡ b || d
or-cong e f = cc

-- An IPv4 address counts as public exactly when it lies in none of the blocks 0/8, 10/8, 100.64/10,
-- 127/8, 169.254/16, 172.16/12, 192.0.2/24, 192.168/16, 198.51.100/24, 203.0.113/24 and 224/3. The
-- same holds of the IPv6 address to which it is mapped.
pub is_public_v4-withheld :
    (n : ℕ)
    → n < 2 ^ 32
    → (is_public_ip (v4 n) ≡ not (any (within n) withheld))
      × (is_public_ip (v6 (0xffff * 2 ^ 32 + n)) ≡ is_public_ip (v4 n))
unfolding is_public_ip is_public_v4
is_public_v4-withheld n h = (
  tests-join (octet 0 n == 10) ((octet 0 n == 172) && leb 16 (octet 1 n) && leb (octet 1 n) 31)
        ((octet 0 n == 192) && (octet 1 n == 168)) (octet 0 n == 127)
        ((octet 0 n == 169) && (octet 1 n == 254)) (n == 0) (n == 2 ^ 32 - 1)
        (n / 256 == 192 * 65536 + 2) (n / 256 == 198 * 65536 + 51 * 256 + 100)
        (n / 256 == 203 * 65536 + 113) (leb 224 (octet 0 n)) (leb (octet 0 n) 239)
        ((octet 0 n == 100) && (octet 1 n / 64 == 1)) (octet 0 n == 0) (λ z. ground arith)
        (λ z. ground arith)
      ∙ ap not (
          or-cong (octet0-eq n 0 h (omega arith)) (
            or-cong (octet0-eq n 10 h (omega arith)) (
              or-cong (shared-eq n h) (
                or-cong (octet0-eq n 127 h (omega arith)) (
                  or-cong (pair-eq n 169 254 h (omega arith) (omega arith)) (
                    or-cong (private12-eq n h) (
                      or-cong (triple-eq n (192 * 65536 + 2)) (
                        or-cong (pair-eq n 192 168 h (omega arith) (omega arith)) (
                          or-cong (triple-eq n (198 * 65536 + 51 * 256 + 100)) (
                            or-cong (triple-eq n (203 * 65536 + 113))
                              (or-cong (high-eq n h) refl))))))))))),
  is_public_ip-mapped (0xffff * 2 ^ 32 + n) n (mapped-eq n h),
)

-- A client's address that is not public, or not known, is never sent on by the automatic setting: the
-- query and the mark for its reply stay as they were.
pub exec-private :
    (H : Hickory) (N : Networks) (e : Ecs) (ctx : QueryContext)
    → e.auto ≡ true
    → ((ip : Ip) → ctx.client_addr ≡ some ip → is_public_ip ip ≡ false)
    → ((exec H N e ctx).query ≡ ctx.query)
      × ((exec H N e ctx).strip_ecs_on_reply ≡ ctx.strip_ecs_on_reply)
unfolding exec pick push_trace
exec-private H N e ctx auto private' = elim (Option-cases ctx.client_addr) [
  | inl absent ↦ (ground arith, ground arith)
  | inr (ip, present) ↦ let hidden = private' ip present in (ground arith, ground arith)
]
