-- ===== src/Dnsutil/Subnet.antt =====
-- dnsutil.rs: the client subnet option of a message.
use ferrumdns.Base.{
  ℕ, ◌≡◌, refl, arith, none, some, List, [], ◌∷◌, ◌++◌, filter, inl, inr, Option-cases, append_nil,
}
use ferrumdns.Dns.{subnet_code, ClientSubnet, EdnsOption, Edns, Message, Hickory}
use ferrumdns.Dnsutil.{is_other_option, subnet_of, ecs_of, set_ecs, remove_ecs}

subnet_of-others :
    (os : List (ℕ × EdnsOption)) (l : List (ℕ × EdnsOption))
    → subnet_of (filter is_other_option os ++ l) ≡ subnet_of l
unfolding subnet_of
subnet_of-others [] l = refl
subnet_of-others ((code, EdnsOption.subnet cs) ∷ os) l = ground (arith, subnet_of-others os l)
subnet_of-others ((code, EdnsOption.unknown bs) ∷ os) l = ground (arith, subnet_of-others os l)

filter-others :
    (os : List (ℕ × EdnsOption)) (cs : ClientSubnet)
    → filter is_other_option (filter is_other_option os ++ (subnet_code, EdnsOption.subnet cs) ∷ [])
      ≡ filter is_other_option os
filter-others [] cs = refl
filter-others (o ∷ os) cs = ground (arith, filter-others os cs)

-- After a client subnet is set, a message carries exactly that subnet, whatever options it had.
pub ecs_of-set_ecs :
    (H : Hickory) (msg : Message) (cs : ClientSubnet) → ecs_of (set_ecs H msg cs) ≡ some cs
unfolding ecs_of set_ecs subnet_of
ecs_of-set_ecs H msg cs = elim (Option-cases msg.edns) [
  | inl absent ↦ ground arith
  | inr (e, present) ↦
      ground (arith, subnet_of-others e.options ((subnet_code, EdnsOption.subnet cs) ∷ []))
]

pub ecs_of-remove_ecs : (msg : Message) → ecs_of (remove_ecs msg) ≡ none
unfolding ecs_of remove_ecs subnet_of
ecs_of-remove_ecs msg = elim (Option-cases msg.edns) [
  | inl absent ↦ ground arith
  | inr (e, present) ↦
      ground (arith, subnet_of-others e.options [], append_nil (filter is_other_option e.options))
]

-- Removing the client subnet leaves no client subnet, and undoes setting one: it gives what
-- removing it from the message before gives, when that message has an EDNS record.
pub remove_ecs-set_ecs :
    (H : Hickory) (msg : Message) (cs : ClientSubnet) (e : Edns)
    → msg.edns ≡ some e
    → (ecs_of (remove_ecs (set_ecs H msg cs)) ≡ none)
      × (remove_ecs (set_ecs H msg cs) ≡ remove_ecs msg)
unfolding remove_ecs set_ecs
remove_ecs-set_ecs H msg cs e h = (ecs_of-remove_ecs _, ground (arith, filter-others e.options cs))
