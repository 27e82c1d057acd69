-- ===== src/Server/Binding.antt =====
-- src/uv_net.cpp: uvnet::bind_net and what it looks at, getNetAddrType, and the text of an error of libuv. What libuv
-- answers is an argument.
mod Bits
use ocserver.Common.{
  ℕ, ◌*◌, ◌+◌, ◌-◌, ◌/◌, ◌%◌, ◌^◌, Bool, true, false, List, [], ◌∷◌, ◌++◌, Option, none, some, ◌==◌,
  if◌then◌else◌, codes,
}

-- `net_type & 2 ^ k`
abbrev pub masked : ℕ → ℕ → ℕ
masked k net_type = net_type / 2 ^ k % 2 * 2 ^ k

-- Whether uv_ip6_addr and uv_ip4_addr read the address; the int is -1 as a word for a bad one.
abbrev pub get_net_addr_type : (List ℕ → Bool) → (List ℕ → Bool) → List ℕ → ℕ
get_net_addr_type is_ip6 is_ip4 saddr =
    if is_ip6 saddr then 0 else if is_ip4 saddr then 2 else 2 ^ 8 - 1

-- `net_type |= addrT`, where the first bit is the protocol that was asked for.
abbrev pub with_address : ℕ → ℕ → ℕ
with_address net_type addr_type =
    if addr_type == 2 ^ 8 - 1
    then net_type
    else if addr_type == 2
    then (if net_type / 2 % 2 == 1 then net_type else net_type + 2)
    else net_type

-- The call of uv_tcp_bind, with its flag UV_TCP_IPV6ONLY.
pub data Bound : Type 0 where
  tcp6 : Bool → Bound
  tcp4 udp_not_implemented : Bound

unfoldable pub bind_net : ℕ → Bound
bind_net net_type =
    if masked 0 net_type == 0
    then (if masked 1 net_type == 0
        then (if masked 2 net_type == 1 then tcp6 true else tcp6 false)
        else tcp4)
    else udp_not_implemented

-- `name` and `text` are what uv_err_name and uv_strerror give, `decimal` how std::to_string prints.
unfoldable pub get_uv_error :
    (ℕ → Option (List ℕ)) → (ℕ → Option (List ℕ)) → (ℕ → List ℕ) → ℕ → List ℕ
get_uv_error name text decimal errcode =
    if errcode == 0
    then []
    else elim (name errcode) [
      | some n ↦ n ++ codes ":"
      | none ↦ codes "Unknown system errcode " ++ decimal errcode ++ codes ":"
    ]
      ++ elim (text errcode) [ some t ↦ t | none ↦ [] ]
