-- ===== src/Server/Binding/Bits.antt =====
-- src/uv_net.cpp: the bits of net_type that bind_net looks at.
use ocserver.Common.{ℕ, ◌/◌, ◌%◌, ◌≡◌, false, arith, ◌==◌, if◌then◌else◌}
use ocserver.Server.Binding.{tcp6, tcp4, udp_not_implemented, bind_net}

-- The third bit is never seen: the server binds to IPv4, to IPv6 without the flag, or not at all.
bind_net_ignores_v6only :
    (net_type : ℕ)
    → bind_net net_type ≡ (
        if net_type % 2 == 0
        then (if net_type / 2 % 2 == 0 then tcp6 false else tcp4)
        else udp_not_implemented)
unfolding bind_net
bind_net_ignores_v6only net_type = ground arith
