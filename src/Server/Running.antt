-- ===== src/Server/Running.antt =====
-- src/uv_net.cpp: the constructors of uvnet, its settings, the certificate, and the calls that start the server. What
-- libuv and OpenSSL return is an argument; an int is its word.
use ocserver.Common.{
  ℕ, Bool, true, false, List, [], ◌∷◌, ◌++◌, Option, none, some, ◌==◌, if◌then◌else◌, codes,
}
use ocserver.Log.{d_error, d_info, d_warning, d_network}
use ocserver.Config.{M, ◌>>=◌, ◌>>◌, pure, report}
use ocserver.Server.Binding.{
  udp_not_implemented, get_net_addr_type, with_address, get_uv_error, bind_net,
}

-- `lasterrmsg`, `net_type`, `bind_addr`, `port`, whether there is a protocol, and whether the loop, the TLS context and
-- the mutex are initialised.
pub record Net : Type 0 where
  pub lasterrmsg : List ℕ
  pub net_type : ℕ
  pub bind_addr : List ℕ
  pub port : ℕ
  pub protocol : Bool
  pub initialised : Bool

-- The members of a new object.
abbrev pub new_net : Net
new_net = record {
  lasterrmsg = [];
  net_type = 0;
  bind_addr = codes "::";
  port = 9001;
  protocol = false;
  initialised = false;
}

-- uvnet( bindaddr, port, netProtocol ): the other constructor is called on an object of its own, not on this.
unfoldable pub bound_net : (List ℕ → Bool) → (List ℕ → Bool) → List ℕ → ℕ → Bool → Net
bound_net is_ip6 is_ip4 bindaddr port net_protocol = record new_net {
  net_type =
      with_address (if net_protocol then 1 else 0) (get_net_addr_type is_ip6 is_ip4 bindaddr);
  bind_addr = bindaddr;
  port = port;
}

-- SetProtocol
unfoldable pub set_protocol : Bool → Net → Net
set_protocol given net = record net { protocol = given }

module _ (now : List ℕ) (frames : List (List ℕ)) (name error_string : ℕ → Option (List ℕ))
    (decimal : ℕ → List ℕ) where
  abbrev pub uv_error : ℕ → List ℕ
  uv_error code = get_uv_error name error_string decimal code

  -- The error of libuv is kept and logged at a level; false is returned.
  abbrev pub fails_with : ℕ → List (List ℕ) → ℕ → Net → M (Bool × Net)
  fails_with level prefix code net = do
    report now frames level d_network (prefix ++ (uv_error code ∷ []))
    pure (false, record net { lasterrmsg = uv_error code })

  -- SetNoDelay and SetKeepAlive, of what uv_tcp_nodelay and uv_tcp_keepalive return.
  unfoldable pub set_no_delay : ℕ → Net → M (Bool × Net)
  set_no_delay iret net = if iret == 0 then pure (true, net) else fails_with d_warning [] iret net

  unfoldable pub set_keep_alive : ℕ → Net → M (Bool × Net)
  set_keep_alive iret net = if iret == 0 then pure (true, net) else fails_with d_warning [] iret net

  -- The constructor, of what uv_loop_init, evt_ctx_init and uv_mutex_init return; `err` is ERR_get_error's and
  -- `err_text` ERR_error_string's.
  unfoldable pub make_net : ℕ → ℕ → ℕ → ℕ → List ℕ → M Net
  make_net loop_ret ctx_ret mutex_ret err err_text =
      if loop_ret == 0
      then ((if ctx_ret == 0
            then pure tt
            else report now frames d_error d_network (
                (codes "evt_ctx_init error: " ++ decimal err ++ codes " (" ++ err_text ++ codes ")")
                ∷ []))
          >> (if mutex_ret == 0
              then pure (record new_net { initialised = true })
              else (fails_with d_error [] mutex_ret new_net >>= λ r. pure r.1)))
      else (fails_with d_error [] loop_ret new_net >>= λ r. pure r.1)

  -- set_srvcert, of what evt_ctx_set_crt_key returns.
  unfoldable pub set_srvcert : ℕ → List ℕ → List ℕ → M ℕ
  set_srvcert ret cert key = do
    report now frames d_info d_network
        (codes "Loading server certification path: " ∷ cert ∷ codes " key path: " ∷ key ∷ [])
    pure ret

  -- bind_net with its messages, and what uv_listen returns.
  unfoldable pub bind_and_listen : ℕ → Net → M Net
  bind_and_listen listen_ret net = elim (bind_net net.net_type) [
    | udp_not_implemented ↦
        report now frames d_warning d_network (codes "UDP mode not implemented." ∷ []) >> pure net
    | _ ↦
        report now frames d_info d_network
          (codes "Binding to TCP address " ∷ net.bind_addr ∷ codes ":" ∷ decimal net.port ∷ [])
        >> (if listen_ret == 0
            then pure net
            else (fails_with d_warning (codes "uv_listen error: " ∷ []) listen_ret net >>= λ r.
                pure r.1))
  ]

  -- Start, of what uv_thread_create returns; without a protocol the assertion fails.
  unfoldable pub start_net : ℕ → Net → M (Option (Bool × Net))
  start_net iret net =
      if net.protocol
      then (if iret == 0
          then pure (some (true, net))
          else (fails_with d_warning [] iret net >>= λ r. pure (some r)))
      else pure none

  -- run_loop, of what uv_run returns.
  unfoldable pub run_loop : ℕ → Net → M (Bool × Net)
  run_loop iret net = do
    report now frames d_info d_network (codes "Server is started." ∷ [])
    if iret == 0 then pure (true, net) else fails_with d_warning [] iret net

-- getTLSError: `text` is ERR_error_string's, `reason` ERR_reason_error_string's.
unfoldable pub get_tls_error : (ℕ → List ℕ) → (ℕ → List ℕ) → (ℕ → Option (List ℕ)) → ℕ → List ℕ
get_tls_error decimal text reason errcode =
    codes "SSL error code:["
    ++ decimal errcode
    ++ codes "]("
    ++ text errcode
    ++ codes ")"
    ++ (10 ∷ [])
    ++ elim (reason errcode) [ none ↦ [] | some r ↦ codes "Error reason is" ++ r ]
