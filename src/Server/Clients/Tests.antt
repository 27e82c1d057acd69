-- ===== src/Server/Clients/Tests.antt =====
-- src/uv_net.cpp: the theorems on clients at concrete runs.
use ocserver.Common.{
  ◌<◌, ◌≤◌, ◌≡◌, ◌⊎◌, refl, true, false, [], ◌∷◌, ◌++◌, length, arith, ◌==◌, if◌then◌else◌,
}
use ocserver.Server.Writes.{backlog}
use ocserver.Server.Clients.{
  Clients, ok, use_after_free, double_free, is_live, on_new_connection, recycle_tcp_handle,
  sub_client_closed, find, and_then, destroy,
}
use ocserver.Server.Clients.Memory.{IsValid, Goes, on_new_connection-Goes, recycle_tcp_handle-Goes}
use ocserver.Server.Clients.Destruction.{destroy_after_close}
use ocserver.Server.Clients.Lifetime.{
  no_clients, Opened, starts, goes_on, connects, Opened-IsValid, IsAccepted,
  sub_client_closed_dangles, reconnect_faults,
}

-- One client, accepted at the first address.
abbrev one_client : Clients
one_client = record {
  client_list = [];
  client_map = (1, 0) ∷ [];
  s_id = 1;
  clientid = λ c. if c == 0 then 1 else 0;
  live = 0 ∷ [];
  fresh = 1;
  closing = [];
}

-- One client whose handle could not be read from.
abbrev one_closing : Clients
one_closing = record one_client { client_map = []; closing = 0 ∷ [] }

one_client_connected : on_new_connection true true true no_clients ≡ ok one_client
unfolding on_new_connection
one_client_connected = refl

one_closing_connected : on_new_connection true true false no_clients ≡ ok one_closing
unfolding on_new_connection
one_closing_connected = refl

one_client-Opened : Opened one_client
one_client-Opened = goes_on starts (connects true true true one_client_connected)

one_closing-Opened : Opened one_closing
one_closing-Opened = goes_on starts (connects true true false one_closing_connected)

one_client-IsAccepted : IsAccepted 0 one_client
unfolding find
one_client-IsAccepted = refl

Opened-IsValid_example : IsValid one_client
Opened-IsValid_example = Opened-IsValid one_client one_client-Opened

on_new_connection-Goes_example : Goes (on_new_connection true true true one_client)
on_new_connection-Goes_example =
    on_new_connection-Goes true true true one_client (Opened-IsValid one_client one_client-Opened)

recycle_tcp_handle-Goes_run : Goes (recycle_tcp_handle 0 one_closing)
recycle_tcp_handle-Goes_run =
    recycle_tcp_handle-Goes 0 one_closing (Opened-IsValid one_closing one_closing-Opened)
      (omega arith)

sub_client_closed_dangles_example :
    ((backlog < length one_client.client_list) × (sub_client_closed 0 one_client ≡ double_free))
    ⊎ ((length one_client.client_list ≤ backlog)
        × ((s' : Clients) × (sub_client_closed 0 one_client ≡ ok s')
            × (s'.client_list ≡ one_client.client_list ++ (0 ∷ []))
            × (is_live 0 s' ≡ false)))
sub_client_closed_dangles_example =
    sub_client_closed_dangles 0 one_client (Opened-IsValid one_client one_client-Opened)
      one_client-IsAccepted

reconnect_faults_example :
    and_then (sub_client_closed 0 one_client) (on_new_connection true true true) ≡ use_after_free
reconnect_faults_example =
    reconnect_faults true true 0 one_client (Opened-IsValid one_client one_client-Opened)
      one_client-IsAccepted refl

destroy_after_close_example : and_then (sub_client_closed 0 one_client) destroy ≡ double_free
destroy_after_close_example =
    destroy_after_close 0 one_client (Opened-IsValid one_client one_client-Opened)
      one_client-IsAccepted
