-- ===== src/Tests/Sockets.antt =====
-- A query by TCP that the server refuses, and that is then sent by UDP.
use orbot_library.Prelude.{
  ℕ, zero, suc, ◌+◌, ◌≤◌, ◌≡◌, refl, ap, List, [], ◌∷◌, true, false, none, some, ok, arith,
  replicate, take, length, Returns,
}
use orbot_library.Machine.Ports.{
  port, bind_socket, try_ports, scan, draw, mask_size, power_above, next_port,
}
use orbot_library.Machine.Ports.Binding.{Bound, bind_socket-Bound}
use orbot_library.Machine.{
  Sys, errno, value, Calls, Global, Os, qs_tcpinitial, qs_udpreceive, tcp_udp, udp_only, QueryStat,
  p_query_sm, in_state, tcp_initial, with_socket, opened, bound, tcp_connect, tcp_connected,
  on_socket, is_open, receive_error, close_sock, without, tcp_failed, is_tcp_udp, switch_to_udp,
  udp_initial, udp_transmit, udp_connected, udp_sent, call_again,
}
use orbot_library.Machine.Sockets.{Lawful, Stepped}
use orbot_library.Machine.Steps.{p_query_sm-Stepped}

-- connect fails once, with ECONNREFUSED.
abbrev calls : Calls
calls = record {
  socket = λ n. some n;
  fcntl = λ n. true;
  connect = λ n. elim n [ suc (suc zero) ↦ errno 111 | _ ↦ value tt ];
  write_to = λ n k. value k;
  read_from = λ n k. value (take k (replicate 12 7));
  memory = λ n. true;
  rand16 = λ n. 0x707;
  draws = λ n. record { rand16 = λ i. i; bind = λ i p. some true };
}

abbrev global : Global
global = record {
  ports = record { query_port_start = some 1024; query_port_end = 1030 };
  udpbufsize = 1024;
}

abbrev asking : QueryStat
asking = record {
  state = qs_tcpinitial;
  qm = tcp_udp;
  sock = 0;
  edns_query = false;
  transl = 30;
  recvl = 0;
  iolen = 0;
  recvbuf = [];
  id = 5;
  myrid = 5;
  s_errno = 0;
}

abbrev idle : Os
idle = record { clock = 0; sockets = [] }

-- Three of seven ports are in use.
port_choice :
    bind_socket
      (record { query_port_start = some 1024; query_port_end = 1030 })
      (record {
        rand16 = λ i. i + 7;
        bind = λ i p. elim i [ zero ↦ some false | suc zero ↦ some false | _ ↦ some true ];
      })
    ≡ ok (some (port 1026))
unfolding bind_socket try_ports scan draw mask_size power_above next_port
port_choice = refl

bind_socket-Bound_example :
    Returns (bind_socket global.ports (calls.draws 1)) (Bound global.ports (calls.draws 1))
bind_socket-Bound_example = bind_socket-Bound global.ports (calls.draws 1)

taken : (k : ℕ) (bytes : List ℕ) → length (take k bytes) ≤ k
taken zero bytes = omega arith
taken (suc k) [] = omega arith
taken (suc k) (b ∷ bytes) = omega (arith, taken k bytes)

value_injective : {A : Type 0} {a b : A} → ◌≡◌ {A = Sys A} (value a) (value b) → a ≡ b
value_injective {a = a} e = ap (λ r. elim r [ errno _ ↦ a | value x ↦ x ]) e

calls-Lawful : Lawful calls
calls-Lawful = record {
  read_most = λ n k bytes e. omega (arith, taken k (replicate 12 7), ap length (value_injective e));
  write_most = λ n k m e. omega (arith, value_injective e);
}

p_query_sm-Stepped_example : Returns (p_query_sm calls global asking idle) Stepped
p_query_sm-Stepped_example = p_query_sm-Stepped calls global calls-Lawful asking idle refl

p_query_sm_refused :
    p_query_sm calls global asking idle
    ≡ ok (record {
      rv = none;
      st = record asking {
        state = qs_udpreceive;
        qm = udp_only;
        sock = 4;
        id = 0x707;
        myrid = 0x707;
        s_errno = 111;
      };
      os = record { clock = 7; sockets = 4 ∷ [] };
    })
unfolding p_query_sm in_state tcp_initial with_socket opened bind_socket try_ports draw mask_size
    power_above bound tcp_connect tcp_connected on_socket is_open receive_error close_sock without
    tcp_failed is_tcp_udp switch_to_udp udp_initial udp_transmit udp_connected udp_sent call_again
p_query_sm_refused = refl
