-- ===== src/Machine.antt =====
-- The state machine of a query to one server, p_query_sm of pdnsd/src/dns_query.c. The system calls
-- are a parameter: what the n-th call gives is a function of n. A call on a descriptor that is not
-- open halts like an access outside an object, and so does a store outside the receive buffer.
pub mod Ports
pub mod Sockets
pub mod Receiving
pub mod Arrivals
pub mod Steps
use orbot_library.Prelude.{
  ℕ, zero, suc, ◌+◌, ◌-◌, ◌*◌, ◌%◌, List, [], ◌∷◌, ◌++◌, Bool, true, false, ◌&&◌, ◌||◌, not, Option,
  none, some, Run, ok, halt, out_of_bounds, ◌>>=◌, read, write, ltb, ◌==◌, if◌then◌else◌, length,
  take, replicate,
}
use orbot_library.Header.{get_int16}
use orbot_library.Query.{rc_ok, rc_servfail}
use orbot_library.Query.Process.{udp_bufsize}
use orbot_library.Records.Cents.{rc_fatalerr}
use orbot_library.Machine.Ports.{PortRange, Draws, Port, bind_socket}

-- errno.
abbrev pub e_wouldblock : ℕ
e_wouldblock = 11

abbrev pub e_pipe : ℕ
e_pipe = 32

abbrev pub e_connreset : ℕ
e_connreset = 104

abbrev pub e_connrefused : ℕ
e_connrefused = 111

abbrev pub e_inprogress : ℕ
e_inprogress = 115

-- A call that fails with errno, or succeeds with a value.
pub data Sys (A : Type 0) : Type 0 where
  errno : ℕ → Sys A
  value : A → Sys A

-- What the n-th call gives: a descriptor, whether fcntl makes the socket non-blocking, a
-- connection, how many of the bytes offered are written, the bytes read of at most so many, whether
-- realloc has memory, a random number, and the results of bind with its random numbers.
pub record Calls : Type 0 where
  pub socket : ℕ → Option ℕ
  pub fcntl : ℕ → Bool
  pub connect : ℕ → Sys Unit
  pub write_to : ℕ → ℕ → Sys ℕ
  pub read_from : ℕ → ℕ → Sys (List ℕ)
  pub memory : ℕ → Bool
  pub rand16 : ℕ → ℕ
  pub draws : ℕ → Draws

-- global.
pub record Global : Type 0 where
  pub ports : PortRange
  pub udpbufsize : ℕ

-- The number of calls made, and the sockets of the query that are open.
pub record Os : Type 0 where
  pub clock : ℕ
  pub sockets : List ℕ

-- st->state, and st->qm.
pub data State : Type 0 where
  qs_initial qs_tcpinitial qs_tcpwrite qs_tcpread qs_udpinitial qs_udpreceive qs_canceled qs_done :
      State

pub data Method : Type 0 where
  udp_only tcp_only tcp_udp udp_tcp : Method

unfoldable pub is_tcp_udp : Method → Bool
is_tcp_udp tcp_udp = true
is_tcp_udp udp_only = false
is_tcp_udp tcp_only = false
is_tcp_udp udp_tcp = false

-- The part of query_stat_t that the machine uses; `id` is msg->hdr.id in host order.
pub record QueryStat : Type 0 where
  pub state : State
  pub qm : Method
  pub sock : ℕ
  pub edns_query : Bool
  pub transl : ℕ
  pub recvl : ℕ
  pub iolen : ℕ
  pub recvbuf : List ℕ
  pub id : ℕ
  pub myrid : ℕ
  pub s_errno : ℕ

-- What the machine returns, where `none` is -1, with the state and the system's.
pub record Outcome : Type 0 where
  pub rv : Option ℕ
  pub st : QueryStat
  pub os : Os

unfoldable pub is_open : ℕ → List ℕ → Bool
is_open s [] = false
is_open s (x ∷ xs) = if x == s then true else is_open s xs

unfoldable pub without : ℕ → List ℕ → List ℕ
without s [] = []
without s (x ∷ xs) = if x == s then xs else x ∷ without s xs

-- A call on the socket: the number of the call.
unfoldable pub on_socket : ℕ → Os → Run (ℕ × Os)
on_socket s os =
    if is_open s os.sockets
    then ok (os.clock, record os { clock = os.clock + 1 })
    else halt out_of_bounds

unfoldable pub close_sock : ℕ → Os → Run Os
close_sock s os =
    if is_open s os.sockets
    then ok (record os { sockets = without s os.sockets })
    else halt out_of_bounds

-- The end of the function: a code, and QS_DONE.
unfoldable pub finished : ℕ → QueryStat → Os → Run Outcome
finished rc st os = ok (record { rv = some rc; st = record st { state = qs_done }; os = os })

unfoldable pub call_again : QueryStat → Os → Run Outcome
call_again st os = ok (record { rv = none; st = st; os = os })

-- `close(st->sock); break;`.
unfoldable pub close_and : ℕ → QueryStat → Os → Run Outcome
close_and rc st os = close_sock st.sock os >>= λ o. finished rc st o

-- realloc_or_cleanup.
unfoldable pub resize_buf : Bool → List ℕ → ℕ → Option (List ℕ)
resize_buf room buf n = if room then some (take n (buf ++ replicate n 0)) else none

-- Bytes stored into a buffer.
unfoldable pub store : List ℕ → ℕ → List ℕ → Run (List ℕ)
store buf i [] = ok buf
store buf i (b ∷ bs) = write buf i b >>= λ out. store out (i + 1) bs

-- QS_UDPINITIAL behind send, behind connect, and behind bind_socket.
unfoldable pub udp_sent : QueryStat → Os → Sys ℕ → Run Outcome
udp_sent st os (errno e) = close_and rc_servfail (record st { s_errno = e }) os
udp_sent st os (value n) = call_again (record st { state = qs_udpreceive }) os

unfoldable pub udp_connected : Calls → QueryStat → Os → Sys Unit → Run Outcome
udp_connected calls st os (errno e) =
    close_and rc_servfail (if e == e_connrefused then record st { s_errno = e } else st) os
udp_connected calls st os (value _) =
    on_socket st.sock os >>= λ w. udp_sent st w.1 (calls.write_to w.0 st.transl)

unfoldable pub udp_transmit : Calls → QueryStat → Os → Run Outcome
udp_transmit calls st os =
    on_socket st.sock os >>= λ c. udp_connected calls st c.1 (calls.connect c.0)

-- What follows bind_socket, where `none` is the result 0.
unfoldable pub bound : QueryStat → Os → (QueryStat → Os → Run Outcome) → Option Port → Run Outcome
bound st os next none = close_and rc_servfail st os
bound st os next (some _) = next st os

-- What follows the call of socket: the new socket is bound.
unfoldable pub opened :
    Calls → Global → QueryStat → Os → (QueryStat → Os → Run Outcome) → Option ℕ → Run Outcome
opened calls global st os next none = finished rc_servfail st os
opened calls global st os next (some s) = bind_socket global.ports (calls.draws os.clock) >>= λ b.
    bound (record st { sock = s }) (record os { sockets = s ∷ os.sockets }) next b

unfoldable pub with_socket :
    Calls → Global → QueryStat → Os → (QueryStat → Os → Run Outcome) → Run Outcome
with_socket calls global st os next =
    opened calls global st (record os { clock = os.clock + 1 }) next (calls.socket os.clock)

unfoldable pub udp_initial : Calls → Global → QueryStat → Os → Run Outcome
udp_initial calls global st os = with_socket calls global st os (udp_transmit calls)

-- QS_UDPRECEIVE behind the call of recv, behind realloc_or_cleanup, and from its start.
unfoldable pub udp_received : QueryStat → Os → Sys (List ℕ) → Run Outcome
udp_received st os (errno e) = close_and rc_servfail (record st { s_errno = e }) os
udp_received st os (value bytes) = store st.recvbuf 0 bytes >>= λ buf.
    let st2 = record st { recvbuf = buf; recvl = length bytes % 65536 } in
    if ltb st2.recvl 12
    then call_again st2 os
    else (get_int16 buf 0 >>= λ id.
        if not (id == st.myrid)
        then call_again st2 os
        else (close_sock st.sock os >>= λ o. finished rc_ok st2 o))

unfoldable pub udp_buffered : Calls → ℕ → QueryStat → Os → Option (List ℕ) → Run Outcome
udp_buffered calls size st os none = close_and rc_fatalerr (record st { recvbuf = [] }) os
udp_buffered calls size st os (some buf) = on_socket st.sock os >>= λ c.
    udp_received (record st { recvbuf = buf }) c.1 (calls.read_from c.0 size)

unfoldable pub udp_receive : Calls → Global → QueryStat → Os → Run Outcome
udp_receive calls global st os =
    let size = if st.edns_query then global.udpbufsize else udp_bufsize in
    udp_buffered calls size st (record os { clock = os.clock + 1 })
      (resize_buf (calls.memory os.clock) st.recvbuf size)

unfoldable pub switch_to_udp : ℕ → QueryStat → QueryStat
switch_to_udp r st = record st { qm = udp_only; myrid = r; id = r; state = qs_udpinitial }

-- From the label tcp_failed on.
unfoldable pub tcp_failed : Calls → Global → QueryStat → Os → Run Outcome
tcp_failed calls global st os =
    if is_tcp_udp st.qm
    then udp_initial calls global (switch_to_udp (calls.rand16 os.clock) st)
        (record os { clock = os.clock + 1 })
    else finished rc_servfail st os

-- From the label error_receiv_data on.
unfoldable pub receive_error : Calls → Global → QueryStat → Os → Run Outcome
receive_error calls global st os = close_sock st.sock os >>= λ o. tcp_failed calls global st o

-- A failing read.
unfoldable pub read_error : Calls → Global → QueryStat → Os → ℕ → Run Outcome
read_error calls global st os e =
    if e == e_wouldblock
    then call_again st os
    else receive_error calls global (record st { s_errno = e }) os

-- The end of QS_TCPREAD.
unfoldable pub tcp_complete : QueryStat → Os → Run Outcome
tcp_complete st os = close_sock st.sock os >>= λ o. finished rc_ok st o

-- QS_TCPREAD, the data behind the length field: behind the call of read for `rem` bytes, and before.
unfoldable pub tcp_stored : Calls → Global → QueryStat → Os → ℕ → Sys (List ℕ) → Run Outcome
tcp_stored calls global st os rem (errno e) = read_error calls global st os e
tcp_stored calls global st os rem (value bytes) =
    if length bytes == 0
    then receive_error calls global st os
    else (store st.recvbuf (st.iolen - 2) bytes >>= λ buf.
        let st2 = record st { recvbuf = buf; iolen = st.iolen + length bytes } in
        if ltb (length bytes) rem then call_again st2 os else tcp_complete st2 os)

unfoldable pub tcp_data : Calls → Global → QueryStat → Os → Run Outcome
tcp_data calls global st os =
    let rem = st.recvl - (st.iolen - 2) in
    if not (ltb 0 rem)
    then tcp_complete st os
    else (on_socket st.sock os >>= λ c.
        tcp_stored calls global st c.1 rem (calls.read_from c.0 rem))

-- The length field of an answer has come, and the buffer is made as large.
unfoldable pub tcp_buffered : Calls → Global → QueryStat → Os → Option (List ℕ) → Run Outcome
tcp_buffered calls global st os none = close_and rc_fatalerr (record st { recvbuf = [] }) os
tcp_buffered calls global st os (some buf) = tcp_data calls global (record st { recvbuf = buf }) os

unfoldable pub tcp_length : Calls → Global → QueryStat → Os → Sys (List ℕ) → Run Outcome
tcp_length calls global st os (errno e) = read_error calls global st os e
tcp_length calls global st os (value bytes) =
    if not (length bytes == 2)
    then receive_error calls global st os
    else (get_int16 bytes 0 >>= λ recvl.
        tcp_buffered calls global (record st { iolen = 2; recvl = recvl })
          (record os { clock = os.clock + 1 })
          (resize_buf (calls.memory os.clock) st.recvbuf recvl))

unfoldable pub tcp_read : Calls → Global → QueryStat → Os → Run Outcome
tcp_read calls global st os =
    if not (st.iolen == 0)
    then tcp_data calls global st os
    else (on_socket st.sock os >>= λ c. tcp_length calls global st c.1 (calls.read_from c.0 2))

-- The end of QS_TCPWRITE.
unfoldable pub tcp_sent : Calls → Global → QueryStat → Os → Run Outcome
tcp_sent calls global st os = tcp_read calls global (record st { state = qs_tcpread; iolen = 0 }) os

-- QS_TCPWRITE behind the call of write of `rem` bytes, and before.
unfoldable pub tcp_written : Calls → Global → QueryStat → Os → ℕ → Sys ℕ → Run Outcome
tcp_written calls global st os rem (errno e) =
    if e == e_wouldblock
    then call_again st os
    else (close_sock st.sock os >>= λ o.
        if (st.iolen == 0) && ((e == e_connrefused) || (e == e_connreset) || (e == e_pipe))
        then tcp_failed calls global (record st { s_errno = e }) o
        else finished rc_servfail (record st { s_errno = e }) o)
tcp_written calls global st os rem (value n) =
    let st2 = record st { iolen = st.iolen + n } in
    if ltb n rem then call_again st2 os else tcp_sent calls global st2 os

unfoldable pub tcp_write : Calls → Global → QueryStat → Os → Run Outcome
tcp_write calls global st os =
    let rem = 2 + st.transl - st.iolen in
    if not (ltb 0 rem)
    then tcp_sent calls global st os
    else (on_socket st.sock os >>= λ c.
        tcp_written calls global st c.1 rem (calls.write_to c.0 rem))

-- QS_TCPINITIAL behind connect, and behind bind_socket.
unfoldable pub tcp_connected : Calls → Global → QueryStat → Os → Sys Unit → Run Outcome
tcp_connected calls global st os (value _) =
    tcp_write calls global (record st { state = qs_tcpwrite }) os
tcp_connected calls global st os (errno e) =
    if (e == e_inprogress) || (e == e_pipe)
    then call_again (record st { state = qs_tcpwrite }) os
    else if e == e_connrefused
    then receive_error calls global (record st { s_errno = e }) os
    else close_and rc_servfail st os

unfoldable pub tcp_connect : Calls → Global → QueryStat → Os → Run Outcome
tcp_connect calls global st os = on_socket st.sock os >>= λ f.
    if not (calls.fcntl f.0)
    then close_and rc_servfail st f.1
    else (on_socket st.sock f.1 >>= λ c.
        tcp_connected calls global (record st { iolen = 0 }) c.1 (calls.connect c.0))

unfoldable pub tcp_initial : Calls → Global → QueryStat → Os → Run Outcome
tcp_initial calls global st os = with_socket calls global st os (tcp_connect calls global)

-- The switch on a state.
unfoldable pub in_state : State → Calls → Global → QueryStat → Os → Run Outcome
in_state qs_tcpinitial calls global st os = tcp_initial calls global st os
in_state qs_tcpwrite calls global st os = tcp_write calls global st os
in_state qs_tcpread calls global st os = tcp_read calls global st os
in_state qs_udpinitial calls global st os = udp_initial calls global st os
in_state qs_udpreceive calls global st os = udp_receive calls global st os
in_state qs_initial calls global st os = finished rc_servfail st os
in_state qs_canceled calls global st os = finished rc_servfail st os
in_state qs_done calls global st os = finished rc_servfail st os

unfoldable pub p_query_sm : Calls → Global → QueryStat → Os → Run Outcome
p_query_sm calls global st os = in_state st.state calls global st os
