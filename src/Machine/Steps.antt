-- ===== src/Machine/Steps.antt =====
-- The state machine of a query holds its one socket while it waits, and none when it ends.
use orbot_library.Prelude.{
  ℕ, ◌+◌, ◌-◌, ◌≤◌, ◌≡◌, refl, not, inl, [], ◌∷◌, Returns, Returns-if, Returns->>=, ltb, ◌==◌, ◌&&◌,
  ◌||◌, arith,
}
use orbot_library.Query.{rc_servfail}
use orbot_library.Machine.{
  Sys, errno, value, Calls, Global, Os, State, qs_initial, qs_tcpinitial, qs_tcpwrite, qs_tcpread,
  qs_udpinitial, qs_udpreceive, qs_canceled, qs_done, QueryStat,
}
use orbot_library.Machine.{e_connrefused}
use orbot_library.Machine.Sockets.{
  Lawful, Holding, Stepped, on_socket-ok, close_sock-ok, close_and-Stepped, failed-Stepped,
  waits-Stepped, with_socket-Stepped,
}
use orbot_library.Machine.{
  e_wouldblock, e_inprogress, e_pipe, e_connreset, tcp_sent, tcp_written, tcp_write, tcp_connected,
  tcp_connect, tcp_initial, in_state, p_query_sm,
}
use orbot_library.Machine.Receiving.{udp_initial-Stepped, udp_receive-Stepped}
use orbot_library.Machine.Arrivals.{tcp_failed-Stepped, receive_error-Stepped, tcp_read-Stepped}

module _ (calls : Calls) (global : Global) (lawful : Lawful calls) where
  tcp_sent-Stepped :
      (st : QueryStat) (os : Os)
      → os.sockets ≡ st.sock ∷ []
      → Returns (tcp_sent calls global st os) Stepped
  unfolding tcp_sent
  tcp_sent-Stepped st os h =
      tcp_read-Stepped calls global lawful (record st { state = qs_tcpread; iolen = 0 }) os refl h
        (inl refl)

  tcp_written-Stepped :
      (st : QueryStat) (os : Os) (rem : ℕ) (r : Sys ℕ)
      → st.state ≡ qs_tcpwrite
      → os.sockets ≡ st.sock ∷ []
      → st.iolen + rem ≡ 2 + st.transl
      → ((m : ℕ) → r ≡ value m → m ≤ rem)
      → Returns (tcp_written calls global st os rem r) Stepped
  unfolding tcp_written
  tcp_written-Stepped st os rem (errno e) here h left most =
      Returns-if Stepped (e == e_wouldblock)
        (λ _. waits-Stepped qs_tcpwrite st os here (_, (h, omega (arith, left))))
        λ _. Returns->>= _ _ (close_sock-ok st.sock os h) (
          Returns-if Stepped
            ((st.iolen == 0) && ((e == e_connrefused) || (e == e_connreset) || (e == e_pipe)))
            (λ _. tcp_failed-Stepped calls global lawful (record st { s_errno = e }) _ refl)
            λ _. failed-Stepped (record st { s_errno = e }) _ refl)
  tcp_written-Stepped st os rem (value n) here h left most =
      Returns-if Stepped (ltb n rem)
        (λ _.
          waits-Stepped qs_tcpwrite (record st { iolen = st.iolen + n }) os here
            (_, (h, omega (arith, left, most n refl))))
        λ _. tcp_sent-Stepped (record st { iolen = st.iolen + n }) os h

  tcp_write-Stepped :
      (st : QueryStat) (os : Os)
      → st.state ≡ qs_tcpwrite
      → os.sockets ≡ st.sock ∷ []
      → st.iolen ≤ 2 + st.transl
      → Returns (tcp_write calls global st os) Stepped
  unfolding tcp_write
  tcp_write-Stepped st os here h high =
      let rem = 2 + st.transl - st.iolen in
      Returns-if Stepped (not (ltb 0 rem)) (λ _. tcp_sent-Stepped st os h)
        λ _. Returns->>= _ _ (on_socket-ok st.sock os h) (
          tcp_written-Stepped st _ rem (calls.write_to os.clock rem) here h (omega (arith, high))
            (λ m e. lawful.write_most os.clock rem m e))

  tcp_connected-Stepped :
      (st : QueryStat) (os : Os) (r : Sys Unit)
      → os.sockets ≡ st.sock ∷ []
      → st.iolen ≡ 0
      → Returns (tcp_connected calls global st os r) Stepped
  unfolding tcp_connected
  tcp_connected-Stepped st os (value _) h z =
      tcp_write-Stepped (record st { state = qs_tcpwrite }) os refl h (omega (arith, z))
  tcp_connected-Stepped st os (errno e) h z =
      Returns-if Stepped ((e == e_inprogress) || (e == e_pipe))
        (λ _.
          waits-Stepped qs_tcpwrite (record st { state = qs_tcpwrite }) os refl
            (_, (h, omega (arith, z))))
        λ _.
          Returns-if Stepped (e == e_connrefused)
            (λ _. receive_error-Stepped calls global lawful (record st { s_errno = e }) os h)
            λ _. close_and-Stepped rc_servfail st os h (inl refl)

  tcp_initial-Stepped :
      (st : QueryStat) (os : Os)
      → os.sockets ≡ []
      → Returns (tcp_initial calls global st os) Stepped
  unfolding tcp_initial tcp_connect
  tcp_initial-Stepped st os h = with_socket-Stepped calls global st os _ h λ s o held.
      Returns->>= _ _ (on_socket-ok s o held) (
        Returns-if Stepped (not (calls.fcntl o.clock))
          (λ _. close_and-Stepped rc_servfail (record st { sock = s }) _ held (inl refl))
          λ _. Returns->>= _ _ (on_socket-ok s (record o { clock = o.clock + 1 }) held) (
            tcp_connected-Stepped (record st { sock = s; iolen = 0 }) _
              (calls.connect (o.clock + 1)) held refl))

  in_state-Stepped :
      (q : State) (st : QueryStat) (os : Os)
      → st.state ≡ q
      → Holding q st os
      → Returns (in_state q calls global st os) Stepped
  unfolding in_state
  in_state-Stepped qs_tcpinitial st os here h = tcp_initial-Stepped st os h
  in_state-Stepped qs_tcpwrite st os here (h, high) = tcp_write-Stepped st os here h high
  in_state-Stepped qs_tcpread st os here (h, a) =
      tcp_read-Stepped calls global lawful st os here h a
  in_state-Stepped qs_udpinitial st os here h = udp_initial-Stepped calls global st os h
  in_state-Stepped qs_udpreceive st os here h = udp_receive-Stepped calls global lawful st os here h
  in_state-Stepped qs_initial st os here h = failed-Stepped st os h
  in_state-Stepped qs_canceled st os here h = failed-Stepped st os h
  in_state-Stepped qs_done st os here h = failed-Stepped st os h

  -- p_query_sm, in each state and whatever the system calls give, as long as read and write move no
  -- more bytes than they are asked to: where the query holds its one socket open if it waits, and
  -- none if not, it makes calls on that open socket only, stores inside the receive buffer, and
  -- returns with the same holding. With -1 it waits in a state for reading or writing; else it is in
  -- QS_DONE with no socket open, and with RC_OK a whole answer has come by TCP, or one of at least a
  -- header and with the identifier of the query by UDP.
  pub p_query_sm-Stepped :
      (st : QueryStat) (os : Os)
      → Holding st.state st os
      → Returns (p_query_sm calls global st os) Stepped
  unfolding p_query_sm
  p_query_sm-Stepped st os h = in_state-Stepped st.state st os refl h
