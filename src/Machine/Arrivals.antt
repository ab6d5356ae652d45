-- ===== src/Machine/Arrivals.antt =====
-- The answers by TCP.
use orbot_library.Prelude.{
  ℕ, ◌+◌, ◌-◌, ◌≤◌, ◌≡◌, refl, not, ◌∙◌, inl, inr, List, [], ◌∷◌, Option, none, some, Returns,
  Returns-if, Returns->>=, ltb, ◌==◌, length, arith,
}
use orbot_library.Records.Cents.{rc_fatalerr}
use orbot_library.Machine.{Sys, errno, value, Calls, Global, Os, qs_tcpread, QueryStat, resize_buf}
use orbot_library.Header.Words.{get_int16-Returns}
use orbot_library.Machine.Sockets.{
  Lawful, Stepped, on_socket-ok, close_sock-ok, close_and-Stepped, failed-Stepped, waits-Stepped,
  complete-Stepped,
}
use orbot_library.Machine.{
  e_wouldblock, is_tcp_udp, tcp_failed, receive_error, read_error, tcp_complete, tcp_stored,
  tcp_data, tcp_buffered, tcp_length, tcp_read,
}
use orbot_library.Machine.Sockets.{Arriving}
use orbot_library.Machine.Receiving.{
  store-Returns, HasSize, resize_buf-HasSize, udp_initial-Stepped,
}

module _ (calls : Calls) (global : Global) (lawful : Lawful calls) where
  pub tcp_failed-Stepped :
      (st : QueryStat) (os : Os) → os.sockets ≡ [] → Returns (tcp_failed calls global st os) Stepped
  unfolding tcp_failed
  tcp_failed-Stepped st os h =
      Returns-if Stepped (is_tcp_udp st.qm)
        (λ _. udp_initial-Stepped calls global _ (record os { clock = os.clock + 1 }) h)
        λ _. failed-Stepped st os h

  pub receive_error-Stepped :
      (st : QueryStat) (os : Os)
      → os.sockets ≡ st.sock ∷ []
      → Returns (receive_error calls global st os) Stepped
  unfolding receive_error
  receive_error-Stepped st os h =
      Returns->>= _ _ (close_sock-ok st.sock os h) (tcp_failed-Stepped st _ refl)

  read_error-Stepped :
      (st : QueryStat) (os : Os) (e : ℕ)
      → st.state ≡ qs_tcpread
      → os.sockets ≡ st.sock ∷ []
      → Arriving st
      → Returns (read_error calls global st os e) Stepped
  unfolding read_error
  read_error-Stepped st os e here h a =
      Returns-if Stepped (e == e_wouldblock) (λ _. waits-Stepped qs_tcpread st os here (_, (h, a)))
        λ _. receive_error-Stepped (record st { s_errno = e }) os h

  tcp_complete-Stepped :
      (st : QueryStat) (os : Os)
      → os.sockets ≡ st.sock ∷ []
      → st.iolen ≡ st.recvl + 2
      → length st.recvbuf ≡ st.recvl
      → Returns (tcp_complete st os) Stepped
  unfolding tcp_complete
  tcp_complete-Stepped st os h all size = complete-Stepped st os h (inl (all, size))

  tcp_stored-Stepped :
      (st : QueryStat) (os : Os) (rem : ℕ) (r : Sys (List ℕ))
      → st.state ≡ qs_tcpread
      → os.sockets ≡ st.sock ∷ []
      → 2 ≤ st.iolen
      → st.iolen + rem ≡ st.recvl + 2
      → length st.recvbuf ≡ st.recvl
      → ((bytes : List ℕ) → r ≡ value bytes → length bytes ≤ rem)
      → Returns (tcp_stored calls global st os rem r) Stepped
  unfolding tcp_stored
  tcp_stored-Stepped st os rem (errno e) here h low left size most =
      read_error-Stepped st os e here h (inr (low, (omega (arith, left), size)))
  tcp_stored-Stepped st os rem (value bytes) here h low left size most =
      let some_bytes : length bytes ≤ rem = most bytes refl in
      Returns-if Stepped (length bytes == 0) (λ _. receive_error-Stepped st os h)
        λ _.
          let (buf, run, same) =
            store-Returns st.recvbuf (st.iolen - 2) bytes (omega (arith, some_bytes, left, size)) in
          let got : QueryStat = record st { recvbuf = buf; iolen = st.iolen + length bytes } in
          Returns->>= _ _ run (
            Returns-if Stepped (ltb (length bytes) rem)
              (λ _.
                waits-Stepped qs_tcpread got os here (
                  _,
                  (h, inr (omega (arith, low), (omega (arith, some_bytes, left), same ∙ size))),
                ))
              λ last.
                tcp_complete-Stepped got os h (ground (arith, some_bytes, left, last))
                  (same ∙ size))

  tcp_data-Stepped :
      (st : QueryStat) (os : Os)
      → st.state ≡ qs_tcpread
      → os.sockets ≡ st.sock ∷ []
      → 2 ≤ st.iolen
      → st.iolen ≤ st.recvl + 2
      → length st.recvbuf ≡ st.recvl
      → Returns (tcp_data calls global st os) Stepped
  unfolding tcp_data
  tcp_data-Stepped st os here h low high size =
      let rem = st.recvl - (st.iolen - 2) in
      Returns-if Stepped (not (ltb 0 rem))
        (λ none_left. tcp_complete-Stepped st os h (ground (arith, low, high, none_left)) size)
        λ _. Returns->>= _ _ (on_socket-ok st.sock os h) (
          tcp_stored-Stepped st _ rem (calls.read_from os.clock rem) here h low
            (omega (arith, low, high)) size (λ bytes e. lawful.read_most os.clock rem bytes e))

  tcp_length-Stepped :
      (st : QueryStat) (os : Os) (r : Sys (List ℕ))
      → st.state ≡ qs_tcpread
      → os.sockets ≡ st.sock ∷ []
      → st.iolen ≡ 0
      → Returns (tcp_length calls global st os r) Stepped
  unfolding tcp_length tcp_buffered
  tcp_length-Stepped st os (errno e) here h z = read_error-Stepped st os e here h (inl z)
  tcp_length-Stepped st os (value bytes) here h z =
      Returns-if Stepped (not (length bytes == 2)) (λ _. receive_error-Stepped st os h)
        λ two.
          let (recvl, e) = get_int16-Returns bytes 0 (ground (arith, two)) in
          Returns->>= _ _ e (
            buffered recvl (resize_buf (calls.memory os.clock) st.recvbuf recvl)
              (resize_buf-HasSize (calls.memory os.clock) st.recvbuf recvl))
    where
      buffered :
          (recvl : ℕ) (b : Option (List ℕ))
          → HasSize recvl b
          → Returns
              (tcp_buffered calls global
                (record st { iolen = 2; recvl = recvl })
                (record os { clock = os.clock + 1 })
                b)
              Stepped
      buffered recvl none _ = close_and-Stepped rc_fatalerr _ _ h (inr refl)
      buffered recvl (some buf) same =
          tcp_data-Stepped (record st { iolen = 2; recvl = recvl; recvbuf = buf }) _ here h
            (omega arith) (omega arith) same

  pub tcp_read-Stepped :
      (st : QueryStat) (os : Os)
      → st.state ≡ qs_tcpread
      → os.sockets ≡ st.sock ∷ []
      → Arriving st
      → Returns (tcp_read calls global st os) Stepped
  unfolding tcp_read
  tcp_read-Stepped st os here h (inl z) =
      Returns-if Stepped (not (st.iolen == 0)) (λ more. absurd (ground (arith, z, more)))
        λ _.
          Returns->>= _ _ (on_socket-ok st.sock os h)
            (tcp_length-Stepped st _ (calls.read_from os.clock 2) here h z)
  tcp_read-Stepped st os here h (inr (low, (high, size))) =
      Returns-if Stepped (not (st.iolen == 0)) (λ _. tcp_data-Stepped st os here h low high size)
        λ z. absurd (ground (arith, z, low))
