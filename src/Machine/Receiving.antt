-- ===== src/Machine/Receiving.antt =====
-- The queries by UDP, and the receive buffer.
use orbot_library.Prelude.{
  ℕ, ◌+◌, ◌%◌, ◌≤◌, ◌≡◌, refl, ap, not, ◌∙◌, inl, inr, List, [], ◌∷◌, ◌++◌, Bool, true, false,
  Option, none, some, ok, ◌>>=◌, write-ok, set, length-set, Returns, Returns-if, Returns->>=, ltb,
  ◌==◌, if◌then◌else◌, length, length-append, length-take, replicate, arith,
}
use orbot_library.Header.{get_int16}
use orbot_library.Query.Process.{udp_bufsize}
use orbot_library.Query.{rc_ok, rc_servfail}
use orbot_library.Records.Cents.{rc_fatalerr}
use orbot_library.Records.Data.{length-replicate}
use orbot_library.Machine.{
  Sys, errno, value, Calls, Global, Os, qs_udpreceive, QueryStat, close_sock, finished, call_again,
  close_and, resize_buf, store,
}
use orbot_library.Header.Words.{get_int16-Returns}
use orbot_library.Machine.{
  e_connrefused, udp_sent, udp_connected, udp_transmit, udp_initial, udp_received, udp_buffered,
  udp_receive,
}
use orbot_library.Machine.Sockets.{
  Lawful, Stepped, on_socket-ok, close_and-Stepped, waits-Stepped, complete-Stepped,
  with_socket-Stepped,
}

-- A store inside the buffer keeps its length.
pub store-Returns :
    (buf : List ℕ) (i : ℕ) (bytes : List ℕ)
    → i + length bytes ≤ length buf
    → Returns (store buf i bytes) (λ out. length out ≡ length buf)
unfolding store
store-Returns buf i [] h = (buf, refl, refl)
store-Returns buf i (b ∷ bytes) h =
    let (out, run, same) =
      store-Returns (set buf i b) (i + 1) bytes (omega (arith, length-set buf i b)) in
    (out, rw (write-ok buf i b (omega arith)) run, same ∙ length-set buf i b)

-- A buffer that realloc gives has its size.
abbrev pub HasSize : ℕ → Option (List ℕ) → Type 0
HasSize n none = Unit
HasSize n (some buf) = length buf ≡ n

pub resize_buf-HasSize : (room : Bool) (buf : List ℕ) (n : ℕ) → HasSize n (resize_buf room buf n)
unfolding resize_buf
resize_buf-HasSize true buf n = omega (
  arith,
  length-take n (buf ++ replicate n 0),
  length-append buf (replicate n 0),
  length-replicate n 0,
)
resize_buf-HasSize false buf n = _

module _ (calls : Calls) (global : Global) where
  udp_connected-Stepped :
      (st : QueryStat) (os : Os) (r : Sys Unit)
      → os.sockets ≡ st.sock ∷ []
      → Returns (udp_connected calls st os r) Stepped
  unfolding udp_connected udp_sent call_again
  udp_connected-Stepped st os (errno e) h = by_errno (e == e_connrefused)
    where
      by_errno :
          (b : Bool)
          → Returns (close_and rc_servfail (if b then record st { s_errno = e } else st) os) Stepped
      by_errno true = close_and-Stepped rc_servfail (record st { s_errno = e }) os h (inl refl)
      by_errno false = close_and-Stepped rc_servfail st os h (inl refl)
  udp_connected-Stepped st os (value _) h =
      Returns->>= _ _ (on_socket-ok st.sock os h) (sent (calls.write_to os.clock st.transl))
    where
      sent : (r : Sys ℕ) → Returns (udp_sent st (record os { clock = os.clock + 1 }) r) Stepped
      sent (errno e) = close_and-Stepped rc_servfail (record st { s_errno = e }) _ h (inl refl)
      sent (value n) = (_, refl, (_, h))

  pub udp_initial-Stepped :
      (st : QueryStat) (os : Os)
      → os.sockets ≡ []
      → Returns (udp_initial calls global st os) Stepped
  unfolding udp_initial udp_transmit
  udp_initial-Stepped st os h = with_socket-Stepped calls global st os _ h λ s o held.
      Returns->>= _ _ (on_socket-ok s o held)
        (udp_connected-Stepped (record st { sock = s }) _ (calls.connect o.clock) held)

  module _ (lawful : Lawful calls) where
    udp_received-Stepped :
        (st : QueryStat) (os : Os) (r : Sys (List ℕ))
        → st.state ≡ qs_udpreceive
        → os.sockets ≡ st.sock ∷ []
        → ((bytes : List ℕ) → r ≡ value bytes → length bytes ≤ length st.recvbuf)
        → Returns (udp_received st os r) Stepped
    unfolding udp_received call_again
    udp_received-Stepped st os (errno e) here h most =
        close_and-Stepped rc_servfail (record st { s_errno = e }) os h (inl refl)
    udp_received-Stepped st os (value bytes) here h most =
        let (buf, run, same) = store-Returns st.recvbuf 0 bytes (omega (arith, most bytes refl)) in
        let got : QueryStat = record st { recvbuf = buf; recvl = length bytes % 65536 } in
        Returns->>= _ _ run (
          Returns-if Stepped (ltb (length bytes % 65536) 12)
            (λ _. waits-Stepped qs_udpreceive got os here (_, h))
            λ long.
              let size : length buf ≡ length st.recvbuf = same in
              let (id, e) = get_int16-Returns buf 0 (ground (arith, long, size, most bytes refl)) in
              Returns->>= _ _ e (by_id buf same id e long))
      where
        by_id :
            (buf : List ℕ)
            → length buf ≡ length st.recvbuf
            → (id : ℕ) → get_int16 buf 0 ≡ ok id
            → ltb (length bytes % 65536) 12 ≡ false
            → Returns
                (if not (id == st.myrid)
                  then call_again (record st { recvbuf = buf; recvl = length bytes % 65536 }) os
                  else (close_sock st.sock os >>= λ o.
                      finished rc_ok (record st { recvbuf = buf; recvl = length bytes % 65536 }) o))
                Stepped
        by_id buf same id e long =
            Returns-if Stepped (not (id == st.myrid))
              (λ _. waits-Stepped qs_udpreceive _ os here (_, h))
              λ its.
                complete-Stepped (record st { recvbuf = buf; recvl = length bytes % 65536 }) os h
                  (inr (
                    ground (arith, long),
                    (omega (arith, same, most bytes refl), e ∙ ap ok (ground (arith, its))),
                  ))

    pub udp_receive-Stepped :
        (st : QueryStat) (os : Os)
        → st.state ≡ qs_udpreceive
        → os.sockets ≡ st.sock ∷ []
        → Returns (udp_receive calls global st os) Stepped
    unfolding udp_receive udp_buffered
    udp_receive-Stepped st os here h =
        let size = if st.edns_query then global.udpbufsize else udp_bufsize in
        buffered size (resize_buf (calls.memory os.clock) st.recvbuf size)
          (resize_buf-HasSize (calls.memory os.clock) st.recvbuf size)
      where
        buffered :
            (size : ℕ) (b : Option (List ℕ))
            → HasSize size b
            → Returns (udp_buffered calls size st (record os { clock = os.clock + 1 }) b) Stepped
        buffered size none _ = close_and-Stepped rc_fatalerr _ _ h (inr refl)
        buffered size (some buf) same =
            Returns->>= _ _ (on_socket-ok st.sock (record os { clock = os.clock + 1 }) h) (
              udp_received-Stepped (record st { recvbuf = buf }) _ _ here h
                λ bytes e. omega (arith, same, lawful.read_most (os.clock + 1) size bytes e))
