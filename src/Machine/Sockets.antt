-- ===== src/Machine/Sockets.antt =====
-- The sockets that the state machine of a query has open.
use orbot_library.Prelude.{
  ℕ, ◌+◌, ◌≤◌, ◌≡◌, refl, sym, ap, subst, ◌⊎◌, inl, inr, List, [], ◌∷◌, true, Option, none, some,
  Run, ok, ◌>>=◌, Returns, Returns->>=, ◌==◌, length, arith,
}
use orbot_library.Header.{get_int16}
use orbot_library.Query.{rc_ok, rc_servfail}
use orbot_library.Records.Cents.{rc_fatalerr}
use orbot_library.Machine.Ports.{Port}
use orbot_library.Machine.Ports.Binding.{bind_socket-Bound}
use orbot_library.Machine.{
  value, Calls, Global, Os, State, qs_initial, qs_tcpinitial, qs_tcpwrite, qs_tcpread,
  qs_udpinitial, qs_udpreceive, qs_canceled, qs_done, QueryStat, Outcome, is_open, without,
  on_socket, close_sock, finished, call_again, close_and, bound, opened, with_socket,
}

-- A read gives at most as many bytes as there is room for, and a write takes at most as many as
-- there are.
pub record Lawful (calls : Calls) : Type 0 where
  pub read_most : (n k : ℕ) (bytes : List ℕ) → calls.read_from n k ≡ value bytes → length bytes ≤ k
  pub write_most : (n k m : ℕ) → calls.write_to n k ≡ value m → m ≤ k

-- In QS_TCPREAD nothing has come yet, or the length field and some of the data, for which the
-- buffer has its size.
abbrev pub Arriving : QueryStat → Type 0
Arriving st =
    (st.iolen ≡ 0) ⊎ ((2 ≤ st.iolen) × ((st.iolen ≤ st.recvl + 2) × (length st.recvbuf ≡ st.recvl)))

-- What holds between two calls of the machine: the query's socket, and no other, is open while it
-- waits, and none in the other states.
abbrev pub Holding : State → QueryStat → Os → Type 0
Holding qs_tcpwrite st os = (os.sockets ≡ st.sock ∷ []) × (st.iolen ≤ 2 + st.transl)
Holding qs_tcpread st os = (os.sockets ≡ st.sock ∷ []) × Arriving st
Holding qs_udpreceive st os = os.sockets ≡ st.sock ∷ []
Holding qs_tcpinitial st os = os.sockets ≡ []
Holding qs_udpinitial st os = os.sockets ≡ []
Holding qs_initial st os = os.sockets ≡ []
Holding qs_canceled st os = os.sockets ≡ []
Holding qs_done st os = os.sockets ≡ []

-- The states in which -1 is returned.
abbrev pub IsWaiting : State → Type 0
IsWaiting qs_tcpwrite = Unit
IsWaiting qs_tcpread = Unit
IsWaiting qs_udpreceive = Unit
IsWaiting qs_tcpinitial = ⊥
IsWaiting qs_udpinitial = ⊥
IsWaiting qs_initial = ⊥
IsWaiting qs_canceled = ⊥
IsWaiting qs_done = ⊥

-- A whole answer by TCP, or by UDP one of a header or more with the identifier of the query.
abbrev pub Answered : QueryStat → Type 0
Answered st =
    ((st.iolen ≡ st.recvl + 2) × (length st.recvbuf ≡ st.recvl))
    ⊎ ((12 ≤ st.recvl) × ((st.recvl ≤ length st.recvbuf) × (get_int16 st.recvbuf 0 ≡ ok st.myrid)))

abbrev pub Ended : ℕ → QueryStat → Type 0
Ended rc st = ((rc ≡ rc_ok) × Answered st) ⊎ ((rc ≡ rc_servfail) ⊎ (rc ≡ rc_fatalerr))

abbrev pub Result : Option ℕ → QueryStat → Os → Type 0
Result none st os = IsWaiting st.state × Holding st.state st os
Result (some rc) st os = (st.state ≡ qs_done) × ((os.sockets ≡ []) × Ended rc st)

-- What the machine promises.
abbrev pub Stepped : Outcome → Type 0
Stepped o = Result o.rv o.st o.os

pub on_socket-ok :
    (s : ℕ) (os : Os)
    → os.sockets ≡ s ∷ []
    → on_socket s os ≡ ok (os.clock, record os { clock = os.clock + 1 })
unfolding on_socket is_open
on_socket-ok s os h = let self : (s == s) ≡ true = ground arith in rw (h, self) refl

pub close_sock-ok :
    (s : ℕ) (os : Os) → os.sockets ≡ s ∷ [] → close_sock s os ≡ ok (record os { sockets = [] })
unfolding close_sock is_open without
close_sock-ok s os h = let self : (s == s) ≡ true = ground arith in rw (h, self) refl

-- The ends of the function.
pub close_and-Stepped :
    (rc : ℕ) (st : QueryStat) (os : Os)
    → os.sockets ≡ st.sock ∷ []
    → (rc ≡ rc_servfail) ⊎ (rc ≡ rc_fatalerr)
    → Returns (close_and rc st os) Stepped
unfolding close_and finished
close_and-Stepped rc st os h c =
    Returns->>= _ _ (close_sock-ok st.sock os h) (_, refl, (refl, (refl, inr c)))

pub waits-Stepped :
    (q : State) (st : QueryStat) (os : Os)
    → st.state ≡ q
    → IsWaiting q × Holding q st os
    → Returns (call_again st os) Stepped
unfolding call_again
waits-Stepped q st os e h = (_, refl, subst (λ x. IsWaiting x × Holding x st os) (sym e) h)

pub failed-Stepped :
    (st : QueryStat) (os : Os) → os.sockets ≡ [] → Returns (finished rc_servfail st os) Stepped
unfolding finished
failed-Stepped st os h = (_, refl, (refl, (h, inr (inl refl))))

pub complete-Stepped :
    (st : QueryStat) (os : Os)
    → os.sockets ≡ st.sock ∷ []
    → Answered st
    → Returns (close_sock st.sock os >>= λ o. finished rc_ok st o) Stepped
unfolding finished
complete-Stepped st os h a =
    Returns->>= _ _ (close_sock-ok st.sock os h) (_, refl, (refl, (refl, inl (refl, a))))

pub with_socket-Stepped :
    (calls : Calls) (global : Global) (st : QueryStat) (os : Os)
    (next : QueryStat → Os → Run Outcome)
    → os.sockets ≡ []
    → ((s : ℕ) (o : Os) → o.sockets ≡ s ∷ [] → Returns (next (record st { sock = s }) o) Stepped)
    → Returns (with_socket calls global st os next) Stepped
unfolding with_socket opened bound
with_socket-Stepped calls global st os next h k = by_socket (calls.socket os.clock)
  where
    by_bind :
        (s : ℕ) (b : Option Port)
        → Returns
            (bound
              (record st { sock = s })
              (record { clock = os.clock + 1; sockets = s ∷ os.sockets })
              next
              b)
            Stepped
    by_bind s none = close_and-Stepped rc_servfail _ _ (ap (λ x. s ∷ x) h) (inl refl)
    by_bind s (some p) = k s _ (ap (λ x. s ∷ x) h)

    by_socket :
        (o : Option ℕ)
        → Returns (opened calls global st (record os { clock = os.clock + 1 }) next o) Stepped
    by_socket none = failed-Stepped st _ h
    by_socket (some s) =
        let (b, run, _) = bind_socket-Bound global.ports (calls.draws (os.clock + 1)) in
        Returns->>= _ _ run (by_bind s b)
