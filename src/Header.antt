-- ===== src/Header.antt =====
-- The header of a DNS message, dns_hdr_t of pdnsd/src/dns.h, and the macros that read and write
-- numbers in network order.
pub mod Words
pub mod Fields
pub mod Layout
use orbot_library.Prelude.{ℕ, ◌+◌, ◌*◌, ◌/◌, ◌%◌, ◌^◌, List, [], ◌∷◌, ◌++◌, Run, ok, ◌>>=◌, read}

-- GETINT16 and GETINT32 at an offset; the pointer that they move is the caller's.
unfoldable pub get_int16 : List ℕ → ℕ → Run ℕ
get_int16 msg p = read msg p >>= λ hi. read msg (p + 1) >>= λ lo. ok (hi * 256 + lo)

unfoldable pub get_int32 : List ℕ → ℕ → Run ℕ
unfolding get_int16
get_int32 msg p = get_int16 msg p >>= λ hi. get_int16 msg (p + 2) >>= λ lo. ok (hi * 65536 + lo)

-- The bytes that PUTINT16 and PUTINT32 store.
unfoldable pub put_int16 : ℕ → List ℕ
put_int16 s = s / 256 % 256 ∷ s % 256 ∷ []

unfoldable pub put_int32 : ℕ → List ℕ
put_int32 l = l / 2 ^ 24 % 256 ∷ l / 65536 % 256 ∷ l / 256 % 256 ∷ l % 256 ∷ []

-- dns_hdr_t, its numbers in host order.
pub record Header : Type 0 where
  pub id : ℕ
  pub qr : ℕ
  pub opcode : ℕ
  pub aa : ℕ
  pub tc : ℕ
  pub rd : ℕ
  pub ra : ℕ
  pub z : ℕ
  pub ad : ℕ
  pub cd : ℕ
  pub rcode : ℕ
  pub qdcount : ℕ
  pub ancount : ℕ
  pub nscount : ℕ
  pub arcount : ℕ

-- The fields in the numbers and in the two bytes of bit fields, whose layout is the same on
-- machines of either byte order.
unfoldable pub header_of : ℕ → ℕ → ℕ → ℕ → ℕ → ℕ → ℕ → Header
header_of id a b qd an ns ar = record {
  id = id;
  qr = a / 128 % 2;
  opcode = a / 8 % 16;
  aa = a / 4 % 2;
  tc = a / 2 % 2;
  rd = a % 2;
  ra = b / 128 % 2;
  z = b / 64 % 2;
  ad = b / 32 % 2;
  cd = b / 16 % 2;
  rcode = b % 16;
  qdcount = qd;
  ancount = an;
  nscount = ns;
  arcount = ar;
}

-- The struct laid over the first bytes of a message.
unfoldable pub read_header : List ℕ → Run Header
read_header msg = get_int16 msg 0 >>= λ id. read msg 2 >>= λ a. read msg 3 >>= λ b.
    get_int16 msg 4 >>= λ qd. get_int16 msg 6 >>= λ an.
    get_int16 msg 8 >>= λ ns. get_int16 msg 10 >>= λ ar. ok (header_of id a b qd an ns ar)

-- The bytes of the struct.
unfoldable pub header_bytes : Header → List ℕ
unfolding put_int16
header_bytes h =
    put_int16 h.id
    ++ ((h.qr * 128 + h.opcode * 8 + h.aa * 4 + h.tc * 2 + h.rd)
        ∷ (h.ra * 128 + h.z * 64 + h.ad * 32 + h.cd * 16 + h.rcode)
        ∷ (put_int16 h.qdcount
            ++ (put_int16 h.ancount ++ (put_int16 h.nscount ++ put_int16 h.arcount))))
