-- ===== src/Header/Fields.antt =====
-- The header as bytes and as fields.
use orbot_library.Prelude.{
  ℕ, ◌+◌, ◌*◌, ◌/◌, ◌%◌, ◌<◌, ◌≤◌, ◌≡◌, refl, List, ◌++◌, ok, read, read-Returns, length, arith,
}
use orbot_library.Header.{Header, header_of, get_int16, put_int16, read_header, header_bytes}
use orbot_library.Header.Words.{get_int16-Returns}

-- The fields fit into their bits.
pub record Fits (h : Header) : Type 0 where
  pub id : h.id < 65536
  pub qr : h.qr < 2
  pub opcode : h.opcode < 16
  pub aa : h.aa < 2
  pub tc : h.tc < 2
  pub rd : h.rd < 2
  pub ra : h.ra < 2
  pub z : h.z < 2
  pub ad : h.ad < 2
  pub cd : h.cd < 2
  pub rcode : h.rcode < 16
  pub qdcount : h.qdcount < 65536
  pub ancount : h.ancount < 65536
  pub nscount : h.nscount < 65536
  pub arcount : h.arcount < 65536

word : (s : ℕ) → s < 65536 → s / 256 % 256 * 256 + s % 256 ≡ s
word s h = omega arith

-- The fields of the two bytes.
module _ (qr op aa tc rd : ℕ) (hq : qr < 2) (ho : op < 16) (ha : aa < 2) (ht : tc < 2)
    (hr : rd < 2) where
  abbrev flags : ℕ
  flags = qr * 128 + op * 8 + aa * 4 + tc * 2 + rd

  bit_7 : flags / 128 % 2 ≡ qr
  bit_7 = omega arith

  bits_3 : flags / 8 % 16 ≡ op
  bits_3 = omega arith

  bit_2 : flags / 4 % 2 ≡ aa
  bit_2 = omega arith

  bit_1 : flags / 2 % 2 ≡ tc
  bit_1 = omega arith

  bit_0 : flags % 2 ≡ rd
  bit_0 = omega arith

module _ (ra z ad cd rc : ℕ) (hr : ra < 2) (hz : z < 2) (ha : ad < 2) (hc : cd < 2)
    (hk : rc < 16) where
  abbrev low_flags : ℕ
  low_flags = ra * 128 + z * 64 + ad * 32 + cd * 16 + rc

  low_7 : low_flags / 128 % 2 ≡ ra
  low_7 = omega arith

  low_6 : low_flags / 64 % 2 ≡ z
  low_6 = omega arith

  low_5 : low_flags / 32 % 2 ≡ ad
  low_5 = omega arith

  low_4 : low_flags / 16 % 2 ≡ cd
  low_4 = omega arith

  low_0 : low_flags % 16 ≡ rc
  low_0 = omega arith

-- Reading the bytes of a header whose fields fit gives its fields, whatever follows it.
pub read_header-header_bytes :
    (h : Header) (rest : List ℕ) → Fits h → read_header (header_bytes h ++ rest) ≡ ok h
unfolding read_header header_of header_bytes get_int16 put_int16 read
read_header-header_bytes h rest f =
    rw
      (
        word h.id f.id,
        word h.qdcount f.qdcount,
        word h.ancount f.ancount,
        word h.nscount f.nscount,
        word h.arcount f.arcount,
        bit_7 h.qr h.opcode h.aa h.tc h.rd f.qr f.opcode f.aa f.tc f.rd,
        bits_3 h.qr h.opcode h.aa h.tc h.rd f.qr f.opcode f.aa f.tc f.rd,
        bit_2 h.qr h.opcode h.aa h.tc h.rd f.qr f.opcode f.aa f.tc f.rd,
        bit_1 h.qr h.opcode h.aa h.tc h.rd f.qr f.opcode f.aa f.tc f.rd,
        bit_0 h.qr h.opcode h.aa h.tc h.rd f.qr f.opcode f.aa f.tc f.rd,
        low_7 h.ra h.z h.ad h.cd h.rcode f.ra f.z f.ad f.cd f.rcode,
        low_6 h.ra h.z h.ad h.cd h.rcode f.ra f.z f.ad f.cd f.rcode,
        low_5 h.ra h.z h.ad h.cd h.rcode f.ra f.z f.ad f.cd f.rcode,
        low_4 h.ra h.z h.ad h.cd h.rcode f.ra f.z f.ad f.cd f.rcode,
        low_0 h.ra h.z h.ad h.cd h.rcode f.ra f.z f.ad f.cd f.rcode,
      )
      refl

-- The header of a message of 12 bytes or more can be read.
pub read_header-Returns : (msg : List ℕ) → 12 ≤ length msg → (h : Header) × (read_header msg ≡ ok h)
unfolding read_header
read_header-Returns msg n =
    let (id, e0) = get_int16-Returns msg 0 (omega arith) in
    let (a, e2) = read-Returns msg 2 (omega arith) in
    let (b, e3) = read-Returns msg 3 (omega arith) in
    let (qd, e4) = get_int16-Returns msg 4 (omega arith) in
    let (an, e6) = get_int16-Returns msg 6 (omega arith) in
    let (ns, e8) = get_int16-Returns msg 8 (omega arith) in
    let (ar, e10) = get_int16-Returns msg 10 (omega arith) in
    (header_of id a b qd an ns ar, simp (e0, e2, e3, e4, e6, e8, e10) refl)
