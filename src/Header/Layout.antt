-- ===== src/Header/Layout.antt =====
-- The layout of the header in a message.
use orbot_library.Prelude.{
  ℕ, ◌+◌, ◌*◌, ◌/◌, ◌%◌, ◌<◌, ◌≤◌, ◌≡◌, refl, ap, List, [], ◌∷◌, ◌++◌, ok, read, length, drop, All,
  Returns, arith,
}
use orbot_library.Header.{Header, header_of, get_int16, put_int16, read_header, header_bytes}
use orbot_library.Header.Fields.{Fits}

-- The 16 bits of the second word of a header in RFC 1035, section 4.1.1, and RFC 2535, section 6.1,
-- from the highest on: QR, four of OPCODE, AA, TC, RD, RA, Z, AD, CD, and four of RCODE.
abbrev pub flag_word : Header → ℕ
flag_word h =
    h.qr * 0x8000
    + h.opcode * 0x800
    + h.aa * 0x400
    + h.tc * 0x200
    + h.rd * 0x100
    + h.ra * 0x80
    + h.z * 0x40
    + h.ad * 0x20
    + h.cd * 0x10
    + h.rcode

-- The fields have the widths of the RFC, the six words of the message hold them, and the bytes of the
-- struct are the first of the message.
pub record IsLaidOut (msg : List ℕ) (h : Header) : Type 0 where
  pub fits : Fits h
  pub word_0 : get_int16 msg 0 ≡ ok h.id
  pub word_1 : get_int16 msg 2 ≡ ok (flag_word h)
  pub word_2 : get_int16 msg 4 ≡ ok h.qdcount
  pub word_3 : get_int16 msg 6 ≡ ok h.ancount
  pub word_4 : get_int16 msg 8 ≡ ok h.nscount
  pub word_5 : get_int16 msg 10 ≡ ok h.arcount
  pub bytes : header_bytes h ++ drop 12 msg ≡ msg

high_bits :
    (a : ℕ)
    → a < 256
    → a / 128 % 2 * 128 + a / 8 % 16 * 8 + a / 4 % 2 * 4 + a / 2 % 2 * 2 + a % 2 ≡ a
high_bits a h = omega arith

low_bits :
    (b : ℕ)
    → b < 256
    → b / 128 % 2 * 128 + b / 64 % 2 * 64 + b / 32 % 2 * 32 + b / 16 % 2 * 16 + b % 16 ≡ b
low_bits b h = omega arith

high_byte : (a b : ℕ) → a < 256 → b < 256 → (a * 256 + b) / 256 % 256 ≡ a
high_byte a b h g = omega arith

low_byte : (a b : ℕ) → b < 256 → (a * 256 + b) % 256 ≡ b
low_byte a b g = omega arith

two_bytes : (a b : ℕ) → a < 256 → b < 256 → a * 256 + b ≡ flag_word (header_of 0 a b 0 0 0 0)
unfolding header_of
two_bytes a b h g = omega (arith, high_bits a h, low_bits b g)

small_word : (a b : ℕ) → a < 256 → b < 256 → a * 256 + b < 65536
small_word a b h g = omega arith

-- read_header of every message of 12 bytes or more, each below 256, returns. The fields that it gives
-- have the widths that RFC 1035, section 4.1.1, and RFC 2535, section 6.1, give them, and stand at
-- their places there in the six words of the message, and header_bytes gives back the first 12 bytes.
pub read_header-IsLaidOut :
    (msg : List ℕ)
    → All (λ b. b < 256) msg
    → 12 ≤ length msg
    → Returns (read_header msg) (IsLaidOut msg)
unfolding read_header header_of header_bytes get_int16 put_int16 read
read_header-IsLaidOut [] all n = absurd (omega arith)
read_header-IsLaidOut (b0 ∷ []) all n = absurd (omega arith)
read_header-IsLaidOut (b0 ∷ b1 ∷ []) all n = absurd (omega arith)
read_header-IsLaidOut (b0 ∷ b1 ∷ b2 ∷ []) all n = absurd (omega arith)
read_header-IsLaidOut (b0 ∷ b1 ∷ b2 ∷ b3 ∷ []) all n = absurd (omega arith)
read_header-IsLaidOut (b0 ∷ b1 ∷ b2 ∷ b3 ∷ b4 ∷ []) all n = absurd (omega arith)
read_header-IsLaidOut (b0 ∷ b1 ∷ b2 ∷ b3 ∷ b4 ∷ b5 ∷ []) all n = absurd (omega arith)
read_header-IsLaidOut (b0 ∷ b1 ∷ b2 ∷ b3 ∷ b4 ∷ b5 ∷ b6 ∷ []) all n = absurd (omega arith)
read_header-IsLaidOut (b0 ∷ b1 ∷ b2 ∷ b3 ∷ b4 ∷ b5 ∷ b6 ∷ b7 ∷ []) all n = absurd (omega arith)
read_header-IsLaidOut (b0 ∷ b1 ∷ b2 ∷ b3 ∷ b4 ∷ b5 ∷ b6 ∷ b7 ∷ b8 ∷ []) all n = absurd (omega arith)
read_header-IsLaidOut (b0 ∷ b1 ∷ b2 ∷ b3 ∷ b4 ∷ b5 ∷ b6 ∷ b7 ∷ b8 ∷ b9 ∷ []) all n =
    absurd (omega arith)
read_header-IsLaidOut (b0 ∷ b1 ∷ b2 ∷ b3 ∷ b4 ∷ b5 ∷ b6 ∷ b7 ∷ b8 ∷ b9 ∷ b10 ∷ []) all n =
    absurd (omega arith)
read_header-IsLaidOut (b0 ∷ b1 ∷ b2 ∷ b3 ∷ b4 ∷ b5 ∷ b6 ∷ b7 ∷ b8 ∷ b9 ∷ b10 ∷ b11 ∷ rest)
      (h0, (h1, (h2, (h3, (h4, (h5, (h6, (h7, (h8, (h9, (h10, (h11, hr)))))))))))) n =
    (
      header_of (b0 * 256 + b1) b2 b3 (b4 * 256 + b5) (b6 * 256 + b7) (b8 * 256 + b9)
          (b10 * 256 + b11),
      refl,
      record {
        fits = record {
          id = small_word b0 b1 h0 h1;
          qr = omega arith;
          opcode = omega arith;
          aa = omega arith;
          tc = omega arith;
          rd = omega arith;
          ra = omega arith;
          z = omega arith;
          ad = omega arith;
          cd = omega arith;
          rcode = omega arith;
          qdcount = small_word b4 b5 h4 h5;
          ancount = small_word b6 b7 h6 h7;
          nscount = small_word b8 b9 h8 h9;
          arcount = small_word b10 b11 h10 h11;
        };
        word_0 = refl;
        word_1 = ap ok (two_bytes b2 b3 h2 h3);
        word_2 = refl;
        word_3 = refl;
        word_4 = refl;
        word_5 = refl;
        bytes =
            rw
              (
                high_bits b2 h2,
                low_bits b3 h3,
                high_byte b0 b1 h0 h1,
                low_byte b0 b1 h1,
                high_byte b4 b5 h4 h5,
                low_byte b4 b5 h5,
                high_byte b6 b7 h6 h7,
                low_byte b6 b7 h7,
                high_byte b8 b9 h8 h9,
                low_byte b8 b9 h9,
                high_byte b10 b11 h10 h11,
                low_byte b10 b11 h11,
              )
              refl;
      },
    )
