-- ===== src/Message.antt =====
-- Names inside a DNS message: decompress_name of pdnsd/src/dns.c. The message is the list of its
-- bytes and a pointer into it an offset, `lptr - msg`; a read or write outside an object halts.
pub mod Denotes
pub mod Jumped
pub mod Decompress
use orbot_library.Prelude.{
  ℕ, zero, suc, ◌+◌, ◌-◌, ◌*◌, ◌%◌, List, Run, ok, halt, no_fuel, ◌>>=◌, read, write, ltb, leb,
  ◌==◌, if◌then◌else◌,
}

-- The return codes of decompress_name: RC_TRUNC, and RC_FORMAT.
pub data Refusal : Type 0 where
  truncated format_error : Refusal

-- On RC_OK, `*src`, `*sz`, `*len` and the buffer `tgt` afterwards.
pub data Decoded : Type 0 where
  decoded : ℕ → ℕ → ℕ → List ℕ → Decoded
  refused : Refusal → Decoded

-- `do tgt[tpos++]=*lptr++; while(--lb)`.
unfoldable pub copy_bytes : ℕ → List ℕ → ℕ → ℕ → List ℕ → Run (List ℕ)
copy_bytes zero msg p tpos tgt = ok tgt
copy_bytes (suc lb) msg p tpos tgt =
    read msg p >>= λ c. write tgt tpos c >>= λ out. copy_bytes lb msg (p + 1) (tpos + 1) out

-- `((lb&0x3f)<<8)|o` for bytes.
unfoldable pub pointer_offset : ℕ → ℕ → ℕ
pointer_offset lb o = lb % 64 * 256 + o

-- How the loop behind the label `jumped` ends.
pub data Landed : Type 0 where
  landed : ℕ → List ℕ → Landed
  lost : Refusal → Landed

-- The loop behind `jumped`, its inner loop over pointers included: `p` is where the next length
-- byte is read. Each round counts a hop or fills the buffer, so the fuel 512 is enough.
unfoldable pub jumped_loop : ℕ → List ℕ → ℕ → ℕ → ℕ → ℕ → List ℕ → Run Landed
jumped_loop zero msg msgsz hops p tpos tgt = halt no_fuel
jumped_loop (suc fuel) msg msgsz hops p tpos tgt = read msg p >>= λ lb.
    let pointer =
      if ltb lb 0xc0
      then ok (lost format_error)
      else if leb msgsz (p + 1)
      then ok (lost format_error)
      else if ltb 255 (hops + 1)
      then ok (lost format_error)
      else (read msg (p + 1) >>= λ o.
          let offs = pointer_offset lb o in
          let next = jumped_loop fuel msg msgsz (hops + 1) offs tpos tgt in
          if leb msgsz offs then ok (lost format_error) else next) in
    let label = write tgt tpos lb >>= λ out.
    if lb == 0
    then ok (landed (tpos + 1) out)
    else if leb msgsz (p + 1 + lb)
    then ok (lost format_error)
    else if ltb 255 (tpos + 1 + lb)
    then ok (lost format_error)
    else (copy_bytes lb msg (p + 1) (tpos + 1) out >>= λ out'.
        jumped_loop fuel msg msgsz hops (p + 1 + lb) (tpos + 1 + lb) out') in
    if ltb 0x3f lb then pointer else label

-- The first loop; `src` and `oldsz` are what the function was called with. A round takes at least
-- one of the `newsz` bytes.
unfoldable pub direct_loop : ℕ → List ℕ → ℕ → ℕ → ℕ → ℕ → ℕ → ℕ → List ℕ → Run Decoded
direct_loop zero msg msgsz src oldsz newsz p tpos tgt = halt no_fuel
direct_loop (suc fuel) msg msgsz src oldsz newsz p tpos tgt = read msg p >>= λ lb.
    let pointer =
      if ltb lb 0xc0
      then ok (refused format_error)
      else if newsz - 1 == 0
      then ok (refused truncated)
      else if leb msgsz (p + 1)
      then ok (refused format_error)
      else (read msg (p + 1) >>= λ o.
          let offs = pointer_offset lb o in
          if leb msgsz offs
          then ok (refused format_error)
          else (jumped_loop 512 msg msgsz 1 offs tpos tgt >>= λ r. elim r [
            | landed len out ↦
                ok (decoded (src + (oldsz - (newsz - 1 - 1))) (newsz - 1 - 1) len out)
            | lost e ↦ ok (refused e)
          ])) in
    let label = write tgt tpos lb >>= λ out.
    if lb == 0
    then ok (decoded (src + (oldsz - (newsz - 1))) (newsz - 1) (tpos + 1) out)
    else if leb (newsz - 1) lb
    then ok (refused truncated)
    else if leb msgsz (p + 1 + lb)
    then ok (refused format_error)
    else if ltb 255 (tpos + 1 + lb)
    then ok (refused format_error)
    else (copy_bytes lb msg (p + 1) (tpos + 1) out >>= λ out'.
        direct_loop fuel msg msgsz src oldsz (newsz - 1 - lb) (p + 1 + lb) (tpos + 1 + lb) out') in
    if ltb 0x3f lb then pointer else label

unfoldable pub decompress_name : List ℕ → ℕ → ℕ → ℕ → List ℕ → Run Decoded
decompress_name msg msgsz src sz tgt =
    if sz == 0
    then ok (refused truncated)
    else if leb msgsz src
    then ok (refused format_error)
    else direct_loop (suc sz) msg msgsz src sz sz src 0 tgt
