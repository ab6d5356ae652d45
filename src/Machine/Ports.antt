-- ===== src/Machine/Ports.antt =====
-- bind_socket of pdnsd/src/dns_query.c: the choice of a port for a query.
pub mod Binding
use orbot_library.Prelude.{
  ℕ, zero, suc, ◌+◌, ◌-◌, ◌*◌, ◌%◌, ◌^◌, List, [], ◌∷◌, Bool, true, false, ◌&&◌, ◌||◌, not, Option,
  none, some, Run, ok, halt, no_fuel, ◌>>=◌, ltb, leb, ◌==◌, if◌then◌else◌,
}

-- global.query_port_start, where `none` is a negative number, and global.query_port_end.
pub record PortRange : Type 0 where
  pub query_port_start : Option ℕ
  pub query_port_end : ℕ

-- The random numbers that get_rand16 gives, and what bind gives: by how many calls came before, and
-- the port. `none` is an errno other than EADDRINUSE and EADDRNOTAVAIL, `some false` one of these.
pub record Draws : Type 0 where
  pub rand16 : ℕ → ℕ
  pub bind : ℕ → ℕ → Option Bool

-- The port in use; none is chosen where the kernel is to choose.
pub data Port : Type 0 where
  kernels : Port
  port : ℕ → Port

-- The least power of 2 that is at least `range`, which 16 doublings suffice for.
unfoldable pub power_above : ℕ → ℕ → ℕ → ℕ
power_above zero m range = m
power_above (suc k) m range = elim (ltb m range) [ true ↦ power_above k (m * 2) range | false ↦ m ]

-- The mask m, plus one.
unfoldable pub mask_size : ℕ → ℕ
unfolding power_above
mask_size range = if leb range 0x8000 then power_above 16 1 range else 0x10000

-- The loop that draws a number below `range`, with `tries` tries left: the number, and how many
-- numbers have been drawn. `none` is the result 0.
unfoldable pub draw : ℕ → Draws → ℕ → ℕ → ℕ → Option (ℕ × ℕ)
draw zero d range size n = none
draw (suc tries) d range size n = elim (ltb (d.rand16 n % size) range) [
  | true ↦ some (d.rand16 n % size, n + 1)
  | false ↦ draw tries d range size (n + 1)
]

unfoldable pub next_port : ℕ → ℕ → ℕ → ℕ
next_port start end prt = if ltb end (prt + 1) then start else prt + 1

-- The inner loop once try2 has reached maxtry2: the ports behind `prt` until `pstart`. The fuel is
-- how many ports it may take.
unfoldable pub scan : ℕ → Draws → ℕ → ℕ → ℕ → ℕ → ℕ → Run (Option Port)
scan zero d start end pstart prt try2 = halt no_fuel
scan (suc fuel) d start end pstart prt try2 =
    if next_port start end prt == pstart
    then ok none
    else elim (d.bind try2 (next_port start end prt)) [
      | none ↦ ok none
      | some true ↦ ok (some (port (next_port start end prt)))
      | some false ↦ scan fuel d start end pstart (next_port start end prt) (try2 + 1)
    ]

-- The outer loop; `n` numbers have been drawn. Each round counts try2 up.
unfoldable pub try_ports : ℕ → Draws → ℕ → ℕ → ℕ → ℕ → ℕ → Run (Option Port)
unfolding mask_size
try_ports zero d start end range try2 n = halt no_fuel
try_ports (suc fuel) d start end range try2 n = elim (draw 0x10000 d range (mask_size range) n) [
  | none ↦ ok none
  | some r ↦ elim (d.bind try2 (start + r.0)) [
    | none ↦ ok none
    | some true ↦ ok (some (port (start + r.0)))
    | some false ↦ elim (leb (range * 2) (try2 + 1)) [
      | true ↦ scan (suc range) d start end (start + r.0) (start + r.0) (try2 + 1)
      | false ↦ try_ports fuel d start end range (try2 + 1) r.1
    ]
  ]
]

-- bind_socket: `none` is the result 0.
unfoldable pub bind_socket : PortRange → Draws → Run (Option Port)
bind_socket g d = elim g.query_port_start [
  | none ↦ ok (some kernels)
  | some start ↦
      let range = g.query_port_end + 1 - start in
      if (range == 0) || ltb 0x10000 range
      then ok none
      else try_ports (suc (range * 2)) d start g.query_port_end range 0 0
]
