-- ===== src/Machine/Ports/Binding.antt =====
-- bind_socket ends, and binds to a port of the configured range.
use orbot_library.Prelude.{
  ℕ, zero, suc, ◌+◌, ◌-◌, ◌*◌, ◌%◌, ◌≤◌, ◌<◌, ◌≡◌, refl, Bool, true, false, ◌||◌, Option, none,
  some, ok, Returns, Returns-if, ltb, leb, ◌==◌, if◌then◌else◌, arith,
}
use orbot_library.Machine.Ports.{
  PortRange, Draws, Port, kernels, port, mask_size, draw, next_port, scan, try_ports, bind_socket,
}

-- What a result says of the range: a port is one of the range that bind has accepted.
abbrev pub Chosen : Draws → ℕ → ℕ → Option Port → Type 0
Chosen d start end none = Unit
Chosen d start end (some kernels) = ⊥
Chosen d start end (some (port p)) =
    (start ≤ p) × ((p ≤ end) × ((n : ℕ) × (d.bind n p ≡ some true)))

-- How many ports the scan has before it meets `pstart`.
abbrev ahead : ℕ → ℕ → ℕ → ℕ → ℕ
ahead start end pstart prt =
    if ltb prt pstart then pstart - prt else (end + 1 - prt) + (pstart - start)

next_port-inside :
    (start end prt : ℕ)
    → start ≤ prt
    → prt ≤ end
    → (start ≤ next_port start end prt) × (next_port start end prt ≤ end)
unfolding next_port
next_port-inside start end prt low high = (ground arith, ground arith)

ahead-next_port :
    (start end pstart prt : ℕ)
    → start ≤ prt
    → prt ≤ end
    → start ≤ pstart
    → pstart ≤ end
    → (next_port start end prt == pstart) ≡ false
    → ahead start end pstart prt ≡ suc (ahead start end pstart (next_port start end prt))
unfolding next_port
ahead-next_port start end pstart prt low high plow phigh other = ground (arith, other)

module _ (d : Draws) (start end : ℕ) where
  scan-Chosen :
      (fuel pstart prt try2 : ℕ)
      → start ≤ prt
      → prt ≤ end
      → start ≤ pstart
      → pstart ≤ end
      → ahead start end pstart prt ≤ fuel
      → 0 < fuel
      → Returns (scan fuel d start end pstart prt try2) (Chosen d start end)
  unfolding scan
  scan-Chosen zero pstart prt try2 low high plow phigh f pos = absurd (omega (arith, pos))
  scan-Chosen (suc fuel) pstart prt try2 low high plow phigh f pos =
      Returns-if (Chosen d start end) (next_port start end prt == pstart) (λ _. (none, refl, _))
        λ other.
          let (nlow, nhigh) = next_port-inside start end prt low high in
          let less = ahead-next_port start end pstart prt low high plow phigh other in
          by_bind nlow nhigh (d.bind try2 (next_port start end prt)) refl
            (λ pos2.
              scan-Chosen fuel pstart (next_port start end prt) (try2 + 1) nlow nhigh plow phigh
                (omega (arith, f, less)) pos2)
            (positive (next_port start end prt) fuel nlow nhigh plow phigh (omega (arith, f, less)))
    where
      positive :
          (p k : ℕ)
          → start ≤ p
          → p ≤ end
          → start ≤ pstart
          → pstart ≤ end
          → ahead start end pstart p ≤ k
          → 0 < k
      positive p k a b c e h = ground arith

      by_bind :
          start ≤ next_port start end prt
          → next_port start end prt ≤ end
          → (b : Option Bool) → d.bind try2 (next_port start end prt) ≡ b
          → (0 < fuel
              → Returns
                  (scan fuel d start end pstart (next_port start end prt) (try2 + 1))
                  (Chosen d start end))
          → 0 < fuel
          → Returns {V = Option Port}
              (elim b [
                | none ↦ ok none
                | some true ↦ ok (some (port (next_port start end prt)))
                | some false ↦ scan fuel d start end pstart (next_port start end prt) (try2 + 1)
              ])
              (Chosen d start end)
      by_bind nlow nhigh none e rest pos2 = (none, refl, _)
      by_bind nlow nhigh (some true) e rest pos2 = (_, refl, (nlow, (nhigh, (try2, e))))
      by_bind nlow nhigh (some false) e rest pos2 = rest pos2

  -- What a draw says: the number is below the range.
  abbrev Below : ℕ → Option (ℕ × ℕ) → Type 0
  Below range none = Unit
  Below range (some r) = r.0 < range

  draw-Below : (tries range size n : ℕ) → Below range (draw tries d range size n)
  unfolding draw
  draw-Below zero range size n = _
  draw-Below (suc tries) range size n =
      by_test (ltb (d.rand16 n % size) range) refl (draw-Below tries range size (n + 1))
    where
      by_test :
          (b : Bool)
          → ltb (d.rand16 n % size) range ≡ b
          → Below range (draw tries d range size (n + 1))
          → Below range (elim b as (λ _. Option (ℕ × ℕ)) [
            | true ↦ some (d.rand16 n % size, n + 1)
            | false ↦ draw tries d range size (n + 1)
          ])
      by_test true is rest = ground (arith, is)
      by_test false is rest = rest

  try_ports-Chosen :
      (fuel range try2 n : ℕ)
      → start + range ≡ end + 1
      → try2 < range * 2
      → range * 2 ≤ fuel + try2
      → Returns (try_ports fuel d start end range try2 n) (Chosen d start end)
  unfolding try_ports
  try_ports-Chosen zero range try2 n e h f = absurd (omega (arith, h, f))
  try_ports-Chosen (suc fuel) range try2 n e h f =
      by_draw (draw 0x10000 d range (mask_size range) n)
        (draw-Below 0x10000 range (mask_size range) n)
        (λ m more. try_ports-Chosen fuel range (try2 + 1) m e more (omega (arith, f)))
    where
      by_tries :
          (r : ℕ × ℕ) (b : Bool)
          → leb (range * 2) (try2 + 1) ≡ b
          → r.0 < range
          → (try2 + 1 < range * 2
              → Returns (try_ports fuel d start end range (try2 + 1) r.1) (Chosen d start end))
          → Returns {V = Option Port}
              (elim b [
                | true ↦ scan (suc range) d start end (start + r.0) (start + r.0) (try2 + 1)
                | false ↦ try_ports fuel d start end range (try2 + 1) r.1
              ])
              (Chosen d start end)
      by_tries r true is low rest =
          scan-Chosen (suc range) (start + r.0) (start + r.0) (try2 + 1) (omega arith) (omega arith)
            (omega arith) (omega arith) (ground arith) (omega arith)
      by_tries r false is low rest = rest (ground (arith, is))

      by_bind :
          (r : ℕ × ℕ) (b : Option Bool)
          → r.0 < range
          → d.bind try2 (start + r.0) ≡ b
          → (try2 + 1 < range * 2
              → Returns (try_ports fuel d start end range (try2 + 1) r.1) (Chosen d start end))
          → Returns {V = Option Port}
              (elim b [
                | none ↦ ok none
                | some true ↦ ok (some (port (start + r.0)))
                | some false ↦ elim (leb (range * 2) (try2 + 1)) [
                  | true ↦ scan (suc range) d start end (start + r.0) (start + r.0) (try2 + 1)
                  | false ↦ try_ports fuel d start end range (try2 + 1) r.1
                ]
              ])
              (Chosen d start end)
      by_bind r none low is rest = (none, refl, _)
      by_bind r (some true) low is rest = (_, refl, (omega arith, (omega arith, (try2, is))))
      by_bind r (some false) low is rest = by_tries r (leb (range * 2) (try2 + 1)) refl low rest

      by_draw :
          (o : Option (ℕ × ℕ))
          → Below range o
          → ((m : ℕ)
              → try2 + 1 < range * 2
              → Returns (try_ports fuel d start end range (try2 + 1) m) (Chosen d start end))
          → Returns {V = Option Port}
              (elim o [
                | none ↦ ok none
                | some r ↦ elim (d.bind try2 (start + r.0)) [
                  | none ↦ ok none
                  | some true ↦ ok (some (port (start + r.0)))
                  | some false ↦ elim (leb (range * 2) (try2 + 1)) [
                    | true ↦ scan (suc range) d start end (start + r.0) (start + r.0) (try2 + 1)
                    | false ↦ try_ports fuel d start end range (try2 + 1) r.1
                  ]
                ]
              ])
              (Chosen d start end)
      by_draw none low rest = (none, refl, _)
      by_draw (some r) low rest = by_bind r (d.bind try2 (start + r.0)) low refl (rest r.1)

-- What bind_socket's result says of the configuration: without a range the kernel is to choose, and
-- else a port is one of the range that bind has accepted.
abbrev pub Bound : PortRange → Draws → Option Port → Type 0
Bound g d none = Unit
Bound g d (some kernels) = g.query_port_start ≡ none
Bound g d (some (port p)) =
    (start : ℕ) × ((g.query_port_start ≡ some start)
      × Chosen d start g.query_port_end (some (port p)))

-- bind_socket returns, for every range, whatever random numbers it gets and whatever bind gives; a
-- port that it binds to is in the configured range.
pub bind_socket-Bound : (g : PortRange) (d : Draws) → Returns (bind_socket g d) (Bound g d)
unfolding bind_socket
bind_socket-Bound g d = by_start g.query_port_start refl
  where
    chosen :
        (start : ℕ) (p : Option Port)
        → g.query_port_start ≡ some start
        → Chosen d start g.query_port_end p
        → Bound g d p
    chosen start none is c = _
    chosen start (some kernels) is c = absurd c
    chosen start (some (port p)) is c = (start, (is, c))

    by_start :
        (o : Option ℕ)
        → g.query_port_start ≡ o
        → Returns {V = Option Port}
            (elim o [
              | none ↦ ok (some kernels)
              | some start ↦
                  let range = g.query_port_end + 1 - start in
                  if (range == 0) || ltb 0x10000 range
                  then ok none
                  else try_ports (suc (range * 2)) d start g.query_port_end range 0 0
            ])
            (Bound g d)
    by_start none is = (_, refl, is)
    by_start (some start) is =
        let range = g.query_port_end + 1 - start in
        Returns-if (Bound g d) ((range == 0) || ltb 0x10000 range) (λ _. (none, refl, _))
          λ good.
            let (p, run, c) =
              try_ports-Chosen d start g.query_port_end (suc (range * 2)) range 0 0
                (ground (arith, good)) (ground (arith, good)) (omega arith) in
            (p, run, chosen start p is c)
