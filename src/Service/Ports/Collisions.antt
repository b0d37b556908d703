-- ===== src/Service/Ports/Collisions.antt =====
-- When the host ports of two replicas differ.
use easy_deploy.Prelude.{
  ℕ, zero, suc, ◌≡◌, ◌≢◌, refl, arith, sym, ap, ◌∙◌, false, Option, none, some, List, [], ◌∷◌, map,
  Text, is_empty,
}
use easy_deploy.Prelude.Int.{
  ℤ, pos, ◌+ℤ◌, +ℤ_parts, eq_of_parts, pos_part, neg_part, Fits64, wrap64-Fits64,
}
use easy_deploy.Prelude.Decimal.{itoa, atoi, atoi-itoa, itoa_injective}
use easy_deploy.Prelude.Trim.{trim_space}
use easy_deploy.Docker.Spec.{PortMap}
use easy_deploy.Service.Ports.{shifted_port, offset_host_ports}

-- A port that was written as a number is the number shifted by the replica's index.
pub shifted_port-number :
    (delta n : ℤ) (host_port : Text)
    → atoi (trim_space host_port) ≡ some n
    → Fits64 (n +ℤ delta)
    → shifted_port delta host_port ≡ itoa (n +ℤ delta)
unfolding shifted_port
shifted_port-number delta n host_port number fits =
    rw number (ap itoa (wrap64-Fits64 (n +ℤ delta) fits))

-- Replicas with different offsets get different host ports for one port of the service, if it is a
-- number and the sums fit `int64`.
pub shifted_port-distinct :
    (i j n : ℤ) (host_port : Text)
    → atoi (trim_space host_port) ≡ some n
    → Fits64 (n +ℤ i)
    → Fits64 (n +ℤ j)
    → i ≢ j
    → shifted_port i host_port ≢ shifted_port j host_port
shifted_port-distinct i j n host_port number fi fj apart same =
    let e = itoa_injective (n +ℤ i) (n +ℤ j) fi fj (
      sym (shifted_port-number i n host_port number fi)
      ∙ same
      ∙ shifted_port-number j n host_port number fj) in
    apart (omega (arith, +ℤ_parts n i, +ℤ_parts n j, eq_of_parts i j, ap pos_part e, ap neg_part e))

abbrev pub port_at : ℕ → List PortMap → Option PortMap
port_at i [] = none
port_at zero (p ∷ ps) = some p
port_at (suc i) (p ∷ ps) = port_at i ps

abbrev shifted : ℤ → PortMap → PortMap
shifted delta p = record p { host_port = shifted_port delta p.host_port }

port_at-map :
    (delta : ℤ) (i : ℕ) (ps : List PortMap) (p : PortMap)
    → port_at i ps ≡ some p
    → port_at i (map (shifted delta) ps) ≡ some (shifted delta p)
port_at-map delta i [] p h = cc
port_at-map delta zero (q ∷ ps) p h = cc
port_at-map delta (suc i) (q ∷ ps) p h = port_at-map delta i ps p h

some_port : (i : ℕ) (ps : List PortMap) (p : PortMap) → port_at i ps ≡ some p → is_empty ps ≡ false
some_port i [] p h = cc
some_port i (q ∷ ps) p h = refl

port_at-offset :
    (i : ℕ) (ps : List PortMap) (p : PortMap)
    → port_at i ps ≡ some p
    → port_at i (offset_host_ports ps (pos 1)) ≡ some (shifted (pos 1) p)
unfolding offset_host_ports
port_at-offset i ps p h = rw (some_port i ps p h) (port_at-map (pos 1) i ps p h)

port_at-unchanged : (ps : List PortMap) → offset_host_ports ps (pos 0) ≡ ps
unfolding offset_host_ports
port_at-unchanged ps = ground arith

-- But two ports of one service collide, if they are published on the same address with the same
-- protocol, under numbers that follow one another: among the ports of replica 1, the first has that
-- address, that protocol and the number that the second has among the ports of replica 0. The second
-- number fits `int64`.
pub offset_host_ports-collides :
    (ports : List PortMap) (i j : ℕ) (p q : PortMap) (n : ℤ)
    → port_at i ports ≡ some p
    → port_at j ports ≡ some q
    → (p.host_ip ≡ q.host_ip) × (p.proto ≡ q.proto)
    → atoi (trim_space p.host_port) ≡ some n
    → atoi (trim_space q.host_port) ≡ some (n +ℤ pos 1)
    → Fits64 (n +ℤ pos 1)
    → (mine : PortMap) × (other : PortMap) × (port_at i (offset_host_ports ports (pos 1))
        ≡ some mine)
      × (port_at j (offset_host_ports ports (pos 0)) ≡ some other)
      × (mine.host_ip ≡ other.host_ip)
      × (mine.proto ≡ other.proto)
      × (atoi mine.host_port ≡ atoi (trim_space other.host_port))
offset_host_ports-collides ports i j p q n here there alike one two fits = (
  shifted (pos 1) p,
  q,
  port_at-offset i ports p here,
  ap (port_at j) (port_at-unchanged ports) ∙ there,
  alike.0,
  alike.1,
  ap atoi (shifted_port-number (pos 1) n p.host_port one fits)
      ∙ atoi-itoa (n +ℤ pos 1) fits
      ∙ sym two,
)
