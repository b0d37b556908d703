-- ===== src/Tunnel.antt =====
-- server/internal/tunnel/tunnel.go: the SSH tunnels that run, and the remote listeners that are open. A
-- listener is named by a number that is given once.
pub mod System
pub mod Tracking
pub mod Address
use easy_deploy.Prelude.{
  ℕ, ◌+◌, Bool, true, false, not, ◌==◌, Option, none, some, List, [], ◌∷◌, ◌++◌, Text, codes,
  text_eq, is_empty, if◌then◌else◌,
}
use easy_deploy.Prelude.Int.{ℤ, int_eq}
use easy_deploy.Prelude.Decimal.{itoa}
use easy_deploy.Prelude.Rows.{delete}
use easy_deploy.Effect.{Result, ok, err, Exec, pure, raise, ◌>>=◌, ◌>>◌}
use easy_deploy.Store.{Tunnel}

-- `Manager`: for each tunnel that runs the listener that its `cancel` closes; and, beside it, the
-- listeners that are open.
pub record Tunnels : Type 0 where
  pub running : List (ℤ × ℕ)
  pub opened : List ℕ
  pub next : ℕ

abbrev pub Task : Type 0 → Type 0
Task A = Exec Tunnels Text A

unfoldable pub listener_at : ℤ → List (ℤ × ℕ) → Option ℕ
listener_at id [] = none
listener_at id ((i, c) ∷ rest) = if int_eq i id then some c else listener_at id rest

unfoldable pub drop_listener : ℤ → List (ℤ × ℕ) → List (ℤ × ℕ)
drop_listener id [] = []
drop_listener id ((i, c) ∷ rest) =
    if int_eq i id then drop_listener id rest else (i, c) ∷ drop_listener id rest

abbrev is_running_at : Option ℕ → Bool
is_running_at none = false
is_running_at (some c) = true

unfoldable pub is_running : ℤ → Tunnels → Bool
unfolding listener_at
is_running id w = is_running_at (listener_at id w.running)

abbrev or_raise : Bool → Text → Task Unit
or_raise true why = pure tt
or_raise false why = raise why

-- The first part of `Start`, under the lock: only an SSH tunnel that does not run may be started.
unfoldable pub check_start : Tunnel → Task Unit
unfolding is_running
check_start t w =
    (do
      or_raise (text_eq t.kind (codes "ssh")) (codes "only ssh tunnels can be started")
      or_raise (not (is_running t.id w)) (codes "tunnel already running"))
      w

-- What the machine and the remote host answer: the text of a file, whether it is a private key, and
-- whether dialling and listening work.
pub record Remote : Type 0 where
  pub read_file : Text → Option Text
  pub parses : Text → Bool
  pub dials : Text → Text → Bool
  pub listens : Text → Bool

abbrev key_read : Remote → Option Text → Task Unit
key_read net none = raise (codes "read ssh key")
key_read net (some key) = or_raise (net.parses key) (codes "parse ssh key")

-- `loadSigner`
unfoldable pub load_signer : Remote → Text → Task Unit
load_signer net key_path =
    if is_empty key_path
    then raise (codes "no SSH key configured")
    else key_read net (net.read_file key_path)

-- `conn.Listen`: the remote host opens a listener.
unfoldable pub listen : Task ℕ
listen w = (ok w.next, record w { opened = w.next ∷ w.opened; next = w.next + 1 })

-- The middle of `Start`, without the lock: the map is not read or written. The listener that it opens
-- is in no map yet.
unfoldable pub connect : Remote → Text → Tunnel → Task ℕ
unfolding load_signer listen
connect net key_path t = do
  load_signer net key_path
  or_raise (net.dials t.ssh_user (t.ssh_host ++ b':' ∷ itoa t.ssh_port)) (codes "ssh dial")
  or_raise (net.listens (codes "0.0.0.0:" ++ itoa t.remote_port)) (codes "remote listen")
  listen

-- The last part of `Start`, under the lock again: whatever stands in the map is overwritten.
unfoldable pub register : ℤ → ℕ → Tunnels → Tunnels
unfolding drop_listener
register id c w = record w { running = (id, c) ∷ drop_listener id w.running }

unfoldable pub start : Remote → Text → Tunnel → Task Unit
unfolding check_start connect register
start net key_path t = do check_start t; c ← connect net key_path t; λ w. (ok tt, register t.id c w)

abbrev closed : ℤ → Option ℕ → Tunnels → Tunnels
closed id none w = w
closed id (some c) w = record w {
  running = drop_listener id w.running;
  opened = delete (λ d. d == c) w.opened;
}

unfoldable pub stop : ℤ → Tunnels → Tunnels
unfolding listener_at drop_listener
stop id w = closed id (listener_at id w.running) w
