-- ===== src/Client/LocalApi/Commands/Kept.antt =====
-- What the commands keep of the pool.
use gpustat4cluster.Base.{ℕ, ◌≡◌, true, arith}
use gpustat4cluster.Base.Text.{Text}
use gpustat4cluster.Client.Filter.{Net}
use gpustat4cluster.Client.LocalApi.{Connection, LocalApiState}
use gpustat4cluster.Client.LocalApi.Pool.{
  IsPool, length-remove_connection, remove_connection-HasDistinctKeys,
}
use gpustat4cluster.Client.LocalApi.Commands.{World, heartbeat_failed}

module _ (net : Net) (same_ip : (ip : net.IpAddr) → net.ip_eq ip ip ≡ true) where
  abbrev Keeps : LocalApiState net → Type 0
  Keeps s = IsPool net same_ip s

  heartbeat_failed-IsPool :
      (now : ℕ) (c : Connection net) (error : Text) (s : LocalApiState net)
      → Keeps s
      → Keeps (heartbeat_failed net now c error s)
  unfolding heartbeat_failed
  heartbeat_failed-IsPool now c error s v = record {
    bounded = omega (arith, v.bounded, length-remove_connection net same_ip c.peer s.connections);
    hosts = remove_connection-HasDistinctKeys net same_ip c.peer s.connections v.hosts;
  }

  -- What the environment is supposed to do: no query changes the hostname of its connection, as where
  -- the host that answers under an address keeps its name.
  abbrev pub IsSteady : World net → Type 0
  IsSteady world = (c : Connection net) → (world.query c).metadata.hostname ≡ c.hostname
