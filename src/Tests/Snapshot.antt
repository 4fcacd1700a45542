-- ===== src/Tests/Snapshot.antt =====
-- The division of a snapshot and the announced load at concrete inputs.
use gpustat4cluster.Base.{[], ◌∷◌, ◌≡◌, refl, some, none, arith}
use gpustat4cluster.Snapshot.{
  metadata_of, runtime_of, to_snapshot, omit_process_commands, metadata_hash, write_optional,
}
use gpustat4cluster.Snapshot.Rebuild.{IsDistinct, to_snapshot-runtime_of}
use gpustat4cluster.Tests.Samples.{big_node}

big_node-IsDistinct : IsDistinct big_node.gres
big_node-IsDistinct = ground arith

to_snapshot-runtime_of_example :
    to_snapshot (runtime_of big_node) (metadata_of big_node) ≡ omit_process_commands big_node
to_snapshot-runtime_of_example = to_snapshot-runtime_of big_node big_node-IsDistinct

-- An absent driver version and an empty one have the same hash.
same_hash :
    metadata_hash (record { hostname = 1 ∷ []; driver_version = none; gres = [] })
    ≡ metadata_hash (record { hostname = 1 ∷ []; driver_version = some []; gres = [] })
unfolding metadata_hash write_optional
same_hash = refl
