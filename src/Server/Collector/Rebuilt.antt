-- ===== src/Server/Collector/Rebuilt.antt =====
-- A client that is sent the parts of a collector's snapshot has the snapshot.
use gpustat4cluster.Base.{ℕ, ◌+◌, ◌<◌, ◌≡◌, ◌≢◌, ◌∙◌, ok, List, [], ◌∷◌, All, map, arith}
use gpustat4cluster.Snapshot.{metadata_of, runtime_of, to_snapshot}
use gpustat4cluster.Snapshot.Rebuild
use gpustat4cluster.Snapshot.Rebuild.{to_snapshot-runtime_of}
use gpustat4cluster.Server.Summary.{IsPercent}
use gpustat4cluster.Server.Collector.{
  GresResource, GresNodeSnapshot, info_of_resource, into_gres_snapshot,
  validate_gres_node_snapshot_contract,
}
use gpustat4cluster.Server.Collector.Convert.{omit_process_commands-into_gres_snapshot}
use gpustat4cluster.Server.Collector.Contract.{IsDense, IsResource, contract_lem}

IsDense-other :
    (j k : ℕ) (rs : List GresResource)
    → j < k
    → IsDense k rs
    → All (λ h. h.index ≢ j) (map info_of_resource rs)
unfolding info_of_resource
IsDense-other j k [] below d = tt
IsDense-other j k (r ∷ rs) below d =
    (omega (arith, d.0), IsDense-other j (k + 1) rs (omega arith) d.1)

pub IsDense-IsDistinct :
    (k : ℕ) (rs : List GresResource) → IsDense k rs → Rebuild.IsDistinct (map info_of_resource rs)
IsDense-IsDistinct k [] d = tt
IsDense-IsDistinct k (r ∷ rs) d = (
  unfold info_of_resource in IsDense-other r.index (k + 1) rs (omega (arith, d.0)) d.1,
  IsDense-IsDistinct (k + 1) rs d.1,
)

pub to_snapshot-into_gres_snapshot :
    (n : GresNodeSnapshot)
    → IsDense 0 n.resources
    → to_snapshot (runtime_of (into_gres_snapshot n)) (metadata_of (into_gres_snapshot n))
      ≡ into_gres_snapshot n
to_snapshot-into_gres_snapshot n d =
    to_snapshot-runtime_of (into_gres_snapshot n)
      (unfold into_gres_snapshot in IsDense-IsDistinct 0 n.resources d)
    ∙ omit_process_commands-into_gres_snapshot n

percents : (rs : List GresResource) → All IsResource rs → All IsPercent (map info_of_resource rs)
unfolding info_of_resource
percents [] h = tt
percents (r ∷ rs) h = (h.0.3, percents rs h.1)

-- A client that has the metadata and the runtime part of a snapshot that passes the contract
-- rebuilds exactly the snapshot that the collector returned, whose percentages are at most 100.
pub contract_rebuilt :
    (n : GresNodeSnapshot)
    → validate_gres_node_snapshot_contract n ≡ ok tt
    → (to_snapshot (runtime_of (into_gres_snapshot n)) (metadata_of (into_gres_snapshot n))
        ≡ into_gres_snapshot n)
      × All IsPercent (into_gres_snapshot n).gres
contract_rebuilt n h =
    let m = (contract_lem n).0 h in
    (to_snapshot-into_gres_snapshot n m.2, unfold into_gres_snapshot in percents n.resources m.4)
