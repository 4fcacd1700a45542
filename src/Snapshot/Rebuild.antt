-- ===== src/Snapshot/Rebuild.antt =====
-- What a client rebuilds from the metadata and the runtime part of a snapshot.
use gpustat4cluster.Base.{
  List, [], ◌∷◌, ◌≡◌, ◌≢◌, refl, ap, ap₂, ◌∙◌, some, map, All, ==_refl, arith,
}
use gpustat4cluster.Snapshot.{
  GresProcessInfo, GresInfo, ServerGresSnapshot, HostMetadata, RuntimeSnapshot, metadata_hash,
  static_info, runtime_info, process_runtime, process_info, metadata_of, runtime_of, find_static,
  gres_info, to_snapshot, omit_command, omit_commands, omit_process_commands,
}

-- The indices of a list of resources differ from each other.
abbrev pub IsDistinct : List GresInfo → Type 0
IsDistinct [] = Unit
IsDistinct (g ∷ gs) = All (λ h. h.index ≢ g.index) gs × IsDistinct gs

abbrev IsFound : List GresInfo → GresInfo → Type 0
IsFound all g = find_static g.index (map static_info all) ≡ some (static_info g)

IsFound-behind :
    (g : GresInfo) (all gs : List GresInfo)
    → All (λ h. h.index ≢ g.index) gs
    → All (IsFound all) gs
    → All (IsFound (g ∷ all)) gs
unfolding find_static static_info
IsFound-behind g all [] other found = tt
IsFound-behind g all (h ∷ gs) other found =
    (ground (arith, other.0, found.0), IsFound-behind g all gs other.1 found.1)

All-IsFound : (gs : List GresInfo) → IsDistinct gs → All (IsFound gs) gs
unfolding find_static static_info
All-IsFound [] d = tt
All-IsFound (g ∷ gs) d = (rw (==_refl g.index), IsFound-behind g gs gs d.0 (All-IsFound gs d.1))

process_back : (p : GresProcessInfo) → process_info (process_runtime p) ≡ omit_command p
unfolding process_info process_runtime omit_command
process_back p = refl

map-cong_All {ℓ κ} :
    {A : Type ℓ} {B : Type κ} (f g : A → B) (xs : List A)
    → All (λ x. f x ≡ g x) xs
    → map f xs ≡ map g xs
map-cong_All f g [] h = refl
map-cong_All f g (x ∷ xs) h = ap₂ ◌∷◌ h.0 (map-cong_All f g xs h.1)

processes_back :
    (ps : List GresProcessInfo) → map process_info (map process_runtime ps) ≡ map omit_command ps
processes_back [] = refl
processes_back (p ∷ ps) = ap₂ ◌∷◌ (process_back p) (processes_back ps)

gres_back : (g : GresInfo) → gres_info (runtime_info g) (some (static_info g)) ≡ omit_commands g
unfolding gres_info runtime_info static_info omit_commands
gres_back g = ap (λ ps. record g { processes = ps }) (processes_back g.processes)

index_same : (g : GresInfo) → (runtime_info g).index ≡ g.index
unfolding runtime_info
index_same g = refl

rebuilt :
    (all gs : List GresInfo)
    → All (IsFound all) gs
    → map
        (λ runtime. gres_info runtime (find_static runtime.index (map static_info all)))
        (map runtime_info gs)
      ≡ map omit_commands gs
rebuilt all [] found = refl
rebuilt all (g ∷ gs) found =
    ap₂ ◌∷◌
      (ap (λ i. gres_info (runtime_info g) (find_static i (map static_info all))) (index_same g)
        ∙ ap (gres_info (runtime_info g)) found.0
        ∙ gres_back g)
      (rebuilt all gs found.1)

-- A client that has the metadata and the runtime part of a snapshot rebuilds it up to the commands
-- of the processes, where the resources have distinct indices.
pub to_snapshot-runtime_of :
    (s : ServerGresSnapshot)
    → IsDistinct s.gres
    → to_snapshot (runtime_of s) (metadata_of s) ≡ omit_process_commands s
unfolding to_snapshot runtime_of metadata_of omit_process_commands
to_snapshot-runtime_of s d =
    ap (λ gs. record s { gres = gs }) (rebuilt s.gres s.gres (All-IsFound s.gres d))

static_omitted : (gs : List GresInfo) → map static_info (map omit_commands gs) ≡ map static_info gs
unfolding static_info omit_commands
static_omitted [] = refl
static_omitted (g ∷ gs) = ap₂ ◌∷◌ refl (static_omitted gs)

runtime_processes_omitted :
    (ps : List GresProcessInfo) → map process_runtime (map omit_command ps) ≡ map process_runtime ps
unfolding process_runtime omit_command
runtime_processes_omitted [] = refl
runtime_processes_omitted (p ∷ ps) = ap₂ ◌∷◌ refl (runtime_processes_omitted ps)

runtime_omitted :
    (gs : List GresInfo) → map runtime_info (map omit_commands gs) ≡ map runtime_info gs
unfolding runtime_info omit_commands
runtime_omitted [] = refl
runtime_omitted (g ∷ gs) =
    ap₂ ◌∷◌
      (ap (λ ps. record (runtime_info g) { processes = ps })
        (runtime_processes_omitted g.processes))
      (runtime_omitted gs)

metadata_omitted : (s : ServerGresSnapshot) → metadata_of (omit_process_commands s) ≡ metadata_of s
unfolding metadata_of omit_process_commands
metadata_omitted s =
    ap
      (λ gs.
        let m : HostMetadata = record {
          hostname = s.hostname;
          driver_version = s.driver_version;
          gres = gs;
        } in
        m)
      (static_omitted s.gres)

runtime_of_omitted : (s : ServerGresSnapshot) → runtime_of (omit_process_commands s) ≡ runtime_of s
unfolding runtime_of omit_process_commands
runtime_of_omitted s =
    ap₂
      (λ m gs. let r : RuntimeSnapshot = record { metadata_hash = metadata_hash m; gres = gs } in r)
      (metadata_omitted s) (runtime_omitted s.gres)

-- The metadata and the runtime part of a rebuilt snapshot, the metadata hash included, are those it
-- was rebuilt from, where the resources have distinct indices.
pub parts_of_rebuilt :
    (s : ServerGresSnapshot)
    → IsDistinct s.gres
    → (metadata_of (to_snapshot (runtime_of s) (metadata_of s)) ≡ metadata_of s)
      × (runtime_of (to_snapshot (runtime_of s) (metadata_of s)) ≡ runtime_of s)
parts_of_rebuilt s d = (
  ap metadata_of (to_snapshot-runtime_of s d) ∙ metadata_omitted s,
  ap runtime_of (to_snapshot-runtime_of s d) ∙ runtime_of_omitted s,
)
