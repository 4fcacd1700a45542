-- ===== src/Server/Collector/Convert.antt =====
-- The two conversions are inverse up to what they leave out.
use gpustat4cluster.Base.{List, [], ◌∷◌, ◌≡◌, refl, ap, ap₂, map}
use gpustat4cluster.Snapshot.{
  GresInfo, GresProcessInfo, ServerGresSnapshot, omit_command, omit_commands, omit_process_commands,
}
use gpustat4cluster.Server.Collector.{
  GresResourceKind, nvml, GresProcess, GresResource, GresNodeSnapshot, process_of, resource_of,
  from_gres_snapshot, info_of_process, info_of_resource, into_gres_snapshot,
}

map_back {ℓ κ} :
    {A : Type ℓ} {B : Type κ} (f : A → B) (g : B → A) (xs : List A)
    → ((x : A) → g (f x) ≡ x)
    → map g (map f xs) ≡ xs
map_back f g [] h = refl
map_back f g (x ∷ xs) h = ap₂ ◌∷◌ (h x) (map_back f g xs h)

map_swap {ℓ κ μ} :
    {A : Type ℓ} {B : Type κ} {C : Type μ} (f : A → B) (g : B → C) (k : A → C) (xs : List A)
    → ((x : A) → g (f x) ≡ k x)
    → map g (map f xs) ≡ map k xs
map_swap f g k [] h = refl
map_swap f g k (x ∷ xs) h = ap₂ ◌∷◌ (h x) (map_swap f g k xs h)

process_back : (p : GresProcess) → process_of (info_of_process p) ≡ p
unfolding process_of info_of_process
process_back p = refl

only_kind : (k : GresResourceKind) → nvml ≡ k
only_kind nvml = refl

resource_back : (r : GresResource) → resource_of (info_of_resource r) ≡ r
unfolding resource_of info_of_resource
resource_back r =
    ap₂ (λ k ps. record r { kind = k; processes = ps }) (only_kind r.kind)
      (map_back info_of_process process_of r.processes process_back)

-- What a collector returns is what the conversion to the protocol's snapshot and back gives.
pub from_gres_snapshot-into_gres_snapshot :
    (n : GresNodeSnapshot) → from_gres_snapshot (into_gres_snapshot n) ≡ n
unfolding from_gres_snapshot into_gres_snapshot
from_gres_snapshot-into_gres_snapshot n =
    ap (λ rs. record n { resources = rs })
      (map_back info_of_resource resource_of n.resources resource_back)

command_gone : (p : GresProcessInfo) → info_of_process (process_of p) ≡ omit_command p
unfolding info_of_process process_of omit_command
command_gone p = refl

commands_gone : (g : GresInfo) → info_of_resource (resource_of g) ≡ omit_commands g
unfolding info_of_resource resource_of omit_commands
commands_gone g =
    ap (λ ps. record g { processes = ps })
      (map_swap process_of info_of_process omit_command g.processes command_gone)

-- The other way the commands of the processes are lost, and nothing else.
pub into_gres_snapshot-from_gres_snapshot :
    (s : ServerGresSnapshot) → into_gres_snapshot (from_gres_snapshot s) ≡ omit_process_commands s
unfolding from_gres_snapshot into_gres_snapshot omit_process_commands
into_gres_snapshot-from_gres_snapshot s =
    ap (λ gs. record s { gres = gs })
      (map_swap resource_of info_of_resource omit_commands s.gres commands_gone)

nothing_to_omit : (p : GresProcess) → omit_command (info_of_process p) ≡ info_of_process p
unfolding omit_command info_of_process
nothing_to_omit p = refl

omit_commands-info_of_resource :
    (r : GresResource) → omit_commands (info_of_resource r) ≡ info_of_resource r
unfolding omit_commands info_of_resource
omit_commands-info_of_resource r =
    ap (λ ps. record (info_of_resource r) { processes = ps })
      (map_swap info_of_process omit_command info_of_process r.processes nothing_to_omit)

pub omit_process_commands-into_gres_snapshot :
    (n : GresNodeSnapshot) → omit_process_commands (into_gres_snapshot n) ≡ into_gres_snapshot n
unfolding omit_process_commands into_gres_snapshot
omit_process_commands-into_gres_snapshot n =
    ap (λ gs. record (into_gres_snapshot n) { gres = gs })
      (map_swap info_of_resource omit_commands info_of_resource n.resources
        omit_commands-info_of_resource)
