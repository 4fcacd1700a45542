-- ===== src/Tests/Samples.antt =====
-- Values that the tests share, and instances of the crates' interfaces.
use gpustat4cluster.Base.{
  ◌^◌, ltb, if◌then◌else◌, ℕ, List, [], ◌∷◌, ◌++◌, ◌≡◌, refl, some, none, Result, ok, err, arith,
  length, take, drop, take-append, drop-append, Option,
}
use gpustat4cluster.Base.Bytes.{
  to_be_bytes, from_be_bytes, from_be_bytes-to_be_bytes, length-to_be_bytes, Bytes,
}
use gpustat4cluster.Base.Text.{Text, text}
use gpustat4cluster.Protocol.Payload.{Archive}
use gpustat4cluster.Snapshot.{
  GresProcessInfo, GresInfo, ServerGresSnapshot, GresStaticInfo, HostMetadata, GresRuntimeInfo,
  RuntimeSnapshot,
}
use gpustat4cluster.Server.Transport.{Json}

abbrev pub gpu : ℕ → ℕ → GresInfo
gpu index percent = record {
  index = index;
  name = text "A100";
  temperature_c = none;
  uuid = none;
  memory = record { used_mb = 3; total_mb = 80 };
  utilization = record { gres_percent = percent; memory_percent = 4 };
  processes = [];
}

abbrev pub node : ServerGresSnapshot
node = record { hostname = text "n1"; driver_version = none; gres = gpu 0 55 ∷ [] }

abbrev pub busy : GresProcessInfo
busy = record { pid = 7; uid = 1000; command = some (text "train"); used_memory_mb = 2 }

abbrev pub big_node : ServerGresSnapshot
big_node = record {
  hostname = text "n2";
  driver_version = some (text "550");
  gres = record (gpu 1 90) { processes = busy ∷ [] } ∷ gpu 0 15 ∷ [];
}

-- Entries stand for bytes of any size here.
-- An archive of metadata: one resource without a uuid, and no driver version.
abbrev metadata_to : Text → Option Text → List GresStaticInfo → Result Bytes Text
metadata_to hostname none (g ∷ []) = elim g.uuid [
  | none ↦ ok (g.index ∷ g.memory_total_mb ∷ length g.name ∷ (g.name ++ hostname))
  | some _ ↦ err (text "unsupported")
]
metadata_to _ _ _ = err (text "unsupported")

abbrev metadata_from : Bytes → Result HostMetadata Text
metadata_from (index ∷ total ∷ name_len ∷ rest) = ok (record {
  hostname = drop name_len rest;
  driver_version = none;
  gres =
      record { index = index; name = take name_len rest; uuid = none; memory_total_mb = total }
      ∷ [];
})
metadata_from _ = err (text "short")

pub metadata_back :
    (hostname : Text) (driver : Option Text) (gres : List GresStaticInfo) (bytes : Bytes)
    → metadata_to hostname driver gres ≡ ok bytes
    → metadata_from bytes
      ≡ ok (record { hostname = hostname; driver_version = driver; gres = gres })
metadata_back hostname none (g ∷ []) bytes e = ground (
  arith,
  take-append (length g.name) g.name hostname refl,
  drop-append (length g.name) g.name hostname refl,
)
metadata_back hostname none [] bytes e = absurd (ground arith)
metadata_back hostname none (g ∷ h ∷ gs) bytes e = absurd (ground arith)
metadata_back hostname (some t) gres bytes e = absurd (ground arith)

pub metadata_nonempty :
    (hostname : Text) (driver : Option Text) (gres : List GresStaticInfo)
    → metadata_to hostname driver gres ≡ ok []
    → ⊥
metadata_nonempty hostname none (g ∷ []) e = ground arith
metadata_nonempty hostname none [] e = ground arith
metadata_nonempty hostname none (g ∷ h ∷ gs) e = ground arith
metadata_nonempty hostname (some t) gres e = ground arith

abbrev pub metadata_archive : Archive HostMetadata
metadata_archive = record {
  to_bytes = λ m. metadata_to m.hostname m.driver_version m.gres;
  from_bytes = metadata_from;
  from_bytes-to_bytes = λ m bytes e. metadata_back m.hostname m.driver_version m.gres bytes e;
  to_bytes_nonempty = λ m e. metadata_nonempty m.hostname m.driver_version m.gres e;
}

-- An archive of the runtime part: one resource without a temperature and without processes, and a
-- 64-bit hash.
abbrev runtime_to : ℕ → List GresRuntimeInfo → Result Bytes Text
runtime_to hash (g ∷ []) = elim g.temperature_c [
  | none ↦ elim g.processes [
    | [] ↦
        if ltb hash (2 ^ 64)
        then ok (
            to_be_bytes 8 hash
            ++ (g.index ∷ g.memory_used_mb ∷ g.utilization.gres_percent
                ∷ g.utilization.memory_percent ∷ []))
        else err (text "unsupported")
    | p ∷ ps ↦ err (text "unsupported")
  ]
  | some _ ↦ err (text "unsupported")
]
runtime_to _ _ = err (text "unsupported")

abbrev runtime_fields : ℕ → Bytes → Result RuntimeSnapshot Text
runtime_fields hash (index ∷ used ∷ percent ∷ memory ∷ []) = ok (record {
  metadata_hash = hash;
  gres =
      record {
        index = index;
        temperature_c = none;
        memory_used_mb = used;
        utilization = record { gres_percent = percent; memory_percent = memory };
        processes = [];
      }
      ∷ [];
})
runtime_fields _ _ = err (text "malformed")

abbrev runtime_from : Bytes → Result RuntimeSnapshot Text
runtime_from bytes = runtime_fields (from_be_bytes (take 8 bytes)) (drop 8 bytes)

pub runtime_back :
    (hash : ℕ) (gres : List GresRuntimeInfo) (bytes : Bytes)
    → runtime_to hash gres ≡ ok bytes
    → runtime_from bytes ≡ ok (record { metadata_hash = hash; gres = gres })
runtime_back hash (g ∷ []) bytes e =
    let fields =
      g.index ∷ g.memory_used_mb ∷ g.utilization.gres_percent ∷ g.utilization.memory_percent ∷ [] in
    ground (
      arith,
      take-append 8 (to_be_bytes 8 hash) fields (length-to_be_bytes 8 hash),
      drop-append 8 (to_be_bytes 8 hash) fields (length-to_be_bytes 8 hash),
      from_be_bytes-to_be_bytes 8 hash,
    )
runtime_back hash [] bytes e = absurd (ground arith)
runtime_back hash (g ∷ h ∷ gs) bytes e = absurd (ground arith)

pub runtime_nonempty : (hash : ℕ) (gres : List GresRuntimeInfo) → runtime_to hash gres ≡ ok [] → ⊥
runtime_nonempty hash (g ∷ []) e = ground arith
runtime_nonempty hash [] e = ground arith
runtime_nonempty hash (g ∷ h ∷ gs) e = ground arith

abbrev pub runtime_archive : Archive RuntimeSnapshot
runtime_archive = record {
  to_bytes = λ s. runtime_to s.metadata_hash s.gres;
  from_bytes = runtime_from;
  from_bytes-to_bytes = λ s bytes e. runtime_back s.metadata_hash s.gres bytes e;
  to_bytes_nonempty = λ s e. runtime_nonempty s.metadata_hash s.gres e;
}

-- Messages as single bytes: a version, a version and an id, a request id.
abbrev pub json_codec : Json
json_codec = record {
  read_handshake = λ bytes. elim bytes [ [] ↦ none | v ∷ _ ↦ some (record { version = v }) ];
  read_query =
      λ bytes. elim bytes [ [] ↦ none | v ∷ _ ↦ some (record { version = v; request_id = 5 }) ];
  write_response = λ response. some (response.request_id ∷ []);
}
