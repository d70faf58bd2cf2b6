-- ===== src/Tests/Memory.antt =====
-- An instance API over a memory that holds at most one volume and one snapshot, and in which every
-- server exists. It keeps the laws that the theorems on the handlers assume.
use text.Mathlib.TextPositions.{eq_refl}
use scaleway_csi.Base.{
  ℕ, String, ◌≡◌, refl, ap, Bool, ◌&&◌, true, Option, none, some, List, [], ◌∷◌, if◌then◌else◌,
  arith, Result, ok, err, map,
}
use scaleway_csi.Base.Text.{same_text}
use scaleway_csi.Ids.{Zone}
use scaleway_csi.Cloud.{
  InstanceApi, Volume, Snapshot, Server, CreateVolumeRequest, ApiError, resource_not_found,
  other_error,
}
use scaleway_csi.Cloud.Laws.{IsReadOnly, IsAttaching, IsCreating, IsDeleting, Later, IsSnapshotting}

pub record Memory : Type 0 where
  pub volume : Option Volume
  pub snapshot : Option Snapshot

abbrev pub fr_par_1 : Zone
fr_par_1 = "fr-par-1"

-- The SDK knows two zones here.
abbrev pub parse_zone : String → Option Zone
parse_zone z =
    if same_text z "fr-par-1"
    then some "fr-par-1"
    else if same_text z "fr-par-2"
    then some "fr-par-2"
    else none

abbrev gone : ApiError
gone = resource_not_found "no such resource"

abbrev named : Option String → String → Bool
named none name = true
named (some n) name = same_text n name

abbrev size_of : Option ℕ → ℕ
size_of none = 0
size_of (some n) = n

abbrev new_volume : CreateVolumeRequest → Volume
new_volume r = record {
  id = "11111111-1111-1111-1111-111111111111";
  name = r.name;
  zone = r.zone;
  size = size_of r.size;
  volume_type = r.volume_type;
  state = "available";
  server = none;
}

-- The server `full` has as many volumes as a server can have.
abbrev slots : List String
slots =
    "0" ∷ "1" ∷ "2" ∷ "3" ∷ "4" ∷ "5" ∷ "6" ∷ "7" ∷ "8" ∷ "9" ∷ "10" ∷ "11" ∷ "12" ∷ "13" ∷ "14"
    ∷ "15" ∷ []

abbrev pub server_of : String → Zone → Server
server_of id zone = record {
  id = id;
  zone = zone;
  volumes = if same_text id "full" then map (λ slot. (slot, slot)) slots else [];
}

abbrev volumes_in : Option Volume → Option String → Option String → List Volume
volumes_in none name type = []
volumes_in (some v) name type = if named name v.name && named type v.volume_type then v ∷ [] else []

abbrev volume_in : Option Volume → String → Result ApiError Volume
volume_in none id = err gone
volume_in (some v) id = if same_text id v.id then ok v else err gone

-- A change of the volume of the given id.
abbrev changed : Option Volume → String → (Volume → Volume) → Option Volume
changed none id f = none
changed (some v) id f = if same_text id v.id then some (f v) else some v

abbrev with_server : Option String → Volume → Volume
with_server s v = record v { server = s }

abbrev with_size : ℕ → Volume → Volume
with_size n v = record v { size = n }

abbrev creation : Option Volume → CreateVolumeRequest → Result ApiError Volume × Option Volume
creation none r = (ok (new_volume r), some (new_volume r))
creation (some v) r = (err (other_error "quota exceeded"), some v)

abbrev deletion : Option Volume → String → Result ApiError (Unit {0}) × Option Volume
deletion none id = (err gone, none)
deletion (some v) id = if same_text id v.id then (ok tt, none) else (err gone, some v)

abbrev snapshot_in : Option Snapshot → String → Result ApiError Snapshot
snapshot_in none id = err gone
snapshot_in (some s) id = if same_text id s.id then ok s else err gone

abbrev snapshots_in : Option Snapshot → Option String → List Snapshot
snapshots_in none name = []
snapshots_in (some s) name = if named name s.name then s ∷ [] else []

abbrev answer {ℓ} :
    {A : Type ℓ} → Memory → Result ApiError A × Option Volume → Result ApiError A × Memory
answer w r = (r.0, record w { volume = r.1 })

abbrev new_snapshot : String → String → Zone → Snapshot
new_snapshot volume name zone = record {
  id = "22222222-2222-2222-2222-222222222222";
  name = name;
  zone = zone;
  size = 1000000000;
  state = "snapshotting";
  base_volume = some volume;
  creation_date = some 0;
}

abbrev snapshot_creation :
    Option Snapshot → String → String → Zone → Result ApiError Snapshot × Option Snapshot
snapshot_creation none volume name zone =
    (ok (new_snapshot volume name zone), some (new_snapshot volume name zone))
snapshot_creation (some s) volume name zone = (err (other_error "quota exceeded"), some s)

-- A snapshot is available once it was listed.
abbrev settled : Option Snapshot → Option Snapshot
settled none = none
settled (some s) = some (record s { state = "available" })

abbrev snapshot_answer :
    Memory → Result ApiError Snapshot × Option Snapshot → Result ApiError Snapshot × Memory
snapshot_answer w r = (r.0, record w { snapshot = r.1 })

abbrev pub api : InstanceApi
api = record {
  State = Memory;
  list_volumes = λ name type w. (ok (volumes_in w.volume name type), w);
  create_volume = λ r w. answer w (creation w.volume r);
  get_volume = λ id zone w. (volume_in w.volume id, w);
  delete_volume = λ id zone w. answer w (deletion w.volume id);
  get_server = λ id zone w. (ok (server_of id "fr-par-1"), w);
  update_volume =
      λ id zone n w. answer w (volume_in w.volume id, changed w.volume id (with_size n));
  attach_volume = λ server id zone w.
      answer w (ok (server_of server zone), changed w.volume id (with_server (some server)));
  detach_volume =
      λ id zone w. answer w (ok (server_of "s" zone), changed w.volume id (with_server none));
  wait_for_volume = λ id zone w. (volume_in w.volume id, w);
  get_snapshot = λ id zone w. (snapshot_in w.snapshot id, w);
  list_snapshots = λ name base zone w.
      (ok (snapshots_in (settled w.snapshot) name), record w { snapshot = settled w.snapshot });
  create_snapshot =
      λ volume name zone w. snapshot_answer w (snapshot_creation w.snapshot volume name zone);
  delete_snapshot = λ id zone w. (ok tt, record w { snapshot = none });
  list_volumes_types = λ w. (ok (("b_ssd", some (1000000000, 10000000000000)) ∷ []), w);
}

pub api-IsReadOnly : IsReadOnly api
api-IsReadOnly = record {
  get_volume_state = λ id z w. refl;
  get_server_state = λ id z w. refl;
  list_volumes_state = λ n t w. refl;
  list_types_state = λ w. refl;
}

attach-shows :
    (o : Option Volume) (id : String) (s : Option String) {v : Volume}
    → volume_in o id ≡ ok v
    → volume_in (changed o id (with_server s)) id ≡ ok (record v { server = s })
attach-shows none id s e = ground arith
attach-shows (some v) id s e = ground arith

pub api-IsAttaching : IsAttaching api
api-IsAttaching = record {
  server_named = λ id z w e. cc;
  volume-attach = λ n v z vz w e d. attach-shows w.volume v (some n) e;
  server-attach = λ n v z nz w e d. (server_of n "fr-par-1", refl);
  volume-detach = λ v z vz w e d. attach-shows w.volume v none e;
}

-- A creation that ends well shows in the list.
creation-shows :
    (o : Option Volume) (r : CreateVolumeRequest) {v : Volume}
    → (creation o r).0 ≡ ok v
    → volumes_in ((creation o r).1) (some r.name) (some r.volume_type) ≡ v ∷ []
creation-shows none r e = ground (arith, eq_refl r.name, eq_refl r.volume_type)
creation-shows (some v) r e = absurd (ground arith)

creation-size :
    (o : Option Volume) (r : CreateVolumeRequest) {v : Volume} {n : ℕ}
    → (creation o r).0 ≡ ok v
    → r.size ≡ some n
    → v.size ≡ n
creation-size none r e s = ground arith
creation-size (some v) r e s = absurd (ground arith)

creation-fails :
    (w : Memory) (r : CreateVolumeRequest) {e : ApiError}
    → (answer w (creation w.volume r)).0 ≡ err e
    → (answer w (creation w.volume r)).1 ≡ w
creation-fails w r e = ground arith

pub api-IsCreating : IsCreating api "fr-par-2"
api-IsCreating = record {
  list-create = λ r w _ e _. ap ok (creation-shows w.volume r e);
  size-create = λ r w e s. creation-size w.volume r e s;
  create_failed = λ r w e. creation-fails w r e;
  types-create = λ r w. refl;
}

deletion-gone :
    (o : Option Volume) (id : String) {v : Volume}
    → volume_in o id ≡ ok v
    → (deletion o v.id).0 ≡ ok tt
    → volume_in ((deletion o v.id).1) id ≡ err gone
deletion-gone none id e d = absurd (ground arith)
deletion-gone (some u) id {v} e d = ground (arith, eq_refl u.id)

deletion-missing :
    (w : Memory) (id : String) {text : String}
    → (answer w (deletion w.volume id)).0 ≡ err (resource_not_found text)
    → (answer w (deletion w.volume id)).1 ≡ w
deletion-missing w id e = ground arith

pub api-IsDeleting : IsDeleting api
api-IsDeleting = record {
  get-delete = λ id zone w {v} e d. ("no such resource", deletion-gone w.volume id {v = v} e d);
  delete_missing = λ id zone w e. deletion-missing w id e;
}

created-as :
    (o : Option Snapshot) (volume name : String) (zone : Zone) {s : Snapshot}
    → (snapshot_creation o volume name zone).0 ≡ ok s
    → (s.name ≡ name) × (s.base_volume ≡ some volume)
created-as none volume name zone e = (ground arith, ground arith)
created-as (some x) volume name zone e = absurd (ground arith)

Later-refl : (ss : List Snapshot) → Later ss ss
Later-refl [] = tt
Later-refl (s ∷ ss) = (refl, Later-refl ss)

created-joins :
    (o : Option Snapshot) (volume name : String) (zone : Zone) {s : Snapshot}
    → (snapshot_creation (settled o) volume name zone).0 ≡ ok s
    → snapshots_in (settled ((snapshot_creation (settled o) volume name zone).1)) (some name)
      ≡ record s { state = "available" } ∷ []
created-joins none volume name zone d = ground (arith, eq_refl name)
created-joins (some x) volume name zone d = absurd (ground arith)

relisted :
    (o : Option Snapshot) (name : String) {ss : List Snapshot}
    → ◌≡◌ {A = Result ApiError (List Snapshot)} (ok (snapshots_in (settled o) (some name))) (ok ss)
    → ◌≡◌ {A = Result ApiError (List Snapshot)}
        (ok (snapshots_in (settled (settled o)) (some name)))
        (ok ss)
relisted none name e = e
relisted (some x) name e = e

pub api-IsSnapshotting : IsSnapshotting api
api-IsSnapshotting = record {
  created_as = λ volume name zone w e. created-as w.snapshot volume name zone e;
  list-create_snapshot = λ volume name zone w {s} {ss} e d. (
    [],
    ss,
    [],
    [],
    record s { state = "available" },
    refl,
    tt,
    refl,
    ap ok (created-joins w.snapshot volume name zone d),
  );
  list-list = λ name zone w {ss} e. (ss, Later-refl ss, relisted w.snapshot name e);
}
