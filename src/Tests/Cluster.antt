-- ===== src/Tests/Cluster.antt =====
-- A small API server: claims, volumes and pools in lists, the newest first, and jobs that always
-- exist. It serves as an instance of the parameter that the theorems take.
use pvpool.Prelude.{
  ℕ, String, Bool, true, false, not, ◌&&◌, Option, none, some, is_some, List, [], ◌∷◌, ◌==◌,
  if◌then◌else◌, ltb,
}
use pvpool.Exec.{Outcome, ok, err, Exec}
use pvpool.Api.Core.{
  Key, OwnerReference, empty_meta, LabelSelector, ClaimPhase, Pvc, Pv, Job, RestartPolicy,
}
use pvpool.Api.Resources.{Pool}
use pvpool.Kube.{Kube, Event}

pub record Cluster : Type 0 where
  pub claims : List Pvc
  pub volumes : List Pv
  pub pools : List Pool
  pub events : List Event

abbrev pub is_key : Key → Key → Bool
is_key a b = a.namespace == b.namespace && a.name == b.name

abbrev pub find : {A : Type 0} → (A → Bool) → List A → Option A
find p [] = none
find p (x ∷ l) = if p x then some x else find p l

abbrev pub remove : {A : Type 0} → (A → Bool) → List A → List A
remove p [] = []
remove p (x ∷ l) = if p x then remove p l else x ∷ remove p l

-- What a Load makes of the object that it looked for.
abbrev pub found_or : {A : Type 0} → Option A → Cluster × A → Outcome String Bool × (Cluster × A)
found_or none s = (ok false, s)
found_or (some a) s = (ok true, (s.0, a))

abbrev pub missing_or : {A : Type 0} → Option A → Cluster × A → Outcome String Bool × (Cluster × A)
missing_or none s = (err "missing", s)
missing_or (some a) s = (ok true, (s.0, a))

abbrev pub find_pool : Key → Cluster → Option Pool
find_pool key w = find (λ p. is_key p.key key) w.pools

abbrev pub blank_pvc : Key → Pvc
blank_pvc key = record {
  key = key;
  metadata = empty_meta;
  spec = record {
    storage_class_name = none;
    selector = none;
    volume_name = "";
    access_modes = [];
    requests = [];
    rest = [];
  };
  phase = ClaimPhase.unset;
}

abbrev pub blank_pv : String → Pv
blank_pv name = record {
  name = name;
  metadata = empty_meta;
  spec = record {
    storage_class_name = "";
    access_modes = [];
    claim_ref = none;
    reclaim_policy = "";
    csi = none;
    capacity = [];
    rest = [];
  };
}

abbrev pub blank_job : Key → Job
blank_job key = record {
  key = key;
  metadata = empty_meta;
  spec = record {
    active_deadline_seconds = none;
    backoff_limit = none;
    pod = record { restart_policy = RestartPolicy.unset; volumes = []; containers = []; rest = [] };
    rest = [];
  };
  conditions = [];
}

-- Insertion into a sorted list.
abbrev pub insert : {A : Type 0} → (A → A → Bool) → A → List A → List A
insert less x [] = x ∷ []
insert less x (y ∷ l) = if less y x then y ∷ insert less x l else x ∷ y ∷ l

abbrev pub sort : {A : Type 0} → (A → A → Bool) → List A → List A
sort less [] = []
sort less (x ∷ l) = insert less x (sort less l)

abbrev first_owner : List OwnerReference → Option OwnerReference
first_owner [] = none
first_owner (o ∷ _) = some o

-- The draw is the generator itself, where that is in range.
abbrev pub draw : ℕ → ℕ → ℕ
draw r n = if ltb r n then r else 0

abbrev keys_of : String → List Pvc → List Key
keys_of namespace [] = []
keys_of namespace (c ∷ l) =
    if c.key.namespace == namespace then c.key ∷ keys_of namespace l else keys_of namespace l

-- The server finds only volumes that a claim holds.
abbrev pub is_claimed : String → Pv → Bool
is_claimed name v = v.name == name && is_some v.spec.claim_ref

abbrev pub controlled_by : String → Pvc → Pvc
controlled_by uid c = record c {
  metadata = record (c.metadata) {
    owners = record { uid = uid; controller = true } ∷ c.metadata.owners;
  };
}

abbrev same : {A : Type 0} → Exec String (Cluster × A) (Unit {0})
same s = (ok tt, s)

abbrev pub toy : Kube
toy = record {
  World = Cluster;
  Error = String;
  Rng = ℕ;
  Selector = LabelSelector;
  is_invalid = λ e. e == "invalid";
  mark_user = λ e. e;
  mark_transient = λ e. e;
  sprintf = λ format _. format;
  errorf = λ format _. format;
  new_pvc = blank_pvc;
  new_pv = blank_pv;
  new_job = blank_job;
  load_pvc = λ s. found_or (find (λ c. is_key c.key s.1.key) s.0.claims) s;
  persist_pvc = λ s. (ok tt, (record s.0 { claims = s.1 ∷ s.0.claims }, s.1));
  delete_pvc = λ _ s.
      (ok true, (record s.0 { claims = remove (λ c. is_key c.key s.1.key) s.0.claims }, s.1));
  load_pv = λ s. found_or (find (is_claimed s.1.name) s.0.volumes) s;
  persist_pv = λ s. (ok tt, (record s.0 { volumes = s.1 ∷ s.0.volumes }, s.1));
  delete_pv = λ _ s.
      (ok true, (record s.0 { volumes = remove (λ v. v.name == s.1.name) s.0.volumes }, s.1));
  load_job = λ s. (ok true, s);
  delete_job = λ _ s. (ok true, s);
  persist_owned = same;
  load_pool = λ s. found_or (find_pool s.1.key s.0) s;
  require_pool = λ s. missing_or (find_pool s.1.key s.0) s;
  pool_owns = λ _. same;
  update_pool_status = same;
  finalizing = λ _. false;
  load_checkout = λ s. (ok true, s);
  checkout_owns = λ c s. (ok tt, (s.0, controlled_by c.metadata.uid s.1));
  update_checkout_status = same;
  finalize = λ _ _ s. (ok false, s);
  list_pvcs = λ namespace _ w. (ok (keys_of namespace w.claims), w);
  as_selector = λ s. ok s;
  controller_of = λ m. first_owner m.owners;
  exists_object = λ m. not (m.uid == "");
  annotate = λ m key v. record m { annotations = (key, v) ∷ m.annotations };
  copy_labels_and_annotations = λ m _. m;
  label_annotate_pvc = λ _ c. c;
  label_annotate_job = λ _ j. j;
  set_dependency_of = λ _. same;
  meta_name_suffixed = λ _ suffix. suffix;
  failed = λ j. j.key.name == "failed";
  succeeded = λ j. j.key.name == "succeeded";
  failed_condition = λ _. none;
  storage_of = λ _. "1Gi";
  pvc_api_version = "v1";
  pvc_kind = "PersistentVolumeClaim";
  new_rng = λ w. (ok 1, w);
  uint64_n = λ r n w. (ok (draw r n), w);
  new_id = λ w. (ok "id", w);
  now = λ _. 7;
  sort_replicas = sort;
  record_event = λ e w. record w { events = e ∷ w.events };
}
