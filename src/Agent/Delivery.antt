-- ===== src/Agent/Delivery.antt =====
-- The inputs that a plugin finds in the workspace.
use outbound_gpu_worker_pool.Base.{
  ℕ, ◌≤◌, String, ◌≡◌, refl, sym, ap, ◌∙◌, subst, ◌≢◌, inl, inr, Option, none, some, List, [], ◌∷◌,
  arith, eq_iff, ltb, Bool-cases, All, Dict, get, put, get-put, get-put_self, get-put_ne,
}
use outbound_gpu_worker_pool.Contracts.{
  Result-cases, Error, Result, ok, err, AssetGrant, LeaseGrant,
}
use outbound_gpu_worker_pool.Plugins.{Files}
use outbound_gpu_worker_pool.Agent.{Host, AgentState}
use outbound_gpu_worker_pool.Agent.Inputs.{
  destination, names_file, remove, files_of, with_file, download_grants, download_inputs,
}

err≢ok : {A : Type 0} (e : Error) (x : A) → ◌≡◌ {A = Result A} (err e) (ok x) → ⊥
err≢ok e x p = cc

module _ (h : Host) where
  -- What the transfer does for a grant, under the agent's bound.
  abbrev pub fetched : AssetGrant → Result ℕ × Option (List ℕ)
  unfolding names_file
  fetched g = h.transfer.download g.url (names_file g.key) (some h.max_input_bytes)

  -- The grant's key leads to what the transfer left for its URL, and no more bytes were written than
  -- the agent's bound.
  abbrev pub IsDelivered : Dict String → Files → AssetGrant → Type 0
  IsDelivered paths files g =
      (get g.key paths ≡ some (destination g.key))
      × (get (destination g.key) files ≡ (fetched g).1)
      × ((n : ℕ) × ((fetched g).0 ≡ ok n) × (n ≤ h.max_input_bytes))

  -- No grant writes to the path.
  abbrev Spares : String → List AssetGrant → Type 0
  Spares path [] = Unit
  Spares path (g ∷ gs) = (destination g.key ≢ path) × Spares path gs

  -- Every two grants write to two paths.
  abbrev pub WritesApart : List AssetGrant → Type 0
  WritesApart [] = Unit
  WritesApart (g ∷ gs) = Spares (destination g.key) gs × WritesApart gs

  abbrev stored : AssetGrant → Files → Files
  stored g files = with_file (destination g.key) (fetched g).1 files

  -- The steps that the first grant of a list that downloads has taken.
  download_grants-cons :
      (g : AssetGrant) (gs : List AssetGrant) (files : Files) (paths last : Dict String)
      → (download_grants h (g ∷ gs) files paths).0 ≡ ok last
      → ((n : ℕ) × ((fetched g).0 ≡ ok n) × (n ≤ h.max_input_bytes))
        × (download_grants h (g ∷ gs) files paths
            ≡ download_grants h gs (stored g files) (put g.key (destination g.key) paths))
  unfolding download_grants
  download_grants-cons g gs files paths last returned = elim (Result-cases (fetched g).0) [
    | inr (e, raised) ↦ absurd (err≢ok _ _ (rw (download_grants, raised) at returned))
    | inl (n, given) ↦ elim (Bool-cases (ltb h.max_input_bytes n)) [
      | inl big ↦ absurd (err≢ok _ _ (rw (download_grants, given, big) at returned))
      | inr fits ↦ ((n, given, ground (arith, fits)), rw (download_grants, given, fits) refl)
    ]
  ]

  with_file-ne :
      (path other : String) (left : Option (List ℕ)) (files : Files)
      → path ≢ other
      → get other (with_file path left files) ≡ get other files
  with_file-ne path other none files differ = refl
  with_file-ne path other (some b) files differ = get-put_ne path other b files differ

  -- The later grants leave a file alone that they do not write to.
  download_grants-file :
      (gs : List AssetGrant) (files : Files) (paths last : Dict String) (path : String)
      → (download_grants h gs files paths).0 ≡ ok last
      → Spares path gs
      → get path (download_grants h gs files paths).1 ≡ get path files
  unfolding download_grants
  download_grants-file [] files paths last path returned spares = refl
  download_grants-file (g ∷ gs) files paths last path returned spares =
      let step = download_grants-cons g gs files paths last returned in
      ap (λ (x : Result (Dict String) × Files). get path x.1) step.1
      ∙ download_grants-file gs (stored g files) (put g.key (destination g.key) paths) last path
          (ap (λ (x : Result (Dict String) × Files). x.0) (sym step.1) ∙ returned) spares.1
      ∙ with_file-ne (destination g.key) path (fetched g).1 files spares.0

  abbrev Leads : String → Result (Dict String) → Type 0
  Leads key (err e) = Unit
  Leads key (ok paths) = get key paths ≡ some (destination key)

  -- They lead a key to its destination, if they lead it elsewhere than before.
  download_grants-path :
      (gs : List AssetGrant) (files : Files) (paths last : Dict String) (key : String)
      → (download_grants h gs files paths).0 ≡ ok last
      → get key paths ≡ some (destination key)
      → get key last ≡ some (destination key)
  unfolding download_grants
  download_grants-path [] files paths last key returned leads = subst (Leads key) returned leads
  download_grants-path (g ∷ gs) files paths last key returned leads =
      let step = download_grants-cons g gs files paths last returned in
      download_grants-path gs (stored g files) (put g.key (destination g.key) paths) last key
        (ap (λ (x : Result (Dict String) × Files). x.0) (sym step.1) ∙ returned)
        (ground (arith, get-put g.key key (destination g.key) paths, eq_iff g.key key, leads))

  with_file_self :
      (path : String) (left : Option (List ℕ)) (files : Files)
      → get path files ≡ none
      → get path (with_file path left files) ≡ left
  with_file_self path none files fresh = fresh
  with_file_self path (some b) files fresh = get-put_self path b files

  abbrev Fresh : Files → List AssetGrant → Type 0
  Fresh files gs = All (λ (g : AssetGrant). get (destination g.key) files ≡ none) gs

  still-Fresh :
      (path : String) (left : Option (List ℕ)) (files : Files) (gs : List AssetGrant)
      → Spares path gs
      → Fresh files gs
      → Fresh (with_file path left files) gs
  still-Fresh path left files [] spares fresh = tt
  still-Fresh path left files (g ∷ gs) spares fresh = (
    with_file-ne path (destination g.key) left files (λ same. spares.0 (sym same)) ∙ fresh.0,
    still-Fresh path left files gs spares.1 fresh.1,
  )

  empty-Fresh : (gs : List AssetGrant) → Fresh [] gs
  unfolding get
  empty-Fresh [] = tt
  empty-Fresh (g ∷ gs) = (refl, empty-Fresh gs)

  download_grants-Delivered :
      (gs : List AssetGrant) (files : Files) (paths last : Dict String)
      → (download_grants h gs files paths).0 ≡ ok last
      → WritesApart gs
      → Fresh files gs
      → All (IsDelivered last (download_grants h gs files paths).1) gs
  unfolding download_grants
  download_grants-Delivered [] files paths last returned apart fresh = tt
  download_grants-Delivered (g ∷ gs) files paths last returned apart fresh =
      let step = download_grants-cons g gs files paths last returned in
      let returned1 = ap (λ (x : Result (Dict String) × Files). x.0) (sym step.1) ∙ returned in
      (
        (
          download_grants-path gs (stored g files) (put g.key (destination g.key) paths) last g.key
              returned1 (get-put_self g.key (destination g.key) paths),
          ap (λ (x : Result (Dict String) × Files). get (destination g.key) x.1) step.1
              ∙ download_grants-file gs (stored g files) (put g.key (destination g.key) paths) last
                  (destination g.key) returned1 apart.0
              ∙ with_file_self (destination g.key) (fetched g).1 files fresh.0,
          step.0,
        ),
        subst (λ (x : Result (Dict String) × Files). All (IsDelivered last x.1) gs) (sym step.1)
            (download_grants-Delivered gs (stored g files) (put g.key (destination g.key) paths)
              last returned1 apart.1
              (still-Fresh (destination g.key) (fetched g).1 files gs apart.0 fresh.1)),
      )

  files_of-put : (k : String) (files : Files) (d : Dict Files) → files_of k (put k files d) ≡ files
  files_of-put k files d = ap value (get-put_self k files d)
    where
      value : Option Files → Files
      value none = []
      value (some x) = x

  -- Where the inputs of a lease are downloaded, and no two of its keys have the same last part, each
  -- key leads the plugin to a file of the job's workspace with what the transfer left for that key's
  -- URL, and for each the transfer wrote no more bytes than the agent's bound.
  pub download_inputs-Delivered :
      (lease : LeaseGrant) (a : AgentState) (paths : Dict String)
      → (download_inputs h lease a).0 ≡ ok paths
      → WritesApart lease.input_grants
      → All
          (IsDelivered paths (files_of lease.job_id (download_inputs h lease a).1.workspaces))
          lease.input_grants
  unfolding download_inputs
  download_inputs-Delivered lease a paths returned apart =
      subst (λ files. All (IsDelivered paths files) lease.input_grants)
        (sym (files_of-put lease.job_id _ (remove lease.job_id a.workspaces)))
        (download_grants-Delivered lease.input_grants [] [] paths returned apart
          (empty-Fresh lease.input_grants))
