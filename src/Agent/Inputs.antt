-- ===== src/Agent/Inputs.antt =====
-- The files of the agent: `HttpAssetTransfer`, `_download_inputs` and `_digest_file`.
use outbound_gpu_worker_pool.Base.{
  ℕ, zero, suc, ◌+◌, ◌/◌, String, Bool, false, not, ◌||◌, Option, none, some, List, [], ◌∷◌, ◌++◌,
  ltb, nat_eq, if◌then◌else◌, length, is_empty, concat, split, ℤ_eq, ◌==◌, ℕ_eq, String_eq,
  Option_eq, List_eq, Dict, get, put,
}
use outbound_gpu_worker_pool.Contracts.{
  Error, transfer_error, foreign_error, Result, ok, err, AssetGrant, LeaseGrant,
}
use outbound_gpu_worker_pool.Stdlib.{Stdlib}
use outbound_gpu_worker_pool.Plugins.{Files}
use outbound_gpu_worker_pool.Agent.{Task, Transfer, Host}

abbrev pub create_once_conflict_status : ℕ
create_once_conflict_status = 412

abbrev pub digest_chunk_bytes : ℕ
digest_chunk_bytes = 1048576

abbrev pub inputs_directory : String
inputs_directory = "inputs"

-- A streamed response: its status, its chunks, and what ends it early.
pub record Stream : Type 0 where
  pub status_code : ℕ
  pub chunks : List (List ℕ)
  pub broken : Option Error

-- `httpx.AsyncClient`, for signed URLs.
pub record Client : Type 0 where
  pub stream : String → Result Stream
  pub put_object : String → List ℕ → String → Result ℕ

abbrev passes : Option ℕ → ℕ → Bool
passes none n = false
passes (some max_bytes) n = ltb max_bytes n

abbrev ended : Option Error → ℕ → Result ℕ
ended none written = ok written
ended (some e) written = err e

-- The loop on the chunks, with what is written so far.
unfoldable pub write_chunks :
    Option Error → Option ℕ → List (List ℕ) → ℕ → List ℕ → Result ℕ × Option (List ℕ)
write_chunks broken max_bytes [] written file = (ended broken written, some file)
write_chunks broken max_bytes (c ∷ cs) written file =
    let rest = write_chunks broken max_bytes cs (written + length c) (file ++ c) in
    if passes max_bytes (written + length c)
    then (err (transfer_error "asset download passed the byte input bound"), some file)
    else rest

abbrev pub stream_file : Stream → Bool → Option ℕ → Result ℕ × Option (List ℕ)
stream_file s opens max_bytes =
    if not (nat_eq (s.status_code / 100) 2)
    then (err (transfer_error "asset download failed with a status"), none)
    else if opens
    then write_chunks s.broken max_bytes s.chunks 0 []
    else (err (foreign_error "IsADirectoryError"), none)

unfoldable pub http_download : Client → String → Bool → Option ℕ → Result ℕ × Option (List ℕ)
unfolding write_chunks
http_download c url opens max_bytes = elim (c.stream url) [
  | err e ↦ (err e, none)
  | ok s ↦ stream_file s opens max_bytes
]

abbrev upload_status : ℕ → Result (Unit {0})
upload_status status =
    if nat_eq status create_once_conflict_status
    then ok tt
    else if nat_eq (status / 100) 2
    then ok tt
    else err (transfer_error "asset upload failed with a status")

-- A create-once conflict is a replay, and no error.
unfoldable pub http_upload : Client → String → List ℕ → String → Result (Unit {0})
http_upload c url bytes content_type = elim (c.put_object url bytes content_type) [
  | err e ↦ err e
  | ok status ↦ upload_status status
]

unfoldable pub http_transfer : Client → Transfer
unfolding http_download http_upload
http_transfer c = record { download = http_download c; upload = http_upload c }

-- `f.read(n)`, and what is left to read.
abbrev pub take : ℕ → List ℕ → List ℕ
take zero bs = []
take (suc n) [] = []
take (suc n) (b ∷ bs) = b ∷ take n bs

abbrev pub drop : ℕ → List ℕ → List ℕ
drop zero bs = bs
drop (suc n) [] = []
drop (suc n) (b ∷ bs) = drop n bs

-- The loop of `_digest_file`: the bytes that the digest has taken, and their number. A round reads
-- a byte at least, so as many rounds as the file has bytes are enough.
unfoldable pub digest_loop : ℕ → ℕ → List ℕ → List ℕ → ℕ → List ℕ × ℕ
digest_loop zero size rest hashed count = (hashed, count)
digest_loop (suc rounds) size rest hashed count =
    let chunk = take size rest in
    let more = digest_loop rounds size (drop size rest) (hashed ++ chunk) (count + length chunk) in
    if nat_eq (length chunk) 0 then (hashed, count) else more

unfoldable pub digest_file : Stdlib → List ℕ → String × ℕ
unfolding digest_loop
digest_file lib file =
    let (hashed, count) = digest_loop (length file) digest_chunk_bytes file [] 0 in
    (lib.sha256_hex hashed, count)

-- `PurePosixPath(key).name`: the last part of the path that is neither empty nor ".".
abbrev last_part : String → List String → String
last_part last [] = last
last_part last (s ∷ ss) = last_part (if is_empty s || s == "." then last else s) ss

unfoldable pub base_name : String → String
unfolding split
base_name key = last_part "" (split b'/' key)

unfoldable pub destination : String → String
unfolding base_name
destination key = concat inputs_directory (concat "/" (base_name key))

-- A file's name, where the last part is no directory.
unfoldable pub names_file : String → Bool
unfolding base_name
names_file key = not (is_empty (base_name key) || base_name key == "..")

-- `shutil.rmtree(workspace, ignore_errors=True)`
unfoldable pub remove : {A : Type 0} → String → Dict A → Dict A
remove k [] = []
remove k ((j, v) ∷ d) = let rest = remove k d in if j == k then rest else (j, v) ∷ rest

abbrev pub files_of : String → Dict Files → Files
files_of job_id d = elim (get job_id d) [ none ↦ [] | some files ↦ files ]

abbrev pub with_file : String → Option (List ℕ) → Files → Files
with_file path none files = files
with_file path (some b) files = put path b files

abbrev pub input_bound : ℕ → ℕ → Result (Unit {0})
input_bound maximum written =
    if ltb maximum written then err (transfer_error "an input passed the byte bound") else ok tt

module _ (h : Host) where
  -- The files, and the paths by key, that one grant after another adds.
  unfoldable pub download_grants :
      List AssetGrant → Files → Dict String → Result (Dict String) × Files
  unfolding destination names_file
  download_grants [] files paths = (ok paths, files)
  download_grants (g ∷ gs) files paths =
      let (r, file) = h.transfer.download g.url (names_file g.key) (some h.max_input_bytes) in
      let files1 = with_file (destination g.key) file files in
      elim r [
        | err e ↦ (err e, files1)
        | ok written ↦ elim (input_bound h.max_input_bytes written) [
          | err e ↦ (err e, files1)
          | ok _ ↦ download_grants gs files1 (put g.key (destination g.key) paths)
        ]
      ]

  unfoldable pub download_inputs : LeaseGrant → Task (Dict String)
  unfolding download_grants remove
  download_inputs lease a =
      let (r, files) = download_grants lease.input_grants [] [] in
      (r, record a { workspaces = put lease.job_id files (remove lease.job_id a.workspaces) })
