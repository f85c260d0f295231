-- ===== src/Assets.antt =====
-- `MemoryAssetStore`, `MemoryAssetTransfer` and `MemoryWorkerAuthenticator` of memory.py. A file of
-- the worker's workspace is its bytes.
pub mod Publishing
use outbound_gpu_worker_pool.Base.{
  ℕ, ◌+◌, String, Bool, true, false, not, ◌||◌, Option, none, some, List, [], ◌∷◌, ◌++◌, ltb,
  if◌then◌else◌, is_some, length, concat, strip_prefix, Dict, get, put,
}
use outbound_gpu_worker_pool.Contracts.{
  ◌>>=◌, ◌>>◌, raise_if, value_error, worker_auth_error, asset_not_found, asset_too_large,
  transfer_error, Result, ok, err, WorkerIdentity, AssetDescriptor,
}

abbrev default_asset_content_type : String
default_asset_content_type = "application/octet-stream"

abbrev pub memory_read_prefix : String
memory_read_prefix = "memory://read/"

abbrev pub memory_upload_prefix : String
memory_upload_prefix = "memory://upload/"

pub record AssetStore : Type 0 where
  pub assets : Dict (List ℕ)
  pub content_types : Dict String
  pub publish_count : ℕ
  pub allowed_read_prefixes : List String
  pub allowed_output_prefixes : List String

-- `key.startswith(prefixes)`
unfoldable pub has_prefix : String → List String → Bool
has_prefix key [] = false
has_prefix key (p ∷ ps) = is_some (strip_prefix p key) || has_prefix key ps

abbrev comma_separated : List String → String
comma_separated [] = ""
comma_separated (p ∷ []) = p
comma_separated (p ∷ q ∷ ps) = concat p (concat ", " (comma_separated (q ∷ ps)))

unfoldable pub require_prefix : String → List String → String → Result (Unit {0})
unfolding has_prefix
require_prefix key prefixes grant = raise_if (not (has_prefix key prefixes)) (
    value_error (
      concat "signed "
        (concat grant (concat " key must be in one of: " (comma_separated prefixes)))))

unfoldable pub create_read_url : String → AssetStore → Result String
unfolding require_prefix
create_read_url key st = do
  require_prefix key st.allowed_read_prefixes "read"
  raise_if (not (is_some (get key st.assets))) (asset_not_found key)
  ok (concat memory_read_prefix key)

unfoldable pub create_output_upload_url : String → AssetStore → Result String
unfolding require_prefix
create_output_upload_url key st = do
  require_prefix key st.allowed_output_prefixes "output upload"
  ok (concat memory_upload_prefix key)

abbrev or_text : Option String → String → String
or_text none d = d
or_text (some s) d = s

unfoldable pub describe : String → AssetStore → Option AssetDescriptor
describe key st = elim (get key st.assets) [
  | none ↦ none
  | some content ↦ some (record {
    key = key;
    size = length content;
    content_type = some (or_text (get key st.content_types) default_asset_content_type);
  })
]

unfoldable pub read : String → AssetStore → Result (List ℕ)
read key st = elim (get key st.assets) [ none ↦ err (asset_not_found key) | some b ↦ ok b ]

unfoldable pub read_limited : String → ℕ → AssetStore → Result (List ℕ)
unfolding read
read_limited key max_bytes st = do
  content ← read key st
  raise_if (ltb max_bytes (length content)) (asset_too_large key max_bytes (some (length content)))
  ok content

unfoldable pub write_once : String → List ℕ → String → AssetStore → Bool × AssetStore
write_once key content content_type st = if is_some (get key st.assets) then (false, st) else (
  true,
  record st {
    assets = put key content st.assets;
    content_types = put key content_type st.content_types;
    publish_count = st.publish_count + 1;
  },
)

pub record AssetTransfer : Type 0 where
  pub store : AssetStore
  pub downloads : List String
  pub uploads : List String

unfoldable pub grant_key : String → String → Result String
grant_key url p = elim (strip_prefix p url) [
  | none ↦ err (transfer_error "asset grant is not addressable in memory")
  | some key ↦ ok key
]

abbrev downloaded : String → AssetTransfer → Result (List ℕ) → Result (List ℕ × ℕ) × AssetTransfer
downloaded key t (err e) = (err e, t)
downloaded key t (ok b) = (ok (b, length b), record t { downloads = t.downloads ++ key ∷ [] })

-- The bytes that land in the workspace, and their number.
unfoldable pub download : String → AssetTransfer → Result (List ℕ × ℕ) × AssetTransfer
unfolding grant_key read
download url t = elim (grant_key url memory_read_prefix) [
  | err e ↦ (err e, t)
  | ok key ↦ downloaded key t (read key t.store)
]

unfoldable pub upload : String → List ℕ → String → AssetTransfer → Result (Unit {0}) × AssetTransfer
unfolding grant_key write_once
upload url source content_type t = elim (grant_key url memory_upload_prefix) [
  | err e ↦ (err e, t)
  | ok key ↦ (
    ok tt,
    record t {
      store = (write_once key source content_type t.store).1;
      uploads = t.uploads ++ key ∷ [];
    },
  )
]

abbrev known_identity : Option WorkerIdentity → Result WorkerIdentity
known_identity none = err (worker_auth_error "unknown worker credential")
known_identity (some i) = ok i

-- `MemoryWorkerAuthenticator.authenticate`
unfoldable pub authenticate_memory : Dict WorkerIdentity → Option String → Result WorkerIdentity
authenticate_memory identities none = err (worker_auth_error "missing bearer credential")
authenticate_memory identities (some authorization) = elim (strip_prefix "Bearer " authorization) [
  | none ↦ err (worker_auth_error "missing bearer credential")
  | some credential ↦ known_identity (get credential identities)
]
