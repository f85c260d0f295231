-- ===== src/Auth.antt =====
-- auth.py: the static token authenticator, and the worker id of a service account. The Google
-- verifier runs in the client library, which is not under src/, and is no part of the model.
pub mod Accounts
use Prim.Native.Char.{code}
use outbound_gpu_worker_pool.Base.{
  ℕ, ◌+◌, ◌/◌, ◌%◌, String, Bool, false, not, ◌&&◌, ◌||◌, Option, none, some, List, [], ◌∷◌, ◌++◌,
  ltb, nat_eq, if◌then◌else◌, is_some, length, codes, is_empty, concat, strip_prefix, partition,
  ℤ_eq, ◌==◌, ℕ_eq, String_eq, Option_eq, List_eq, Dict, put,
}
use outbound_gpu_worker_pool.Contracts.{
  ◌>>=◌, ◌>>◌, raise_if, value_error, worker_auth_error, Result, ok, err, WorkerIdentity,
}
use outbound_gpu_worker_pool.Stdlib.{Stdlib}
use outbound_gpu_worker_pool.Regex.{
  fullmatch, times, char, line_end, Regex, empty, class, seq, star,
}
use outbound_gpu_worker_pool.Enrollment.{is_worker_id}

-- `s.encode()`: UTF-8.
abbrev utf8_char : ℕ → List ℕ
utf8_char c =
    if ltb c 128
    then c ∷ []
    else if ltb c 2048
    then (192 + c / 64) ∷ (128 + c % 64) ∷ []
    else if ltb c 65536
    then (224 + c / 4096) ∷ (128 + c / 64 % 64) ∷ (128 + c % 64) ∷ []
    else (240 + c / 262144) ∷ (128 + c / 4096 % 64) ∷ (128 + c / 64 % 64) ∷ (128 + c % 64) ∷ []

unfoldable pub utf8 : List ℕ → List ℕ
utf8 [] = []
utf8 (c ∷ cs) = utf8_char c ++ utf8 cs

-- A credential that is there, and not empty.
abbrev some_credential : Option String → Result String
some_credential none = err (worker_auth_error "missing bearer credential")
some_credential (some c) =
    if is_empty c then err (worker_auth_error "missing bearer credential") else ok c

unfoldable pub bearer_credential : Option String → Result String
unfolding strip_prefix
bearer_credential none = err (worker_auth_error "missing bearer credential")
bearer_credential (some authorization) = some_credential (strip_prefix "Bearer " authorization)

-- The loop of `authenticate`: the last worker whose digest is the credential's.
unfoldable pub matched_worker : String → Dict String → Option String → Option String
matched_worker digest [] matched = matched
matched_worker digest ((worker_id, expected) ∷ tokens) matched =
    matched_worker digest tokens (if digest == expected then some worker_id else matched)

abbrev static_identity : Option String → Result WorkerIdentity
static_identity none = err (worker_auth_error "unknown worker credential")
static_identity (some worker_id) =
    ok (record { worker_id = worker_id; subject = concat "static:" worker_id; method = "static" })

module _ (lib : Stdlib) where
  -- `StaticTokenWorkerAuthenticator.authenticate`
  unfoldable pub authenticate_static : Dict String → Option String → Result WorkerIdentity
  unfolding bearer_credential matched_worker utf8
  authenticate_static tokens authorization = do
    credential ← bearer_credential authorization
    static_identity (matched_worker (lib.sha256_hex (utf8 (codes credential))) tokens none)

-- `[0-9a-f]{64}`, and the newline that `match` lets pass at its end.
abbrev sha256_hex_pattern : Regex
sha256_hex_pattern = times 64 (class ((b'0', b'9') ∷ (b'a', b'f') ∷ []))

unfoldable pub is_sha256_hex : String → Bool
unfolding fullmatch
is_sha256_hex s = fullmatch (seq sha256_hex_pattern line_end) (codes s)

abbrev text_or_empty : Option String → String
text_or_empty none = ""
text_or_empty (some s) = s

-- `value.split(",")`
unfoldable pub split_commas : String → List String
split_commas String.[] = "" ∷ []
split_commas (String.◌∷◌ c s) = elim (split_commas s) [
  | [] ↦ "" ∷ []
  | t ∷ ts ↦ if nat_eq (code c) 44 then "" ∷ t ∷ ts else (String.◌∷◌ c t) ∷ ts
]

module _ (lib : Stdlib) where
  -- One entry of the environment value.
  unfoldable pub read_token : String → Dict String → Result (Dict String)
  unfolding partition is_sha256_hex
  read_token entry tokens =
      let (worker_id, digest) = partition 58 (lib.strip entry) in
      if is_empty worker_id && not (is_some digest)
      then ok tokens
      else if is_empty worker_id || not (is_sha256_hex (text_or_empty digest))
      then err (value_error "worker tokens must be worker-id:<sha256 hex> pairs")
      else ok (put worker_id (text_or_empty digest) tokens)

  unfoldable pub read_tokens : List String → Dict String → Result (Dict String)
  unfolding read_token
  read_tokens [] tokens = ok tokens
  read_tokens (e ∷ es) tokens = read_token e tokens >>= read_tokens es

  -- `StaticTokenWorkerAuthenticator.from_env_value`
  unfoldable pub tokens_from_env : String → Result (Dict String)
  unfolding read_tokens split_commas
  tokens_from_env value = do
    tokens ← read_tokens (split_commas value) []
    raise_if (nat_eq (length tokens) 0)
        (value_error "worker tokens must enroll at least one worker")
    ok tokens

-- `[a-z][a-z0-9-]*\.iam\.gserviceaccount\.com`
abbrev pub literal : List ℕ → Regex
literal [] = empty
literal (c ∷ cs) = seq (char c) (literal cs)

abbrev pub account_domain_pattern : Regex
account_domain_pattern = seq (class ((b'a', b'z') ∷ [])) (
    seq (star (class ((b'a', b'z') ∷ (b'0', b'9') ∷ (b'-', b'-') ∷ [])))
      (literal (codes ".iam.gserviceaccount.com")))

abbrev pub account_worker : Option String → Result String
account_worker none = err (worker_auth_error "identity subject is not a worker account")
account_worker (some worker_id) =
    if is_worker_id worker_id
    then ok worker_id
    else err (worker_auth_error "identity subject does not name a valid worker id")

abbrev is_account_domain : Option String → Bool
is_account_domain none = false
is_account_domain (some domain) = fullmatch account_domain_pattern (codes domain)

unfoldable pub worker_id_from_account : String → String → Result String
unfolding partition strip_prefix is_worker_id fullmatch
worker_id_from_account email p =
    let (local_part, domain) = partition 64 email in
    if is_account_domain domain
    then account_worker (strip_prefix p local_part)
    else err (worker_auth_error "identity subject is not a worker account")
