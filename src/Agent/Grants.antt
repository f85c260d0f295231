-- ===== src/Agent/Grants.antt =====
-- `_lease_grant` and `_asset_grant`: what the agent reads from the JSON of a response. A value of a
-- type that the coordinator does not send, which Python would carry on, raises a `TypeError` here.
use outbound_gpu_worker_pool.Contracts.{
  ◌>>=◌, Error, value_error, type_error, foreign_error, Result, ok, err, field_get, Value, null,
  int, str, list, dict, Items, nil, cons, Fields, texts?, or_raise, AssetGrant, LeaseGrant,
}
use outbound_gpu_worker_pool.Stdlib.{Stdlib}
use outbound_gpu_worker_pool.Base.{ℕ, String, Option, none, some, List, [], ◌∷◌, ℤ}
use outbound_gpu_worker_pool.Agent.{json_body, no_json, Body}

-- `payload[key]`
abbrev pub key_at : String → Fields → Result Value
unfolding field_get
key_at key fs = or_raise (field_get key fs) (foreign_error "KeyError")

abbrev wrong_type : Error
wrong_type = type_error "value of another type"

abbrev pub text_of : Value → Result String
text_of (str s) = ok s
text_of _ = err wrong_type

abbrev pub optional_text_of : Value → Result (Option String)
optional_text_of null = ok none
optional_text_of (str s) = ok (some s)
optional_text_of _ = err wrong_type

abbrev pub int_of : Value → Result ℤ
int_of (int n) = ok n
int_of _ = err wrong_type

abbrev pub dict_of : Value → Result Fields
dict_of (dict fs) = ok fs
dict_of _ = err wrong_type

-- `tuple(v)`
abbrev pub items_of : Value → Result Items
items_of (list xs) = ok xs
items_of _ = err wrong_type

abbrev pub texts_of : Value → Result (List String)
texts_of v = items_of v >>= λ xs. or_raise (texts? xs) wrong_type

module _ (lib : Stdlib) where
  abbrev pub date_of : Value → Result ℕ
  date_of (str s) = or_raise (lib.datetime_of s) (value_error "Invalid isoformat string")
  date_of _ = err wrong_type

  unfoldable pub asset_grant : Value → Result AssetGrant
  asset_grant v = do
    payload ← dict_of v
    key ← key_at "key" payload >>= text_of
    url ← key_at "url" payload >>= text_of
    method ← key_at "method" payload >>= text_of
    expires_at ← key_at "expires_at" payload >>= date_of
    content_type ← key_at "content_type" payload >>= optional_text_of
    ok (record {
      key = key;
      url = url;
      method = method;
      expires_at = expires_at;
      content_type = content_type;
    })

  unfoldable pub asset_grants : Items → Result (List AssetGrant)
  unfolding asset_grant
  asset_grants nil = ok []
  asset_grants (cons v xs) = do g ← asset_grant v; gs ← asset_grants xs; ok (g ∷ gs)

  -- The tenant is left at its default.
  unfoldable pub lease_grant : Value → Result LeaseGrant
  unfolding asset_grant asset_grants
  lease_grant v = do
    payload ← dict_of v
    job_id ← key_at "job_id" payload >>= text_of
    claim_token ← key_at "claim_token" payload >>= text_of
    lease_until ← key_at "lease_until" payload >>= date_of
    deadline ← key_at "execution_deadline_seconds" payload >>= int_of
    capability_id ← key_at "capability_id" payload >>= text_of
    contract_version ← key_at "contract_version" payload >>= int_of
    request_digest ← key_at "request_digest" payload >>= text_of
    idempotency_key ← key_at "idempotency_key" payload >>= text_of
    input_keys ← key_at "input_keys" payload >>= texts_of
    output_key ← key_at "output_key" payload >>= text_of
    job_payload ← key_at "payload" payload >>= dict_of
    input_grants ← key_at "input_grants" payload >>= items_of >>= asset_grants
    output_grant ← key_at "output_grant" payload >>= asset_grant
    ok (record {
      job_id = job_id;
      claim_token = claim_token;
      lease_until = lease_until;
      execution_deadline_seconds = deadline;
      capability_id = capability_id;
      contract_version = contract_version;
      request_digest = request_digest;
      idempotency_key = idempotency_key;
      input_keys = input_keys;
      output_key = output_key;
      payload = job_payload;
      input_grants = input_grants;
      output_grant = output_grant;
      tenant_id = none;
    })

  -- `_lease_grant(response.json())`
  unfoldable pub read_lease : Body → Result LeaseGrant
  unfolding lease_grant
  read_lease (json_body v) = lease_grant v
  read_lease no_json = err (value_error "response is no JSON")
