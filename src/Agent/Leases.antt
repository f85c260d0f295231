-- ===== src/Agent/Leases.antt =====
-- The lease that goes from the service to the agent, as the JSON of a response. FastAPI, which is not
-- part of the program, writes that JSON: its documented behaviour is a hypothesis.
use outbound_gpu_worker_pool.Base.{ℕ, String, ◌≡◌, refl, Option, none, some, List, [], ◌∷◌, map}
use outbound_gpu_worker_pool.Routes.Responses.{
  grant_response, lease_response, AssetGrantResponse, LeaseResponse,
}
use outbound_gpu_worker_pool.Contracts.{
  ◌>>=◌, Result, ok, field_get, Value, null, int, str, list, dict, Items, nil, cons, Fields,
  text_items, AssetGrant, LeaseGrant,
}
use outbound_gpu_worker_pool.Stdlib.{Stdlib}
use outbound_gpu_worker_pool.Agent.Grants.{
  key_at, text_of, optional_text_of, int_of, dict_of, items_of, texts_of, date_of, asset_grant,
  asset_grants, lease_grant,
}
use outbound_gpu_worker_pool.Contracts.Requirements.RoundTrip.{texts?-text_items}

-- How a response is written: the fields of its JSON, and the text of a datetime.
pub record Encoding : Type 0 where
  pub grant_fields : AssetGrantResponse → Fields
  pub lease_fields : LeaseResponse → Fields
  pub iso : ℕ → String

abbrev pub text_or_null : Option String → Value
text_or_null none = null
text_or_null (some s) = str s

abbrev pub grant_items : Encoding → List AssetGrantResponse → Items
grant_items e [] = nil
grant_items e (g ∷ gs) = cons (dict (e.grant_fields g)) (grant_items e gs)

-- Every field of a grant stands in the JSON under its own name.
pub record WritesGrants (e : Encoding) : Type 0 where
  pub key : (g : AssetGrantResponse) → field_get "key" (e.grant_fields g) ≡ some (str g.key)
  pub url : (g : AssetGrantResponse) → field_get "url" (e.grant_fields g) ≡ some (str g.url)
  pub method :
      (g : AssetGrantResponse) → field_get "method" (e.grant_fields g) ≡ some (str g.method)
  pub expires_at :
      (g : AssetGrantResponse)
      → field_get "expires_at" (e.grant_fields g) ≡ some (str (e.iso g.expires_at))
  pub content_type :
      (g : AssetGrantResponse)
      → field_get "content_type" (e.grant_fields g) ≡ some (text_or_null g.content_type)

-- So does every field of a lease.
pub record WritesLeases (e : Encoding) : Type 0 where
  pub job_id : (r : LeaseResponse) → field_get "job_id" (e.lease_fields r) ≡ some (str r.job_id)
  pub claim_token :
      (r : LeaseResponse) → field_get "claim_token" (e.lease_fields r) ≡ some (str r.claim_token)
  pub lease_until :
      (r : LeaseResponse)
      → field_get "lease_until" (e.lease_fields r) ≡ some (str (e.iso r.lease_until))
  pub execution_deadline_seconds :
      (r : LeaseResponse)
      → field_get "execution_deadline_seconds" (e.lease_fields r)
        ≡ some (int r.execution_deadline_seconds)
  pub capability_id :
      (r : LeaseResponse)
      → field_get "capability_id" (e.lease_fields r) ≡ some (str r.capability_id)
  pub contract_version :
      (r : LeaseResponse)
      → field_get "contract_version" (e.lease_fields r) ≡ some (int r.contract_version)
  pub request_digest :
      (r : LeaseResponse)
      → field_get "request_digest" (e.lease_fields r) ≡ some (str r.request_digest)
  pub idempotency_key :
      (r : LeaseResponse)
      → field_get "idempotency_key" (e.lease_fields r) ≡ some (str r.idempotency_key)
  pub input_keys :
      (r : LeaseResponse)
      → field_get "input_keys" (e.lease_fields r) ≡ some (list (text_items r.input_keys))
  pub output_key :
      (r : LeaseResponse) → field_get "output_key" (e.lease_fields r) ≡ some (str r.output_key)
  pub payload : (r : LeaseResponse) → field_get "payload" (e.lease_fields r) ≡ some (dict r.payload)
  pub input_grants :
      (r : LeaseResponse)
      → field_get "input_grants" (e.lease_fields r) ≡ some (list (grant_items e r.input_grants))
  pub output_grant :
      (r : LeaseResponse)
      → field_get "output_grant" (e.lease_fields r) ≡ some (dict (e.grant_fields r.output_grant))

-- A step that returns, before the rest of a block.
bind-ok :
    {A B : Type 0} (step : Result A) (next : A → Result B) (x : A) {last : Result B}
    → step ≡ ok x
    → next x ≡ last
    → (step >>= next) ≡ last
bind-ok step next x e f = rw e f

module _ (lib : Stdlib) (e : Encoding) where
  abbrev pub ReadsDates : Type 0
  ReadsDates = (t : ℕ) → lib.datetime_of (e.iso t) ≡ some t

  module _ (reads : ReadsDates) (writes : WritesGrants e) where
    read :
        {A : Type 0} (key : String) (fs : Fields) (of : Value → Result A) (v : Value) (x : A)
        → field_get key fs ≡ some v
        → of v ≡ ok x
        → (key_at key fs >>= of) ≡ ok x
    unfolding field_get
    read key fs of v x found good = rw found good

    optional_text_of-text_or_null : (o : Option String) → optional_text_of (text_or_null o) ≡ ok o
    optional_text_of-text_or_null none = refl
    optional_text_of-text_or_null (some s) = refl

    date_of-iso : (t : ℕ) → date_of lib (str (e.iso t)) ≡ ok t
    date_of-iso t = rw (reads t) refl

    asset_grant-grant_response :
        (g : AssetGrant) → asset_grant lib (dict (e.grant_fields (grant_response g))) ≡ ok g
    unfolding asset_grant grant_response
    asset_grant-grant_response g =
        let r = grant_response g in
        let fs = e.grant_fields r in
        bind-ok (key_at "key" fs >>= text_of) _ g.key
          (read "key" fs text_of _ _ (writes.key r) refl)
          (bind-ok (key_at "url" fs >>= text_of) _ g.url
            (read "url" fs text_of _ _ (writes.url r) refl)
            (bind-ok (key_at "method" fs >>= text_of) _ g.method
              (read "method" fs text_of _ _ (writes.method r) refl)
              (bind-ok (key_at "expires_at" fs >>= date_of lib) _ g.expires_at
                (read "expires_at" fs (date_of lib) _ _ (writes.expires_at r)
                  (date_of-iso g.expires_at))
                (bind-ok (key_at "content_type" fs >>= optional_text_of) _ g.content_type
                  (read "content_type" fs optional_text_of _ _ (writes.content_type r)
                    (optional_text_of-text_or_null g.content_type))
                  refl))))

    asset_grants-grant_items :
        (gs : List AssetGrant) → asset_grants lib (grant_items e (map grant_response gs)) ≡ ok gs
    unfolding asset_grants
    asset_grants-grant_items [] = refl
    asset_grants-grant_items (g ∷ gs) =
        bind-ok _ _ g (asset_grant-grant_response g)
          (bind-ok _ _ gs (asset_grants-grant_items gs) refl)

    texts_of-text_items : (ss : List String) → texts_of (list (text_items ss)) ≡ ok ss
    texts_of-text_items ss = rw (texts?-text_items ss) refl

    -- Where FastAPI writes each field of a response under its own name, and `fromisoformat` reads a
    -- datetime as it is written: the agent reads from the JSON of the lease route's response the grant
    -- that the service made, each field in its place, but for the tenant of the job, which it never
    -- gets.
    pub lease_grant-lease_response :
        WritesLeases e
        → (g : LeaseGrant)
        → lease_grant lib (dict (e.lease_fields (lease_response g)))
          ≡ ok (record g { tenant_id = none })
    unfolding lease_grant lease_response
    lease_grant-lease_response leases g =
        let r = lease_response g in
        let fs = e.lease_fields r in
        bind-ok _ _ g.job_id (read "job_id" fs text_of _ _ (leases.job_id r) refl) (
          bind-ok _ _ g.claim_token (read "claim_token" fs text_of _ _ (leases.claim_token r) refl)
            (bind-ok _ _ g.lease_until
              (read "lease_until" fs (date_of lib) _ _ (leases.lease_until r)
                (date_of-iso g.lease_until))
              (bind-ok _ _ g.execution_deadline_seconds
                (read "execution_deadline_seconds" fs int_of _ _
                  (leases.execution_deadline_seconds r) refl)
                (bind-ok _ _ g.capability_id
                  (read "capability_id" fs text_of _ _ (leases.capability_id r) refl)
                  (bind-ok _ _ g.contract_version
                    (read "contract_version" fs int_of _ _ (leases.contract_version r) refl)
                    (bind-ok _ _ g.request_digest
                      (read "request_digest" fs text_of _ _ (leases.request_digest r) refl)
                      (bind-ok _ _ g.idempotency_key
                        (read "idempotency_key" fs text_of _ _ (leases.idempotency_key r) refl)
                        (bind-ok _ _ g.input_keys
                          (read "input_keys" fs texts_of _ _ (leases.input_keys r)
                            (texts_of-text_items g.input_keys))
                          (bind-ok _ _ g.output_key
                            (read "output_key" fs text_of _ _ (leases.output_key r) refl)
                            (bind-ok _ _ g.payload
                              (read "payload" fs dict_of _ _ (leases.payload r) refl)
                              (bind-ok _ _ g.input_grants
                                (bind-ok _ _ (grant_items e r.input_grants)
                                  (read "input_grants" fs items_of _ _ (leases.input_grants r) refl)
                                  (asset_grants-grant_items g.input_grants))
                                (bind-ok _ _ g.output_grant
                                  (read "output_grant" fs (asset_grant lib) _ _
                                    (leases.output_grant r)
                                    (asset_grant-grant_response g.output_grant))
                                  refl))))))))))))
