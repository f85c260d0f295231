-- ===== src/JobStore/Depth.antt =====
-- `queue_depth`: the one pass over the records against plain counting.
use outbound_gpu_worker_pool.Base.{
  ℕ, ◌+◌, String, ◌≡◌, inl, inr, Bool, ◌&&◌, List, [], ◌∷◌, arith, eq_iff, if◌then◌else◌,
  Bool-cases, ℤ_eq, ◌==◌, ℕ_eq, String_eq, Option_eq, List_eq, Dict, get, put, values, get-put,
}
use outbound_gpu_worker_pool.Contracts.{
  JobStatus, queued, processing, JobRecord, CapabilityQueueDepth,
}
use outbound_gpu_worker_pool.JobStore.{is_processing, is_queued, JobStore}
use outbound_gpu_worker_pool.JobStore.Settling.{
  no_jobs, or_no_jobs, note_total, note_capability, count_records, queue_depth,
}

abbrev pub tally : (JobRecord → Bool) → List JobRecord → ℕ
tally p [] = 0
tally p (r ∷ rs) = (if p r then 1 else 0) + tally p rs

abbrev pub serves : String → (JobStatus → Bool) → JobRecord → Bool
serves capability p r = r.capability_id == capability && p r.status

note_total-queued :
    (s : JobStatus) (t : CapabilityQueueDepth)
    → ((note_total s t).queued_jobs ≡ t.queued_jobs + (if is_queued s then 1 else 0))
      × ((note_total s t).processing_jobs ≡ t.processing_jobs + (if is_processing s then 1 else 0))
unfolding note_total
note_total-queued queued t = (omega arith, omega arith)
note_total-queued processing t = (omega arith, omega arith)
note_total-queued _ t = (omega arith, omega arith)

count_records-totals :
    (rs : List JobRecord) (t : CapabilityQueueDepth) (b : Dict CapabilityQueueDepth)
    → ((count_records rs t b).0.queued_jobs ≡ t.queued_jobs + tally (λ r. is_queued r.status) rs)
      × ((count_records rs t b).0.processing_jobs
          ≡ t.processing_jobs + tally (λ r. is_processing r.status) rs)
unfolding count_records
count_records-totals [] t b = (omega arith, omega arith)
count_records-totals (r ∷ rs) t b =
    let ih =
      count_records-totals rs (note_total r.status t)
        (note_capability r.status r.capability_id b) in
    let h = note_total-queued r.status t in (omega (arith, ih.0, h.0), omega (arith, ih.1, h.1))

abbrev pub depth_at : String → Dict CapabilityQueueDepth → CapabilityQueueDepth
depth_at capability b = or_no_jobs (get capability b)

-- Reading a capability's counts after another's, or its own, were replaced.
depth_at-put :
    (capability c : String) (d : CapabilityQueueDepth) (b : Dict CapabilityQueueDepth)
    → depth_at capability (put c d b) ≡ (if c == capability then d else depth_at capability b)
depth_at-put capability c d b = elim (Bool-cases (c == capability)) [
  | inl e ↦ rw (get-put c capability d b, e)
  | inr e ↦ rw (get-put c capability d b, e)
]

note_capability-counts :
    (capability : String) (s : JobStatus) (c : String) (b : Dict CapabilityQueueDepth)
    → ((depth_at capability (note_capability s c b)).queued_jobs
        ≡ (depth_at capability b).queued_jobs + (if c == capability && is_queued s then 1 else 0))
      × ((depth_at capability (note_capability s c b)).processing_jobs
          ≡ (depth_at capability b).processing_jobs
            + (if c == capability && is_processing s then 1 else 0))
unfolding note_capability
note_capability-counts capability queued c b = elim (Bool-cases (c == capability)) [
  | inl e ↦
      rw (depth_at-put capability c _ b, e, (eq_iff c capability).0 e) (omega arith, omega arith)
  | inr e ↦ rw (depth_at-put capability c _ b, e) (omega arith, omega arith)
]
note_capability-counts capability processing c b = elim (Bool-cases (c == capability)) [
  | inl e ↦
      rw (depth_at-put capability c _ b, e, (eq_iff c capability).0 e) (omega arith, omega arith)
  | inr e ↦ rw (depth_at-put capability c _ b, e) (omega arith, omega arith)
]
note_capability-counts capability _ c b = ground arith

count_records-capability :
    (capability : String) (rs : List JobRecord) (t : CapabilityQueueDepth)
    (b : Dict CapabilityQueueDepth)
    → ((depth_at capability (count_records rs t b).1).queued_jobs
        ≡ (depth_at capability b).queued_jobs + tally (serves capability is_queued) rs)
      × ((depth_at capability (count_records rs t b).1).processing_jobs
          ≡ (depth_at capability b).processing_jobs + tally (serves capability is_processing) rs)
unfolding count_records
count_records-capability capability [] t b = (omega arith, omega arith)
count_records-capability capability (r ∷ rs) t b =
    let ih =
      count_records-capability capability rs (note_total r.status t)
        (note_capability r.status r.capability_id b) in
    let h = note_capability-counts capability r.status r.capability_id b in
    (omega (arith, ih.0, h.0), omega (arith, ih.1, h.1))

-- The queue depth counts the queued and the processing jobs of the store, in all and for each
-- capability; a capability that is not listed has none.
pub queue_depth-tally :
    (st : JobStore) (capability : String)
    → ((queue_depth st).queued_jobs ≡ tally (λ r. is_queued r.status) (values st.records))
      × ((queue_depth st).processing_jobs ≡ tally (λ r. is_processing r.status) (values st.records))
      × ((depth_at capability (queue_depth st).by_capability).queued_jobs
          ≡ tally (serves capability is_queued) (values st.records))
      × ((depth_at capability (queue_depth st).by_capability).processing_jobs
          ≡ tally (serves capability is_processing) (values st.records))
unfolding queue_depth get
queue_depth-tally st capability =
    let t = count_records-totals (values st.records) no_jobs [] in
    let c = count_records-capability capability (values st.records) no_jobs [] in
    (omega (arith, t.0), omega (arith, t.1), omega (arith, c.0), omega (arith, c.1))
