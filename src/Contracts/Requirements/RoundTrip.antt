-- ===== src/Contracts/Requirements/RoundTrip.antt =====
-- The jsonb form of job requirements keeps them.
use outbound_gpu_worker_pool.Base.{
  String, ◌≡◌, refl, ap, ◌∙◌, true, false, Option, none, some, List, [], ◌∷◌, ℤ_eq, ℤ, ◌==◌, ℕ_eq,
  String_eq, Option_eq, List_eq, Dict,
}
use outbound_gpu_worker_pool.Contracts.Errors.{ok}
use outbound_gpu_worker_pool.Contracts.Values.{
  field_get, Value, list, dict, Items, nil, Fields, end,
}
use outbound_gpu_worker_pool.Contracts.Requirements.{
  text_items, text_fields, set_vram, set_texts, set_versions, as_payload, or_default, items?,
  fields?, texts?, versions?, vram_of, to_strs, from_payload, JobRequirements,
}

to_strs-text_items :
    (render : Value → String) (xs : List String) → to_strs render (text_items xs) ≡ xs
to_strs-text_items render [] = refl
to_strs-text_items render (x ∷ xs) =
    ap (λ (ys : List String). x ∷ ys) (to_strs-text_items render xs)

pub texts?-text_items : (xs : List String) → texts? (text_items xs) ≡ some xs
texts?-text_items [] = refl
texts?-text_items (x ∷ xs) = rw (texts?-text_items xs) refl

versions?-text_fields : (d : Dict String) → versions? (text_fields d) ≡ some d
versions?-text_fields [] = refl
versions?-text_fields ((k, v) ∷ d) = rw (versions?-text_fields d) refl

-- Reading past a key that is another's.
past_texts :
    (k j : String) (xs : List String) (fs : Fields)
    → (j == k) ≡ false
    → field_get k (set_texts j xs fs) ≡ field_get k fs
unfolding field_get
past_texts k j [] fs n = refl
past_texts k j (x ∷ xs) fs n = rw (n, field_get) refl

past_vram :
    (k : String) (o : Option ℤ) (fs : Fields)
    → ("min_vram_mb" == k) ≡ false
    → field_get k (set_vram o fs) ≡ field_get k fs
unfolding field_get
past_vram k none fs n = refl
past_vram k (some x) fs n = rw (n, field_get) refl

no_versions :
    (k : String) (d : Dict String)
    → ("runtime_versions" == k) ≡ false
    → field_get k (set_versions d end) ≡ none
unfolding field_get
no_versions k [] n = refl
no_versions k (e ∷ d) n = rw (n, field_get) refl

-- The items under a key, where nothing behind it has the key.
own_texts :
    (k : String) (xs : List String) (fs : Fields)
    → (k == k) ≡ true
    → field_get k fs ≡ none
    → items? (or_default (field_get k (set_texts k xs fs)) (list nil)) ≡ some (text_items xs)
unfolding field_get
own_texts k [] fs e n = rw n refl
own_texts k (x ∷ xs) fs e n = rw (e, field_get) refl

own_versions :
    (d : Dict String)
    → fields? (or_default (field_get "runtime_versions" (set_versions d end)) (dict end))
      ≡ some (text_fields d)
unfolding field_get
own_versions [] = refl
own_versions ((k, v) ∷ d) = refl

own_vram :
    (o : Option ℤ) (fs : Fields)
    → field_get "min_vram_mb" fs ≡ none
    → vram_of (field_get "min_vram_mb" (set_vram o fs)) ≡ ok o
unfolding field_get
own_vram none fs n = rw n refl
own_vram (some x) fs n = refl

abbrev read_items : Option Value → Option Items
read_items o = items? (or_default o (list nil))

-- Requirements written to their jsonb form and read back are the same, whatever the rendering of
-- values that are no texts.
pub from_payload-as_payload :
    (render : Value → String) (r : JobRequirements) → from_payload render (as_payload r) ≡ ok r
unfolding from_payload as_payload
from_payload-as_payload render r =
    rw
      (
        from_payload,
        models,
        labels,
        vram,
        workers,
        texts?-text_items r.worker_ids,
        versions,
        versions?-text_fields r.runtime_versions,
        to_strs-text_items render r.gpu_models,
        to_strs-text_items render r.labels,
      )
      refl
  where
    last : Fields
    last = set_versions r.runtime_versions end

    after_labels : Fields
    after_labels = set_texts "worker_ids" r.worker_ids last

    after_models : Fields
    after_models = set_texts "labels" r.labels after_labels

    after_vram : Fields
    after_vram = set_texts "gpu_models" r.gpu_models after_models

    models :
        items? (or_default (field_get "gpu_models" (set_vram r.min_vram_mb after_vram)) (list nil))
        ≡ some (text_items r.gpu_models)
    models =
        ap read_items (past_vram "gpu_models" r.min_vram_mb after_vram refl)
        ∙ own_texts "gpu_models" r.gpu_models after_models refl (
            past_texts "gpu_models" "labels" r.labels after_labels refl
            ∙ past_texts "gpu_models" "worker_ids" r.worker_ids last refl
            ∙ no_versions "gpu_models" r.runtime_versions refl)

    labels :
        items? (or_default (field_get "labels" (set_vram r.min_vram_mb after_vram)) (list nil))
        ≡ some (text_items r.labels)
    labels =
        ap read_items (
          past_vram "labels" r.min_vram_mb after_vram refl
          ∙ past_texts "labels" "gpu_models" r.gpu_models after_models refl)
        ∙ own_texts "labels" r.labels after_labels refl (
            past_texts "labels" "worker_ids" r.worker_ids last refl
            ∙ no_versions "labels" r.runtime_versions refl)

    workers :
        items? (or_default (field_get "worker_ids" (set_vram r.min_vram_mb after_vram)) (list nil))
        ≡ some (text_items r.worker_ids)
    workers =
        ap read_items (
          past_vram "worker_ids" r.min_vram_mb after_vram refl
          ∙ past_texts "worker_ids" "gpu_models" r.gpu_models after_models refl
          ∙ past_texts "worker_ids" "labels" r.labels after_labels refl)
        ∙ own_texts "worker_ids" r.worker_ids last refl
            (no_versions "worker_ids" r.runtime_versions refl)

    versions :
        fields?
          (or_default (field_get "runtime_versions" (set_vram r.min_vram_mb after_vram)) (dict end))
        ≡ some (text_fields r.runtime_versions)
    versions =
        ap (λ (o : Option Value). fields? (or_default o (dict end)))
          (past_vram "runtime_versions" r.min_vram_mb after_vram refl
            ∙ past_texts "runtime_versions" "gpu_models" r.gpu_models after_models refl
            ∙ past_texts "runtime_versions" "labels" r.labels after_labels refl
            ∙ past_texts "runtime_versions" "worker_ids" r.worker_ids last refl)
        ∙ own_versions r.runtime_versions

    vram : vram_of (field_get "min_vram_mb" (set_vram r.min_vram_mb after_vram)) ≡ ok r.min_vram_mb
    vram = own_vram r.min_vram_mb after_vram (
        past_texts "min_vram_mb" "gpu_models" r.gpu_models after_models refl
        ∙ past_texts "min_vram_mb" "labels" r.labels after_labels refl
        ∙ past_texts "min_vram_mb" "worker_ids" r.worker_ids last refl
        ∙ no_versions "min_vram_mb" r.runtime_versions refl)
