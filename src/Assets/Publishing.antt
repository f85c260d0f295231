-- ===== src/Assets/Publishing.antt =====
-- What a worker publishes through its grants.
use Prim.Native.Char.{code}
use outbound_gpu_worker_pool.Base.{
  ℕ, String, ◌≡◌, refl, sym, ap, ◌∙◌, inl, inr, none, some, List, [], ◌∷◌, nat_eq_iff, Option-cases,
  length, concat, strip_prefix, get, get-put_ne,
}
use outbound_gpu_worker_pool.Contracts.{ok}
use outbound_gpu_worker_pool.Assets.{
  create_read_url, write_once, download, AssetStore, AssetTransfer,
}

pub strip_prefix-concat : (p s : String) → strip_prefix p (concat p s) ≡ some s
unfolding strip_prefix
strip_prefix-concat String.[] s = refl
strip_prefix-concat (String.◌∷◌ c p) s =
    rw ((nat_eq_iff (code c) (code c)).1 refl) (strip_prefix-concat p s)

-- A row of writes, whoever makes them.
abbrev pub writes : List (String × List ℕ × String) → AssetStore → AssetStore
writes [] st = st
writes ((key, content, content_type) ∷ ws) st = writes ws (write_once key content content_type st).1

write_once-keeps :
    (k : String) (b : List ℕ) (key : String) (content : List ℕ) (content_type : String)
    (st : AssetStore)
    → get k st.assets ≡ some b
    → get k (write_once key content content_type st).1.assets ≡ some b
unfolding write_once
write_once-keeps k b key content content_type st h = elim (Option-cases (get key st.assets)) [
  | inr (old, e) ↦ rw (e, write_once) h
  | inl e ↦ rw (e, write_once) (get-put_ne key k content st.assets (λ q. clash q e) ∙ h)
]
  where
    some≢none : some b ≡ none → ⊥
    some≢none e = cc

    clash : key ≡ k → get key st.assets ≡ none → ⊥
    clash q e = some≢none (sym h ∙ ap (λ (x : String). get x st.assets) (sym q) ∙ e)

-- What has been published under a key stays: no row of writes replaces it.
pub writes-keeps :
    (ws : List (String × List ℕ × String)) (st : AssetStore) (k : String) (b : List ℕ)
    → get k st.assets ≡ some b
    → get k (writes ws st).assets ≡ some b
writes-keeps [] st k b h = h
writes-keeps ((key, content, content_type) ∷ ws) st k b h =
    writes-keeps ws (write_once key content content_type st).1 k b
      (write_once-keeps k b key content content_type st h)

-- The bytes that come back through a read grant.
abbrev pub Returned : String → List ℕ → AssetTransfer → Type 0
Returned key content t =
    (url : String) × (create_read_url key t.store ≡ ok url)
    × ((download url t).0 ≡ ok (content, length content))
