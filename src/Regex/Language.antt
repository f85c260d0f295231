-- ===== src/Regex/Language.antt =====
-- The texts that a regular expression describes.
use outbound_gpu_worker_pool.Base.{ℕ, ◌≡◌, ◌⊎◌, true, List, [], ◌∷◌, ◌++◌}
use outbound_gpu_worker_pool.Regex.{in_class, Regex, nothing, empty, class, alt, seq, star}

-- A row of nonempty pieces.
pub data Pieces (P : List ℕ → Type 0) : List ℕ → Type 0 where
  stop : Pieces P []
  piece :
      (c : ℕ) (s t : List ℕ) {u : List ℕ} → u ≡ c ∷ (s ++ t) → P (c ∷ s) → Pieces P t → Pieces P u

abbrev pub Matches : Regex → List ℕ → Type 0
Matches nothing u = ⊥
Matches empty u = u ≡ []
Matches (class rs) u = (c : ℕ) × (u ≡ c ∷ []) × (in_class rs c ≡ true)
Matches (alt r s) u = Matches r u ⊎ Matches s u
Matches (seq r s) u = (v : List ℕ) × (w : List ℕ) × (u ≡ v ++ w) × Matches r v × Matches s w
Matches (star r) u = Pieces (Matches r) u
