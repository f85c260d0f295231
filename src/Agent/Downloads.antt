-- ===== src/Agent/Downloads.antt =====
-- The files that the agent reads and writes: the digest of an output, and the inputs of a job.
use outbound_gpu_worker_pool.Base.{
  ℕ, zero, suc, ◌+◌, ◌/◌, ◌≤◌, String, ◌≡◌, refl, sym, ap, ◌∙◌, inl, inr, Bool, true, false, Option,
  none, some, List, [], ◌∷◌, ◌++◌, arith, ltb, nat_eq, Bool-cases, length, length-append,
}
use outbound_gpu_worker_pool.Agent.Inputs.{
  digest_chunk_bytes, write_chunks, stream_file, http_download, take, drop, digest_loop,
  digest_file, Stream, Client,
}
use outbound_gpu_worker_pool.Stdlib.{Stdlib}
use outbound_gpu_worker_pool.Contracts.{Error, Result, ok, err}

append_assoc : (xs ys zs : List ℕ) → (xs ++ ys) ++ zs ≡ xs ++ (ys ++ zs)
append_assoc [] ys zs = refl
append_assoc (x ∷ xs) ys zs = ap (λ l. x ∷ l) (append_assoc xs ys zs)

append_nil : (xs : List ℕ) → xs ++ [] ≡ xs
append_nil [] = refl
append_nil (x ∷ xs) = ap (λ l. x ∷ l) (append_nil xs)

take-append-drop : (n : ℕ) (bs : List ℕ) → take n bs ++ drop n bs ≡ bs
take-append-drop zero bs = refl
take-append-drop (suc n) [] = refl
take-append-drop (suc n) (b ∷ bs) = ap (λ l. b ∷ l) (take-append-drop n bs)

length-take_pos : (n : ℕ) (bs : List ℕ) → 1 ≤ n → length (take n bs) ≡ 0 → bs ≡ []
length-take_pos zero bs h e = absurd (omega (arith, h))
length-take_pos (suc n) [] h e = refl
length-take_pos (suc n) (b ∷ bs) h e = absurd (omega (arith, e))

pair_eq : {x y : List ℕ} {m n : ℕ} → x ≡ y → m ≡ n → ◌≡◌ {A = List ℕ × ℕ} (x, m) (y, n)
pair_eq e f = rw (e, f) refl

digest_loop-Whole :
    (rounds size : ℕ) (rest hashed : List ℕ) (count : ℕ)
    → 1 ≤ size
    → length rest ≤ rounds
    → digest_loop rounds size rest hashed count ≡ (hashed ++ rest, count + length rest)
unfolding digest_loop
digest_loop-Whole zero size [] hashed count h enough =
    pair_eq (sym (append_nil hashed)) (omega arith)
digest_loop-Whole zero size (b ∷ bs) hashed count h enough = absurd (omega (arith, enough))
digest_loop-Whole (suc rounds) size rest hashed count h enough =
    elim (Bool-cases (nat_eq (length (take size rest)) 0)) [
      | inl e ↦
          rw (digest_loop, e, length-take_pos size rest h (ground (arith, e)))
            (pair_eq (sym (append_nil hashed)) (omega arith))
      | inr e ↦
          let whole = take-append-drop size rest in
          let lengths = sym (length-append (take size rest) (drop size rest)) ∙ ap length whole in
          rw (digest_loop, e)
            (digest_loop-Whole rounds size (drop size rest) (hashed ++ take size rest)
                (count + length (take size rest)) h (ground (arith, e, lengths, enough))
              ∙ pair_eq
                  (append_assoc hashed (take size rest) (drop size rest)
                    ∙ ap (λ l. hashed ++ l) whole)
                  (omega (arith, lengths)))
    ]

-- The digest that the agent attests, read in chunks of a mebibyte, is that of the whole file, and
-- the length that it attests is the file's.
pub digest_file-Whole :
    (lib : Stdlib) (file : List ℕ) → digest_file lib file ≡ (lib.sha256_hex file, length file)
unfolding digest_file
digest_file-Whole lib file =
    let whole =
      digest_loop-Whole (length file) digest_chunk_bytes file [] 0 (omega arith) (omega arith)
      ∙ pair_eq refl (omega arith) in
    ap (λ (x : List ℕ × ℕ). (lib.sha256_hex x.0, x.1)) whole

abbrev pub joined_chunks : List (List ℕ) → List ℕ
joined_chunks [] = []
joined_chunks (c ∷ cs) = c ++ joined_chunks cs

-- What a download left, under a bound: no more bytes than it allows; and where the download returns
-- a number, all the chunks, in that number of bytes.
abbrev pub IsBounded : ℕ → List ℕ → List (List ℕ) → Result ℕ × Option (List ℕ) → Type 0
IsBounded bound before chunks (err e, none) = Unit
IsBounded bound before chunks (err e, some file) = length file ≤ bound
IsBounded bound before chunks (ok n, none) = ⊥
IsBounded bound before chunks (ok n, some file) =
    (length file ≤ bound) × (length file ≡ n) × (file ≡ before ++ joined_chunks chunks)

grow-Bounded :
    (bound : ℕ) (before c : List ℕ) (cs : List (List ℕ)) (x : Result ℕ × Option (List ℕ))
    → IsBounded bound (before ++ c) cs x
    → IsBounded bound before (c ∷ cs) x
grow-Bounded bound before c cs (err e, none) h = h
grow-Bounded bound before c cs (err e, some file) h = h
grow-Bounded bound before c cs (ok n, none) h = h
grow-Bounded bound before c cs (ok n, some file) (fits, counts, whole) =
    (fits, counts, whole ∙ append_assoc before c (joined_chunks cs))

write_chunks-Bounded :
    (broken : Option Error) (bound : ℕ) (cs : List (List ℕ)) (written : ℕ) (file : List ℕ)
    → length file ≡ written
    → written ≤ bound
    → IsBounded bound file cs (write_chunks broken (some bound) cs written file)
unfolding write_chunks
write_chunks-Bounded none bound [] written file counts fits =
    ((omega (arith, counts, fits)), counts, sym (append_nil file))
write_chunks-Bounded (some e) bound [] written file counts fits = (omega (arith, counts, fits))
write_chunks-Bounded broken bound (c ∷ cs) written file counts fits =
    elim (Bool-cases (ltb bound (written + length c))) [
      | inl e ↦ rw (write_chunks, e) (omega (arith, counts, fits))
      | inr e ↦
          rw (write_chunks, e)
            (grow-Bounded bound file c cs _ (
              write_chunks-Bounded broken bound cs (written + length c) (file ++ c)
                (omega (arith, counts, length-append file c)) (ground (arith, e))))
    ]

stream_file-Bounded :
    (bound : ℕ) (s : Stream) (opens : Bool)
    → IsBounded bound [] s.chunks (stream_file s opens (some bound))
stream_file-Bounded bound s true = elim (Bool-cases (nat_eq (s.status_code / 100) 2)) [
  | inl e ↦ rw e (write_chunks-Bounded s.broken bound s.chunks 0 [] (omega arith) (omega arith))
  | inr e ↦ rw e tt
]
stream_file-Bounded bound s false = elim (Bool-cases (nat_eq (s.status_code / 100) 2)) [
  | inl e ↦ rw e tt
  | inr e ↦ rw e tt
]

-- Under a bound, a download of a response over HTTP leaves no more bytes than the bound on the disk,
-- also where it raises; and where it returns, it leaves all the chunks of the response, and the number
-- that it returns is theirs in bytes.
pub http_download-Bounded :
    (c : Client) (url : String) (opens : Bool) (bound : ℕ) (s : Stream)
    → c.stream url ≡ ok s
    → IsBounded bound [] s.chunks (http_download c url opens (some bound))
unfolding http_download
http_download-Bounded c url opens bound s given =
    rw (http_download, given) (stream_file-Bounded bound s opens)
