-- ===== src/Source/SqlServer/Chunks.antt =====
-- The chunks of a list of serial numbers.
use weighing_data_sync.Prelude.{
  ℕ, suc, zero, ◌≤◌, ◌<◌, ◌≡◌, refl, ◌∙◌, ap, List, [], ◌∷◌, ◌++◌, length, take, drop, length-take,
  length-drop, take-append-drop, All, Text, arith,
}
use weighing_data_sync.Source.SqlServer.{chunks, chunks_on, mark_upload_chunk_size}

abbrev pub concat {ℓ} : {A : Type ℓ} → List (List A) → List A
concat [] = []
concat (xs ∷ xss) = xs ++ concat xss

concat-chunks_on {ℓ} :
    {A : Type ℓ} (fuel size : ℕ) (xs : List A)
    → length xs ≤ fuel
    → 0 < size
    → concat (chunks_on fuel size xs) ≡ xs
concat-chunks_on zero size [] h positive = refl
concat-chunks_on zero size (x ∷ xs) h positive = absurd (omega arith)
concat-chunks_on (suc fuel) size [] h positive = refl
concat-chunks_on (suc fuel) size (x ∷ xs) h positive =
    ap (λ l. take size (x ∷ xs) ++ l)
      (concat-chunks_on fuel size (drop size (x ∷ xs)) (omega (arith, length-drop size (x ∷ xs)))
        positive)
    ∙ take-append-drop size (x ∷ xs)

All-chunks_on {ℓ} :
    {A : Type ℓ} (fuel size : ℕ) (xs : List A)
    → 0 < size
    → All (λ chunk. (0 < length chunk) × (length chunk ≤ size)) (chunks_on fuel size xs)
All-chunks_on zero size xs positive = tt
All-chunks_on (suc fuel) size [] positive = tt
All-chunks_on (suc fuel) size (x ∷ xs) positive = (
  (omega (arith, length-take size (x ∷ xs)), omega (arith, length-take size (x ∷ xs))),
  All-chunks_on fuel size (drop size (x ∷ xs)) positive,
)

-- The statements list every serial number once, in order; each lists at least one and at most 1000
-- of them.
pub chunks_lem :
    (serial_nos : List Text)
    → (concat (chunks mark_upload_chunk_size serial_nos) ≡ serial_nos)
      × All
          (λ chunk. (0 < length chunk) × (length chunk ≤ 1000))
          (chunks mark_upload_chunk_size serial_nos)
unfolding chunks
chunks_lem serial_nos = (
  concat-chunks_on (length serial_nos) 1000 serial_nos (omega arith) (omega arith),
  All-chunks_on (length serial_nos) 1000 serial_nos (omega arith),
)
