-- ===== src/Service/Processor/Chunks.antt =====
-- What groupBySender and the cutting into chunks of internal/sms/service/processor.go keep.
use mathlib.Core.List.{flatten}
use sms_mno_gateway.Base.{
  ℕ, zero, suc, ◌≤◌, ◌<◌, List, [], ◌∷◌, ◌++◌, take, drop, length, ◌≡◌, refl, ap, ◌∙◌, All, arith,
  length-drop, length-take, take-append-drop,
}
use sms_mno_gateway.Domain.Message.{Message}
use sms_mno_gateway.Service.Processor.Grouping.{chunk_rounds, chunks}

-- A non-empty list of at most so many messages.
abbrev pub IsChunk : ℕ → List Message → Type 0
IsChunk size ms = (0 < length ms) × (length ms ≤ size)

chunk_rounds-append :
    (rounds size : ℕ) (ms : List Message)
    → 0 < size
    → length ms ≤ rounds
    → flatten (chunk_rounds rounds size ms) ≡ ms
unfolding chunk_rounds flatten
chunk_rounds-append zero size [] pos fuel = refl
chunk_rounds-append zero size (m ∷ ms) pos fuel = absurd (omega arith)
chunk_rounds-append (suc rounds) size [] pos fuel = refl
chunk_rounds-append (suc rounds) size (m ∷ ms) pos fuel =
    ap (λ k. take size (m ∷ ms) ++ k)
      (chunk_rounds-append rounds size (drop size (m ∷ ms)) pos
        (omega (arith, length-drop size (m ∷ ms))))
    ∙ take-append-drop size (m ∷ ms)

chunk_rounds-IsChunk :
    (rounds size : ℕ) (ms : List Message)
    → 0 < size
    → All (IsChunk size) (chunk_rounds rounds size ms)
unfolding chunk_rounds
chunk_rounds-IsChunk zero size ms pos = tt
chunk_rounds-IsChunk (suc rounds) size [] pos = tt
chunk_rounds-IsChunk (suc rounds) size (m ∷ ms) pos = (
  (omega (arith, length-take size (m ∷ ms)), omega (arith, length-take size (m ∷ ms))),
  chunk_rounds-IsChunk rounds size (drop size (m ∷ ms)) pos,
)

-- With a positive size, the chunks of a group are non-empty, hold at most that many messages, and
-- are the group when they are put together in order.
pub chunks_cover :
    (size : ℕ) (ms : List Message)
    → 0 < size
    → (flatten (chunks size ms) ≡ ms) × All (IsChunk size) (chunks size ms)
unfolding chunks
chunks_cover size ms pos = (
  chunk_rounds-append (length ms) size ms pos (omega arith),
  chunk_rounds-IsChunk (length ms) size ms pos,
)
