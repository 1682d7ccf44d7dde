-- ===== src/Service/Homogeneous.antt =====
-- The chunks that processSdpBatch (internal/sms/service/processor.go) hands to SendBatch
-- (internal/sms/adapters/mno/safaricom_sdp.go).
use sms_mno_gateway.Base.{ℕ, zero, suc, Str, List, [], ◌∷◌, length, take, drop, All, none, ◌≡◌}
use sms_mno_gateway.Domain.Message.{Message}
use sms_mno_gateway.Service.Processor.Grouping.{group_by_sender, chunk_rounds, chunks}
use sms_mno_gateway.Service.Processor.Groups.{IsGroup, group_by_sender_groups}
use sms_mno_gateway.Mno.SdpBatch.{mixed_sender}
use sms_mno_gateway.Mno.Safety.{mixed_sender_same}

-- The check of SendBatch for mixed senders lets the batch pass.
abbrev pub IsUnmixed : List Message → Type 0
IsUnmixed [] = Unit
IsUnmixed (m ∷ ms) = mixed_sender m.sender 1 ms ≡ none

abbrev AllFrom : Str → List Message → Type 0
AllFrom s = All (λ m. s ≡ m.sender)

take-AllFrom : (s : Str) (n : ℕ) (ms : List Message) → AllFrom s ms → AllFrom s (take n ms)
take-AllFrom s zero ms h = tt
take-AllFrom s (suc n) [] h = tt
take-AllFrom s (suc n) (m ∷ ms) h = (h.0, take-AllFrom s n ms h.1)

drop-AllFrom : (s : Str) (n : ℕ) (ms : List Message) → AllFrom s ms → AllFrom s (drop n ms)
drop-AllFrom s zero ms h = h
drop-AllFrom s (suc n) [] h = tt
drop-AllFrom s (suc n) (m ∷ ms) h = drop-AllFrom s n ms h.1

AllFrom-IsUnmixed : (s : Str) (ms : List Message) → AllFrom s ms → IsUnmixed ms
AllFrom-IsUnmixed s [] h = tt
AllFrom-IsUnmixed s (m ∷ ms) h = rw (← h.0) (mixed_sender_same s 1 ms h.1)

chunk_rounds-IsUnmixed :
    (rounds size : ℕ) (s : Str) (ms : List Message)
    → AllFrom s ms
    → All IsUnmixed (chunk_rounds rounds size ms)
unfolding chunk_rounds
chunk_rounds-IsUnmixed zero size s ms h = tt
chunk_rounds-IsUnmixed (suc rounds) size s [] h = tt
chunk_rounds-IsUnmixed (suc rounds) size s (m ∷ ms) h = (
  AllFrom-IsUnmixed s (take size (m ∷ ms)) (take-AllFrom s size (m ∷ ms) h),
  chunk_rounds-IsUnmixed rounds size s (drop size (m ∷ ms)) (drop-AllFrom s size (m ∷ ms) h),
)

groups-IsUnmixed :
    (size : ℕ) (gs : List (List Message))
    → All IsGroup gs
    → All (λ g. All IsUnmixed (chunks size g)) gs
unfolding chunks
groups-IsUnmixed size [] h = tt
groups-IsUnmixed size (g ∷ gs) h =
    let (s, some, same) = h.0 in
    (chunk_rounds-IsUnmixed (length g) size s g same, groups-IsUnmixed size gs h.1)

-- Whatever the batch size, no chunk that the processor cuts from the groups of a batch is rejected
-- by SendBatch for mixed senders.
pub sdp_chunks-IsUnmixed :
    (size : ℕ) (ms : List Message) → All (λ g. All IsUnmixed (chunks size g)) (group_by_sender ms)
sdp_chunks-IsUnmixed size ms =
    groups-IsUnmixed size (group_by_sender ms) (group_by_sender_groups ms).1
