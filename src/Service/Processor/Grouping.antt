-- ===== src/Service/Processor/Grouping.antt =====
-- groupBySender of internal/sms/service/processor.go, and the cutting of a group into chunks.
use sms_mno_gateway.Base.{
  ℕ, zero, suc, if◌then◌else◌, List, [], ◌∷◌, ◌++◌, map, Str, str_eq, take, drop, length,
}
use sms_mno_gateway.Domain.Message.{Message}

-- The map `groups` with its keys in the order of `order`: an entry for each sender, first seen first.
abbrev pub Groups : Type 0
Groups = List (Str × List Message)

-- One round of the loop: a new sender opens a group, and the message goes to the end of its group.
unfoldable pub add_to_group : Message → Groups → Groups
add_to_group m [] = (m.sender, m ∷ []) ∷ []
add_to_group m ((s, ms) ∷ gs) =
    if str_eq s m.sender then (s, ms ++ m ∷ []) ∷ gs else (s, ms) ∷ add_to_group m gs

unfoldable pub group_loop : List Message → Groups → Groups
group_loop [] gs = gs
group_loop (m ∷ ms) gs = group_loop ms (add_to_group m gs)

unfoldable pub group_by_sender : List Message → List (List Message)
group_by_sender ms = map (λ g. g.1) (group_loop ms [])

-- The loop `for i := 0; i < len(group); i += size`, on the rest of the group: each chunk has `size`
-- messages but for the last. The size is at least 1, so as many rounds as messages are enough.
unfoldable pub chunk_rounds : ℕ → ℕ → List Message → List (List Message)
chunk_rounds zero size ms = []
chunk_rounds (suc rounds) size [] = []
chunk_rounds (suc rounds) size (m ∷ ms) =
    take size (m ∷ ms) ∷ chunk_rounds rounds size (drop size (m ∷ ms))

unfoldable pub chunks : ℕ → List Message → List (List Message)
unfolding chunk_rounds
chunks size ms = chunk_rounds (length ms) size ms
