-- ===== src/Service/Processor/Conserved.antt =====
-- processBatch of internal/sms/service/processor.go loses no message and answers none twice.
use mathlib.Core.List.{append_assoc, append-nil, flatten, map-append, perm_append_comm}
use mathlib.Core.List.Perm
use sms_mno_gateway.Base.{
  perm_swap_front, ℕ, ◌<◌, not, Option, none, some, List, [], ◌∷◌, ◌++◌, map, keep, leb, length,
  inl, inr, ◌⊎◌, ◌≡◌, refl, Perm, keep_split-perm, Bool-cases, Option-cases,
}
use sms_mno_gateway.Domain.Network.{safaricom}
use sms_mno_gateway.Domain.Errors.{Error}
use sms_mno_gateway.Domain.Message.{Message}
use sms_mno_gateway.Domain.Result.{SendResult, BatchResult, new_batch_result, add_results}
use sms_mno_gateway.Domain.Outcome.{origin, AreResultsOf, new_retryable_result-IsResultOf}
use sms_mno_gateway.Domain.Batch.{
  merge-origins, new_batch_result-origins, IsSorted, origins, add_results-IsSorted,
  add_results-origins, AreResultsOf-origins, new_batch_result-IsSorted,
}
use sms_mno_gateway.Ports.Senders.{MnoSender, IsFaithful, IsFaithfulFactory}
use sms_mno_gateway.Service.Processor.{Processor}
use sms_mno_gateway.Service.Processor.Grouping.{group_by_sender, chunks}
use sms_mno_gateway.Service.Processor.Chunks.{chunks_cover}
use sms_mno_gateway.Service.Processor.Groups.{group_by_sender_groups}
use sms_mno_gateway.Service.Processor.Batch.{
  BatchSend, Regular, is_sdp_promo, all_failed, rate_limit_n, send_chunk, process_chunk,
  process_chunks, process_groups, process_sdp_batch, sdp_part, sdp_unless_empty,
  regular_unless_empty, split_batch, process_batch,
}

-- The batch result `c` is the sorted `b` with a result added for each of the messages.
record Adds (ms : List Message) (b c : BatchResult) : Type 0 where
  sorted : IsSorted c
  added : Perm (origins c) (map origin ms ++ origins b)

add_results-Adds :
    (ms : List Message) (rs : List SendResult) (b : BatchResult)
    → IsSorted b
    → AreResultsOf ms rs
    → Adds ms b (add_results rs b)
add_results-Adds ms rs b s h = record {
  sorted = add_results-IsSorted rs b s;
  added = rw (← AreResultsOf-origins ms rs h) (add_results-origins rs b);
}

Adds-nil : (b : BatchResult) → IsSorted b → Adds [] b b
Adds-nil b s = record { sorted = s; added = Perm.rfl }

Adds-append :
    (ms ns : List Message) (b c d : BatchResult) → Adds ms b c → Adds ns c d → Adds (ms ++ ns) b d
Adds-append ms ns b c d f g = record {
  sorted = g.sorted;
  added =
      rw (map-append origin ms ns, append_assoc (map origin ms) (map origin ns) (origins b))
        (Perm.trans g.added (
          Perm.trans (Perm.append_left (map origin ns) f.added)
            (perm_swap_front (map origin ns) (map origin ms) (origins b))));
}

Adds-perm : (ms ns : List Message) (b c : BatchResult) → Perm ms ns → Adds ms b c → Adds ns b c
Adds-perm ms ns b c p f = record {
  sorted = f.sorted;
  added = Perm.trans f.added (Perm.append_right (origins b) (Perm.map origin p));
}

all_failed-AreResultsOf :
    (e : Error) (now : ℕ) (ms : List Message) → AreResultsOf ms (all_failed e now ms)
unfolding all_failed
all_failed-AreResultsOf e now [] = tt
all_failed-AreResultsOf e now (m ∷ ms) =
    (new_retryable_result-IsResultOf m e 0 now, all_failed-AreResultsOf e now ms)

module _ {W : Type 0} (p : Processor W) where
  module _ (send : BatchSend W)
      (law : (ms : List Message) (w : W) → AreResultsOf ms (send ms w).0) where
    send_chunk-AreResultsOf :
        (chunk : List Message) (limited : Option Error) (w : W)
        → AreResultsOf chunk (send_chunk p send chunk limited w).0
    unfolding send_chunk
    send_chunk-AreResultsOf chunk (some e) w = all_failed-AreResultsOf _ _ chunk
    send_chunk-AreResultsOf chunk none w = law chunk w

    process_chunks-Adds :
        (cs : List (List Message)) (b : BatchResult) (w : W)
        → IsSorted b
        → Adds (flatten cs) b (process_chunks p send cs b w).0
    unfolding process_chunks process_chunk flatten
    process_chunks-Adds [] b w s = Adds-nil b s
    process_chunks-Adds (chunk ∷ cs) b w s =
        let limited = rate_limit_n p (length chunk) w in
        let r = send_chunk p send chunk limited.0 limited.1 in
        let first =
          add_results-Adds chunk r.0 b s (send_chunk-AreResultsOf chunk limited.0 limited.1) in
        Adds-append chunk (flatten cs) b (add_results r.0 b) _ first
          (process_chunks-Adds cs (add_results r.0 b) r.1 first.sorted)

    process_groups-Adds :
        (gs : List (List Message)) (b : BatchResult) (w : W)
        → 0 < p.sdp_batch_size
        → IsSorted b
        → Adds (flatten gs) b (process_groups p send gs b w).0
    unfolding process_groups flatten
    process_groups-Adds [] b w size s = Adds-nil b s
    process_groups-Adds (g ∷ gs) b w size s =
        let r = process_chunks p send (chunks p.sdp_batch_size g) b w in
        let whole = (chunks_cover p.sdp_batch_size g size).0 in
        let first = process_chunks-Adds (chunks p.sdp_batch_size g) b w s in
        Adds-append g (flatten gs) b r.0 _ (rw whole at first)
          (process_groups-Adds gs r.0 r.1 size first.sorted)

    process_sdp_batch-Adds :
        (ms : List Message) (b : BatchResult) (w : W)
        → 0 < p.sdp_batch_size
        → IsSorted b
        → Adds ms b (process_sdp_batch p send ms b w).0
    unfolding process_sdp_batch
    process_sdp_batch-Adds ms b w size s =
        Adds-perm _ ms b _ (group_by_sender_groups ms).0
          (process_groups-Adds (group_by_sender ms) b w size s)

  -- What the SDP part leaves over is still to be answered, and nothing else.
  record Leaves (promo : List Message) (b : BatchResult) (r : BatchResult × List Message)
      : Type 0 where
    sorted : IsSorted r.0
    finished :
        (rest : List Message) (c : BatchResult)
        → Adds (rest ++ r.1) r.0 c
        → Adds (rest ++ promo) b c

  Leaves-none : (promo : List Message) (b c : BatchResult) → Adds promo b c → Leaves promo b (c, [])
  Leaves-none promo b c f = record {
    sorted = f.sorted;
    finished = λ rest d g.
        Adds-perm (promo ++ (rest ++ [])) (rest ++ promo) b d
          (rw (append-nil rest) (perm_append_comm promo rest))
          (Adds-append promo (rest ++ []) b c d f g);
  }

  sdp_part-Leaves :
      (s : MnoSender W ⊎ Error) (promo : List Message) (b : BatchResult) (w : W)
      → 0 < p.sdp_batch_size
      → IsSorted b
      → ((t : MnoSender W) → s ≡ inl t → IsFaithful t)
      → Leaves promo b (sdp_part p s promo b w).0
  unfolding sdp_part
  sdp_part-Leaves (inr e) promo b w size s law =
      Leaves-none promo b _ (add_results-Adds promo _ b s (all_failed-AreResultsOf e _ promo))
  sdp_part-Leaves (inl t) promo b w size s law = elim (Option-cases t.send_batch) [
    | inl e ↦ rw (e, sdp_part) (record { sorted = s; finished = λ rest c g. g })
    | inr (send, e) ↦
        rw (e, sdp_part)
          (Leaves-none promo b _ (
            process_sdp_batch-Adds send (λ ms v. (law t refl).sends_batch send ms v e) promo b w
              size s))
  ]

  sdp_unless_empty-Leaves :
      (promo : List Message) (b : BatchResult) (w : W)
      → 0 < p.sdp_batch_size
      → IsSorted b
      → IsFaithfulFactory p.router
      → Leaves promo b (sdp_unless_empty p promo b w).0
  unfolding sdp_unless_empty
  sdp_unless_empty-Leaves [] b w size s law = record { sorted = s; finished = λ rest c g. g }
  sdp_unless_empty-Leaves (m ∷ ms) b w size s law =
      sdp_part-Leaves _ (m ∷ ms) b w size s (law.by_network safaricom)

  -- What the callers of the worker pool rely on: a sorted result for each message.
  abbrev pub IsCompletePool : Regular W → Type 0
  IsCompletePool regular =
      (ms : List Message) (w : W)
      → IsSorted (regular ms w).0 × Perm (origins (regular ms w).0) (map origin ms)

  module _ (regular : Regular W) (pool : IsCompletePool regular) where
    regular_unless_empty-Adds :
        (ms : List Message) (b : BatchResult) (w : W)
        → IsSorted b
        → Adds ms b (regular_unless_empty p regular ms b w).0
    unfolding regular_unless_empty
    regular_unless_empty-Adds [] b w s = Adds-nil b s
    regular_unless_empty-Adds (m ∷ ms) b w s =
        let r = (regular (m ∷ ms) w).0 in
        let answered = pool (m ∷ ms) w in
        record {
          sorted =
              add_results-IsSorted r.failed _
                (add_results-IsSorted r.retryables _ (add_results-IsSorted r.successful b s));
          added = Perm.trans (merge-origins r b) (Perm.append_right (origins b) answered.1);
        }

    split_batch-Adds :
        (ms : List Message) (w : W)
        → 0 < p.sdp_batch_size
        → IsFaithfulFactory p.router
        → Adds ms new_batch_result (split_batch p regular ms w).0
    unfolding split_batch
    split_batch-Adds ms w size law =
        let promo = keep is_sdp_promo ms in
        let others = keep (λ m. not (is_sdp_promo m)) ms in
        let sdp = sdp_unless_empty p promo new_batch_result w in
        let leaves =
          sdp_unless_empty-Leaves promo new_batch_result w size new_batch_result-IsSorted law in
        Adds-perm (others ++ promo) ms new_batch_result _
          (Perm.trans (perm_append_comm others promo) (keep_split-perm is_sdp_promo ms))
          (leaves.finished others _
            (regular_unless_empty-Adds (others ++ sdp.0.1) sdp.0.0 sdp.1 leaves.sorted))

    -- With at least one message to an SDP call, with senders whose results are about their messages
    -- and a worker pool that answers each message, processBatch returns a sorted result in which each
    -- message of the batch has exactly one result, on whichever path it went.
    pub process_batch_complete :
        (ms : List Message) (w : W)
        → 0 < p.sdp_batch_size
        → IsFaithfulFactory p.router
        → IsSorted (process_batch p regular ms w).0
          × Perm (origins (process_batch p regular ms w).0) (map origin ms)
    unfolding process_batch
    process_batch_complete ms w size law = elim (Bool-cases (leb p.sdp_batch_size 1)) [
      | inl off ↦ rw off (pool ms w)
      | inr on ↦ rw on (
          let a = split_batch-Adds ms w size law in
          (a.sorted, rw (new_batch_result-origins, append-nil (map origin ms)) at a.added))
    ]
