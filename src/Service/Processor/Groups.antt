-- ===== src/Service/Processor/Groups.antt =====
-- What groupBySender of internal/sms/service/processor.go makes of a list of messages.
use mathlib.Core.List.{append_assoc, append-nil, flatten}
use mathlib.Core.List.Perm
use sms_mno_gateway.Base.{
  ℕ, zero, suc, ◌≤◌, ◌<◌, Bool, not, List, [], ◌∷◌, ◌++◌, map, keep, Str, str_eq, str_eq_sound,
  length, ◌≡◌, refl, ap, All, Perm, arith, inl, inr, Bool-cases, keep_split-perm, length-keep_split,
}
use sms_mno_gateway.Domain.Message.{Message}
use sms_mno_gateway.Service.Processor.Grouping.{Groups, add_to_group, group_loop, group_by_sender}

abbrev pub has_sender : Str → Message → Bool
has_sender s m = str_eq s m.sender

-- A group takes its messages out of the list, and the loop goes on with the others.
group_loop_cons :
    (ms : List Message) (s : Str) (g : List Message) (gs : Groups)
    → group_loop ms ((s, g) ∷ gs)
      ≡ (s, g ++ keep (has_sender s) ms) ∷ group_loop (keep (λ m. not (has_sender s m)) ms) gs
unfolding group_loop keep add_to_group
group_loop_cons [] s g gs = simp append-nil
group_loop_cons (m ∷ ms) s g gs = elim (Bool-cases (str_eq s m.sender)) [
  | inl same ↦ rw (
    same,
    group_loop_cons ms s (g ++ m ∷ []) gs,
    append_assoc g (m ∷ []) (keep (has_sender s) ms),
  )
  | inr other ↦ rw (other, group_loop_cons ms s g (add_to_group m gs))
]

-- The first message opens the first group, which is all messages of its sender in their order; the
-- other groups are those of the remaining messages.
pub group_by_sender-cons :
    (m : Message) (ms : List Message)
    → group_by_sender (m ∷ ms)
      ≡ (m ∷ keep (has_sender m.sender) ms)
        ∷ group_by_sender (keep (λ k. not (has_sender m.sender k)) ms)
unfolding group_by_sender group_loop add_to_group
group_by_sender-cons m ms = ap (map (λ g. g.1)) (group_loop_cons ms m.sender (m ∷ []) [])

-- All messages of a group have one sender, and there is at least one.
abbrev pub IsGroup : List Message → Type 0
IsGroup g = (s : Str) × (0 < length g) × All (λ m. s ≡ m.sender) g

keep-All : (s : Str) (ms : List Message) → All (λ m. s ≡ m.sender) (keep (has_sender s) ms)
unfolding keep
keep-All s [] = tt
keep-All s (m ∷ ms) = elim (Bool-cases (str_eq s m.sender)) [
  | inl e ↦ rw e (str_eq_sound s m.sender e, keep-All s ms)
  | inr e ↦ rw e (keep-All s ms)
]

groups_below :
    (n : ℕ) (ms : List Message)
    → length ms ≤ n
    → Perm (flatten (group_by_sender ms)) ms × All IsGroup (group_by_sender ms)
unfolding flatten
groups_below n [] bound = unfold group_by_sender group_loop in (Perm.nil, tt)
groups_below zero (m ∷ ms) bound = absurd (omega arith)
groups_below (suc n) (m ∷ ms) bound =
    let others = keep (λ k. not (has_sender m.sender k)) ms in
    let ih = groups_below n others (omega (arith, length-keep_split (has_sender m.sender) ms)) in
    rw (group_by_sender-cons m ms) (
      Perm.cons m (
          Perm.trans (Perm.append_left (keep (has_sender m.sender) ms) ih.0)
            (keep_split-perm (has_sender m.sender) ms)),
      ((m.sender, omega arith, (refl, keep-All m.sender ms)), ih.1),
    )

-- The groups hold all messages, each once, and each group is the non-empty batch of one sender.
pub group_by_sender_groups :
    (ms : List Message) → Perm (flatten (group_by_sender ms)) ms × All IsGroup (group_by_sender ms)
group_by_sender_groups ms = groups_below (length ms) ms (omega arith)
