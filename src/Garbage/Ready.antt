-- ===== src/Garbage/Ready.antt =====
-- Which rows of a garbage queue of packages/game-core/src/garbageQueue.ts are due at a frame.
use tetr_d.Base.{
  ℕ, zero, suc, ◌+◌, ◌-◌, ◌≤◌, ◌<◌, ◌≡◌, inl, inr, refl, sym, ◌∙◌, ap, true, List, [], ◌∷◌, ◌++◌,
  length, take, replicate, leb, if◌then◌else◌, min, arith, Bool-cases, length-append, length-take,
  length-replicate, le→leb, leb→le, not_leb→lt, not_le→leb,
}
use tetr_d.Garbage.{SimulationGarbagePacket}
use tetr_d.Garbage.Packets.{AllPackets, total, consume, consume-zero}

-- The holes of the rows of the packets that are due, up to the first packet that is not.
unfoldable pub ready_rows : ℕ → List SimulationGarbagePacket → List ℕ
ready_rows frame [] = []
ready_rows frame (p ∷ ps) =
    if leb p.applies_at_frame frame then replicate p.amount p.hole ++ ready_rows frame ps else []

pub take-replicate_whole :
    (a n h : ℕ) (r : List ℕ) → a ≤ n → take n (replicate a h ++ r) ≡ replicate a h ++ take (n - a) r
take-replicate_whole zero n h r le = ap (λ k. take k r) (omega arith)
take-replicate_whole (suc a) zero h r le = absurd (omega arith)
take-replicate_whole (suc a) (suc n) h r le =
    ap (λ l. h ∷ l)
      (take-replicate_whole a n h r (omega arith)
        ∙ ap (λ k. replicate a h ++ take k r) (omega arith))

pub take-replicate_part :
    (a n h : ℕ) (r : List ℕ) → n ≤ a → take n (replicate a h ++ r) ≡ replicate n h
take-replicate_part a zero h r le = refl
take-replicate_part zero (suc n) h r le = absurd (omega arith)
take-replicate_part (suc a) (suc n) h r le =
    ap (λ l. h ∷ l) (take-replicate_part a n h r (omega arith))

pub take-nil : (n : ℕ) → take {A = ℕ} n [] ≡ []
take-nil zero = refl
take-nil (suc n) = refl

sub_lt : (a c k : ℕ) → c + k < a → k < a - c
sub_lt a c k h = omega arith

pub ready_rows_due :
    (frame : ℕ) (p : SimulationGarbagePacket) (rest : List SimulationGarbagePacket)
    → leb p.applies_at_frame frame ≡ true
    → ready_rows frame (p ∷ rest) ≡ replicate p.amount p.hole ++ ready_rows frame rest
unfolding ready_rows
ready_rows_due frame p rest due = rw due

pub consume-reduced :
    (p : SimulationGarbagePacket) (rest : List SimulationGarbagePacket) (c k : ℕ)
    → c < p.amount
    → consume (c + k) (p ∷ rest) ≡ consume k (record p { amount = p.amount - c } ∷ rest)
unfolding consume
consume-reduced p rest c k h = elim (Bool-cases (leb p.amount (c + k))) [
  | inl e ↦
      let le : p.amount - c ≤ k = omega (arith, leb→le _ _ e) in
      rw (e, le→leb _ _ le) (ap (λ n. consume n rest) (omega arith))
  | inr e ↦
      let lt : c + k < p.amount = not_leb→lt _ _ e in
      rw (e, not_le→leb _ _ (sub_lt p.amount c k lt))
        (ap (λ n. record p { amount = n } ∷ rest) (omega arith))
]

total-consume :
    (n : ℕ) (ps : List SimulationGarbagePacket) → total (consume n ps) + min n (total ps) ≡ total ps
unfolding total consume
total-consume n [] = omega arith
total-consume n (p ∷ ps) = elim (Bool-cases (leb p.amount n)) [
  | inl e ↦ rw e (omega (arith, total-consume (n - p.amount) ps, leb→le _ _ e))
  | inr e ↦ rw e (omega (arith, not_leb→lt _ _ e))
]

pub consume-left :
    (ps : List SimulationGarbagePacket) (holes : List ℕ) (next : List SimulationGarbagePacket)
    → AllPackets next
    → ((k : ℕ) → consume (length holes + k) ps ≡ consume k next)
    → next ≡ consume (length holes) ps
consume-left ps holes next valid left =
    sym (consume-zero next valid) ∙ sym (left 0) ∙ ap (λ n. consume n ps) (omega arith)

length-ready_rows-le :
    (frame : ℕ) (ps : List SimulationGarbagePacket) → length (ready_rows frame ps) ≤ total ps
unfolding ready_rows total
length-ready_rows-le frame [] = omega arith
length-ready_rows-le frame (p ∷ ps) = elim (Bool-cases (leb p.applies_at_frame frame)) [
  | inl e ↦ rw e (
      omega (
        arith,
        length-append (replicate p.amount p.hole) (ready_rows frame ps),
        length-replicate p.amount p.hole,
        length-ready_rows-le frame ps,
      ))
  | inr e ↦ rw e (omega arith)
]

pub rows_kept :
    (frame cap : ℕ) (ps : List SimulationGarbagePacket) (holes : List ℕ)
    (next : List SimulationGarbagePacket)
    → holes ≡ take cap (ready_rows frame ps)
    → next ≡ consume (length holes) ps
    → total next + length holes ≡ total ps
rows_kept frame cap ps holes next e left =
    let few : length holes ≤ total ps =
      omega (
        arith,
        ap length e,
        length-take cap (ready_rows frame ps),
        length-ready_rows-le frame ps,
      ) in
    omega (arith, ap total left, total-consume (length holes) ps)
