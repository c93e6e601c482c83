-- ===== src/Garbage/Applying.antt =====
-- `applyReadyGarbage` in packages/game-core/src/garbageQueue.ts: which rows reach the board.
use mathlib.Core.List.{append_assoc, append-nil}
use tetr_d.Base.{
  ℕ, suc, ◌+◌, ◌-◌, ◌≤◌, ◌<◌, ◌≡◌, ◌⊎◌, inl, inr, refl, sym, ◌∙◌, ap, true, false, List, [], ◌∷◌,
  ◌++◌, length, take, replicate, ltb, leb, min, arith, All-append, All-replicate, Bool-cases,
  length-append, length-replicate, le→leb, leb→le, not_leb→lt, ltb→lt, &&_iff,
}
use tetr_d.Base.Loops.{while_inv}
use tetr_d.Base.Result.{ok}
use tetr_d.Board.Valid.{IsBoard}
use tetr_d.Board.Insertion.{insert_result, insert_garbage_lem, AllHoles}
use tetr_d.Board.{Board, max_safe_integer}
use tetr_d.Garbage.{
  SimulationGarbagePacket, AppliedGarbage, ApplyState, applies, is_ready, apply_step, apply_loop,
  apply_ready_garbage,
}
use tetr_d.Garbage.Packets.{
  AllPackets, total, validated-ok, consume, consume_whole, take_from_whole, take_from_part,
  reduced-IsPacket,
}
use tetr_d.Garbage.Ready.{
  ready_rows, take-replicate_whole, take-replicate_part, take-nil, ready_rows_due, consume-reduced,
  consume-left, rows_kept,
}

module _ (frame cap : ℕ) (ps : List SimulationGarbagePacket) where
  record Applies (s : ApplyState) : Type 0 where
    valid : AllPackets s.next
    capped : length s.holes ≤ cap
    holed : AllHoles s.holes
    left : (k : ℕ) → consume (length s.holes + k) ps ≡ consume k s.next
    ready :
        s.holes ++ take (cap - length s.holes) (ready_rows frame s.next)
        ≡ take cap (ready_rows frame ps)

  measure : ApplyState → ℕ
  measure s = length s.next + (cap - length s.holes)

  -- Pushing `a` holes of one packet.
  module _ (holes : List ℕ) (a h : ℕ) where
    length_pushed : length (holes ++ replicate a h) ≡ length holes + a
    length_pushed = omega (arith, length-append holes (replicate a h), length-replicate a h)

    ready_pushed :
        (r : List ℕ)
        → a ≤ cap - length holes
        → (holes ++ replicate a h) ++ take (cap - length (holes ++ replicate a h)) r
          ≡ holes ++ take (cap - length holes) (replicate a h ++ r)
    ready_pushed r le =
        append_assoc holes (replicate a h) _
        ∙ ap (λ t. holes ++ t)
            (ap (λ n. replicate a h ++ take n r) (omega (arith, length_pushed))
              ∙ sym (take-replicate_whole a (cap - length holes) h r le))

    filled_pushed :
        (r : List ℕ)
        → cap - length holes ≤ a
        → (holes ++ replicate a h) ++ take (cap - length (holes ++ replicate a h)) r
          ≡ holes ++ replicate a h
    filled_pushed r le =
        let none_left : cap - length (holes ++ replicate a h) ≡ 0 = omega (arith, length_pushed) in
        rw none_left (append-nil (holes ++ replicate a h))

    left_pushed :
        (next : List SimulationGarbagePacket) (k : ℕ)
        → ((n : ℕ) → consume (length holes + n) ps ≡ consume n next)
        → consume (length (holes ++ replicate a h) + k) ps ≡ consume (a + k) next
    left_pushed next k left = ap (λ n. consume n ps) (omega (arith, length_pushed)) ∙ left (a + k)

  keeps_at :
      (next : List SimulationGarbagePacket) (holes : List ℕ)
      → let s : ApplyState = record { next = next; holes = holes } in
        Applies s
        → applies frame cap s ≡ true
        → Applies (apply_step cap s) × (measure (apply_step cap s) < measure s)
  unfolding applies apply_step measure
  keeps_at [] holes v test =
      let no_first : false ≡ true = ((&&_iff (ltb (length holes) cap) false).0 test).1 in cc
  keeps_at (p ∷ rest) holes v test =
      let tests = (&&_iff (ltb (length holes) cap) (leb p.applies_at_frame frame)).0 test in
      let room : length holes < cap = ltb→lt _ _ tests.0 in
      let space = cap - length holes in
      let before : holes
            ++ take (cap - length holes) (replicate p.amount p.hole ++ ready_rows frame rest)
          ≡ take cap (ready_rows frame ps) =
        ap (λ r. holes ++ take space r) (sym (ready_rows_due frame p rest tests.1)) ∙ v.ready in
      elim (Bool-cases (leb p.amount space)) [
        | inl e ↦
            let le : p.amount ≤ space = leb→le _ _ e in
            let all : min p.amount space ≡ p.amount = omega arith in
            rw (take_from_whole p rest space le, all)
              (
                record {
                  valid = v.valid.1;
                  capped = omega (arith, length_pushed holes p.amount p.hole);
                  holed =
                      All-append _ holes _ v.holed
                        (All-replicate _ p.amount p.hole v.valid.0.holed);
                  left = λ k.
                      left_pushed holes p.amount p.hole (p ∷ rest) k v.left
                      ∙ consume_whole p rest (p.amount + k) (omega arith)
                      ∙ ap (λ n. consume n rest) (omega arith);
                  ready = ready_pushed holes p.amount p.hole (ready_rows frame rest) le ∙ before;
                },
                omega (arith, length_pushed holes p.amount p.hole),
              )
        | inr e ↦
            let lt : space < p.amount = not_leb→lt _ _ e in
            let some_of : min p.amount space ≡ space = omega arith in
            rw (take_from_part p rest space lt, some_of)
              (
                record {
                  valid = (reduced-IsPacket p space lt v.valid.0, v.valid.1);
                  capped = omega (arith, length_pushed holes space p.hole);
                  holed =
                      All-append _ holes _ v.holed (All-replicate _ space p.hole v.valid.0.holed);
                  left = λ k.
                      left_pushed holes space p.hole (p ∷ rest) k v.left
                      ∙ consume-reduced p rest space k lt;
                  ready =
                      filled_pushed holes space p.hole
                        (ready_rows frame (record p { amount = p.amount - space } ∷ rest))
                        (omega arith)
                      ∙ ap (λ t. holes ++ t)
                          (sym (
                            take-replicate_part p.amount space p.hole (ready_rows frame rest)
                              (omega arith)))
                      ∙ before;
                },
                omega (arith, length_pushed holes space p.hole),
              )
      ]

  apply_loop-Applies :
      AllPackets ps
      → Applies (apply_loop frame cap ps) × (applies frame cap (apply_loop frame cap ps) ≡ false)
  unfolding apply_loop measure
  apply_loop-Applies valid =
      while_inv Applies measure (applies frame cap) (apply_step cap)
        (λ s v test. keeps_at s.next s.holes v test) (suc (length ps + cap)) _ (omega arith)
        (record {
          valid = valid;
          capped = omega arith;
          holed = tt;
          left = λ k. ap (λ n. consume n ps) (omega arith);
          ready = ap (λ n. take n (ready_rows frame ps)) (omega arith);
        })

  nothing_ready :
      (next : List SimulationGarbagePacket)
      → is_ready frame next ≡ false
      → ready_rows frame next ≡ []
  unfolding ready_rows
  nothing_ready [] h = refl
  nothing_ready (p ∷ rest) h = rw h

  stopped :
      (s : ApplyState)
      → applies frame cap s ≡ false
      → (cap ≤ length s.holes) ⊎ (is_ready frame s.next ≡ false)
  unfolding applies
  stopped s h = ground arith

  finished :
      (s : ApplyState)
      → Applies s
      → applies frame cap s ≡ false
      → s.holes ≡ take cap (ready_rows frame ps)
  finished s v ended = elim (stopped s ended) [
    | inl full ↦
        let none_left : cap - length s.holes ≡ 0 = omega arith in
        sym (append-nil s.holes)
        ∙ ap (λ n. s.holes ++ take n (ready_rows frame s.next)) (sym none_left)
        ∙ v.ready
    | inr idle ↦
        sym (append-nil s.holes)
        ∙ ap (λ t. s.holes ++ t) (sym (take-nil (cap - length s.holes)))
        ∙ ap (λ r. s.holes ++ take (cap - length s.holes) r) (sym (nothing_ready s.next idle))
        ∙ v.ready
  ]

-- What one application of garbage does: `holes` are the rows that are due, in the order of the
-- queue and at most `cap` of them.
pub record IsApplied (b : Board) (ps : List SimulationGarbagePacket) (frame cap : ℕ)
    (r : AppliedGarbage) : Type 0 where
  pub holes : r.applied_holes ≡ take cap (ready_rows frame ps)
  pub valid_holes : AllHoles r.applied_holes
  pub capped : length r.applied_holes ≤ cap
  pub packets : r.packets ≡ consume (length r.applied_holes) ps
  pub valid : AllPackets r.packets
  pub rows : total r.packets + length r.applied_holes ≡ total ps
  pub inserted :
      record { board = r.board; overflowed = r.overflowed } ≡ insert_result b r.applied_holes

-- With a cap of one to forty rows, garbage is applied to a well-formed board without an error: the
-- rows that are due come in, in the order of the queue and at most the cap of them, and the queue
-- keeps all others.
pub apply_ready_garbage-IsApplied :
    (b : Board) (ps : List SimulationGarbagePacket) (frame cap : ℕ)
    → IsBoard b
    → AllPackets ps
    → frame ≤ max_safe_integer
    → 1 ≤ cap
    → cap ≤ 40
    → (r : AppliedGarbage) × (apply_ready_garbage b ps frame cap ≡ ok r)
      × IsApplied b ps frame cap r
unfolding apply_ready_garbage
apply_ready_garbage-IsApplied b ps frame cap board valid safe one forty =
    let (v, ended) = apply_loop-Applies frame cap ps valid in
    let s = apply_loop frame cap ps in
    let left = consume-left ps s.holes s.next v.valid v.left in
    let r = insert_result b s.holes in
    (
      record {
        board = r.board;
        packets = s.next;
        applied_holes = s.holes;
        overflowed = r.overflowed;
      },
      rw (
        le→leb frame max_safe_integer safe,
        le→leb cap max_safe_integer (omega arith),
        le→leb 1 cap one,
        validated-ok ps valid,
        insert_garbage_lem b s.holes board (omega (arith, v.capped)) v.holed,
      ),
      record {
        holes = finished frame cap ps s v ended;
        valid_holes = v.holed;
        capped = v.capped;
        packets = left;
        valid = v.valid;
        rows = rows_kept frame cap ps s.holes s.next (finished frame cap ps s v ended) left;
        inserted = refl;
      },
    )
