-- ===== src/Generation/Generating.antt =====
-- `generate` of packages/game-core/src/pieceGenerationController.ts: the kind, the hold slot and the
-- place of the next piece.
use tetr_d.Base.{ℕ, ◌+◌, ◌≡◌, Bool, true, false, Option, none, some, if◌then◌else◌}
use tetr_d.Pieces.{PieceKind, RotationDirection}
use tetr_d.Generation.{PieceGenerationOptions, PieceGenerationResult, GeneratedPlacement}

-- Which piece comes next, and what becomes of the hold slot and the piece source.
pub data IsChosen (kinds : ℕ → PieceKind) (o : PieceGenerationOptions) (drawn : ℕ)
    (r : PieceGenerationResult) (drawn' : ℕ) : PieceKind → Type 0 where
  incoming :
      r.used_ihs ≡ false
      → r.hold ≡ o.held_kind
      → r.can_hold ≡ o.can_hold_without_buffer
      → drawn' ≡ drawn
      → IsChosen kinds o drawn r drawn' o.incoming_kind
  swapped :
      (kind : PieceKind)
      → r.used_ihs ≡ true
      → o.held_kind ≡ some kind
      → r.hold ≡ some o.incoming_kind
      → r.can_hold ≡ false
      → drawn' ≡ drawn
      → IsChosen kinds o drawn r drawn' kind
  from_source :
      r.used_ihs ≡ true
      → o.held_kind ≡ none
      → r.hold ≡ some o.incoming_kind
      → r.can_hold ≡ false
      → drawn' ≡ drawn + 1
      → IsChosen kinds o drawn r drawn' (kinds drawn)

abbrev result_of :
    Bool
    → PieceGenerationOptions
    → Option RotationDirection
    → GeneratedPlacement
    → PieceGenerationResult
result_of used_ihs o rotation g = record {
  active = g.active;
  hold = if used_ihs then some o.incoming_kind else o.held_kind;
  can_hold = if used_ihs then false else o.can_hold_without_buffer;
  lifted_rows = g.lifted_rows;
  used_ihs = used_ihs;
  attempted_irs = rotation;
  used_irs = g.used_irs;
  irs_kick_index = g.irs_kick_index;
}
