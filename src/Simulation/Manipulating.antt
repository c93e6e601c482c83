-- ===== src/Simulation/Manipulating.antt =====
-- Moves and rotations of packages/game-core/src/playerSimulation.ts: what they keep, and how often
-- they can put off the lock.
use tetr_d.Base.{
  ℕ, ◌+◌, ◌≤◌, ◌≡◌, ◌⊎◌, inl, inr, refl, sym, ap, ◌∙◌, Bool, true, false, ◌&&◌, not, Option, none,
  some, List, arith, Bool-cases, ltb, if◌then◌else◌, max,
}
use tetr_d.Base.Int.{pos, negsuc, int_laws, ◌+ℤ◌, ◌-ℤ◌}
use tetr_d.Base.Result.{ok, ◌>>=◌}
use tetr_d.Kicks.{target_rotation}
use tetr_d.Pieces.{Cell, ActivePiece, RotationDirection}
use tetr_d.Board.{fits, is_safe_integer}
use tetr_d.Board.Valid.{IsBoard}
use tetr_d.Board.Sifting.{is_piece_placement_valid-eq}
use tetr_d.Rotation.{RotationResult, rotated, not_rotated, board_as_playfield, try_rotate}
use tetr_d.Rotation.Kicked.{Explains, try_rotate-Explains}
use tetr_d.Rotation.Playfields.{board_as_playfield-ok}
use tetr_d.Spin.{LastSuccessfulRotation}
use tetr_d.Generation.Requests.{Side, left, right}
use tetr_d.Simulation.{
  MotionState, accept_manipulation, manipulated, move_horizontal, rotate_active, after_rotation,
  side_step,
}
use tetr_d.Board.Reach.{InReach, fits-InReach}

-- What a manipulation of `p` leaves: a piece of the same kind that fits the same board; the lock
-- timer is put back at most as often as the limit allows.
pub record IsManipulated (s : MotionState) (p : ActivePiece) (t : MotionState) : Type 0 where
  pub piece : ActivePiece
  pub active : t.active ≡ some piece
  pub board : t.board ≡ s.board
  pub fit : fits s.board.rows piece ≡ true
  pub kind : piece.kind ≡ p.kind
  pub resets : t.lock_resets ≤ max s.lock_resets s.lock_reset_limit
  pub timer :
      ((t.lock_frames ≡ s.lock_frames) × (t.lock_resets ≡ s.lock_resets))
      ⊎ ((t.lock_frames ≡ 0) × (t.lock_resets ≡ s.lock_resets + 1))

reset_once :
    (grounded : Bool) (resets limit frames : ℕ)
    → let again = grounded && ltb resets limit in
      ((if again then resets + 1 else resets) ≤ max resets limit)
      × ((((if again then 0 else frames) ≡ frames)
            × ((if again then resets + 1 else resets) ≡ resets))
          ⊎ (((if again then 0 else frames) ≡ 0)
              × ((if again then resets + 1 else resets) ≡ resets + 1)))
reset_once true resets limit frames = elim (Bool-cases (ltb resets limit)) [
  | inl e ↦ rw e (ground (arith, e), inr (refl, refl))
  | inr e ↦ rw e (omega arith, inl (refl, refl))
]
reset_once false resets limit frames = (omega arith, inl (refl, refl))

manipulated-IsManipulated :
    (s : MotionState) (p q : ActivePiece) (rotation : Option LastSuccessfulRotation)
    (grounded : Bool)
    → fits s.board.rows q ≡ true
    → q.kind ≡ p.kind
    → IsManipulated s p (manipulated s q rotation grounded)
manipulated-IsManipulated s p q rotation grounded fit kind =
    let (r, t) = reset_once grounded s.lock_resets s.lock_reset_limit s.lock_frames in
    record { piece = q; active = refl; board = refl; fit = fit; kind = kind; resets = r; timer = t }

unmoved-IsManipulated :
    (s : MotionState) (p : ActivePiece)
    → s.active ≡ some p
    → fits s.board.rows p ≡ true
    → IsManipulated s p s
unmoved-IsManipulated s p active fit = record {
  piece = p;
  active = active;
  board = refl;
  fit = fit;
  kind = refl;
  resets = omega arith;
  timer = inl (refl, refl);
}

one_lower-safe :
    (p : ActivePiece) → InReach p → (is_safe_integer p.x && is_safe_integer (p.y -ℤ pos 1)) ≡ true
unfolding ◌-ℤ◌
one_lower-safe p (x0, x1, y0, y1) = ground arith

accept_manipulation-IsManipulated :
    (s : MotionState) (p q : ActivePiece) (rotation : Option LastSuccessfulRotation)
    → s.active ≡ some p
    → IsBoard s.board
    → fits s.board.rows p ≡ true
    → q.kind ≡ p.kind
    → (is_safe_integer q.x && is_safe_integer q.y) ≡ true
    → (moved : Bool) × (t : MotionState) × (accept_manipulation s q rotation ≡ ok (moved, t))
      × (moved ≡ fits s.board.rows q)
      × IsManipulated s p t
unfolding accept_manipulation
accept_manipulation-IsManipulated s p q rotation active v fit kind safe =
    let tested = is_piece_placement_valid-eq q v safe in
    let below =
      is_piece_placement_valid-eq (record p { y = p.y -ℤ pos 1 }) v
        (one_lower-safe p (fits-InReach s.board.rows p fit)) in
    elim (Bool-cases (fits s.board.rows q)) [
      | inl e ↦ (
        true,
        _,
        rw (active, tested, e, below),
        sym e,
        manipulated-IsManipulated s p q rotation
            (not (fits s.board.rows (record p { y = p.y -ℤ pos 1 }))) e kind,
      )
      | inr e ↦ (false, s, rw (active, tested, e), sym e, unmoved-IsManipulated s p active fit)
    ]

move_horizontal-some :
    (s : MotionState) (p : ActivePiece) (d : Side)
    → s.active ≡ some p
    → move_horizontal s d ≡ accept_manipulation s (record p { x = p.x +ℤ side_step d }) none
unfolding move_horizontal
move_horizontal-some s p d active =
    ap
      (λ a. elim a [
        | none ↦ ok (false, s)
        | some p ↦ accept_manipulation s (record p { x = p.x +ℤ side_step d }) none
      ])
      active

-- One column to the left or to the right.
abbrev pub shifted : Side → ActivePiece → ActivePiece
shifted left p = record p { x = p.x -ℤ pos 1 }
shifted right p = record p { x = p.x +ℤ pos 1 }

-- What a step to the side leaves: the piece one column on if it fits there, or else all as it was.
-- A step that succeeds is no rotation, and restarts the lock timer only on the ground and within the
-- limit.
abbrev pub IsStep : MotionState → ActivePiece → Side → Bool → MotionState → Type 0
IsStep s p d false t = (fits s.board.rows (shifted d p) ≡ false) × (t ≡ s)
IsStep s p d true t =
    (fits s.board.rows (shifted d p) ≡ true)
    × (t.active ≡ some (shifted d p))
    × (t.last_rotation ≡ none)
    × IsManipulated s p t

shifted_lem : (p : ActivePiece) (d : Side) → record p { x = p.x +ℤ side_step d } ≡ shifted d p
shifted_lem p left =
    let same : p.x +ℤ negsuc 0 ≡ p.x -ℤ pos 1 = omega int_laws in ap (λ x. record p { x = x }) same
shifted_lem p right = refl

side-safe :
    (p : ActivePiece) (d : Side)
    → InReach p
    → (is_safe_integer (shifted d p).x && is_safe_integer (shifted d p).y) ≡ true
unfolding ◌+ℤ◌ ◌-ℤ◌
side-safe p left (x0, x1, y0, y1) = ground arith
side-safe p right (x0, x1, y0, y1) = ground arith

accept_manipulation-IsStep :
    (s : MotionState) (p : ActivePiece) (d : Side)
    → s.active ≡ some p
    → IsBoard s.board
    → fits s.board.rows p ≡ true
    → (shifted d p).kind ≡ p.kind
    → (moved : Bool) × (t : MotionState) × (accept_manipulation s (shifted d p) none
        ≡ ok (moved, t))
      × IsStep s p d moved t
unfolding accept_manipulation
accept_manipulation-IsStep s p d active v fit kind =
    let tested =
      is_piece_placement_valid-eq (shifted d p) v
        (side-safe p d (fits-InReach s.board.rows p fit)) in
    let below =
      is_piece_placement_valid-eq (record p { y = p.y -ℤ pos 1 }) v
        (one_lower-safe p (fits-InReach s.board.rows p fit)) in
    elim (Bool-cases (fits s.board.rows (shifted d p))) [
      | inl e ↦ (
        true,
        _,
        rw (active, tested, e, below),
        (
          e,
          refl,
          refl,
          manipulated-IsManipulated s p (shifted d p) none
              (not (fits s.board.rows (record p { y = p.y -ℤ pos 1 }))) e kind,
        ),
      )
      | inr e ↦ (false, s, rw (active, tested, e), (e, refl))
    ]

shifted-kind : (p : ActivePiece) (d : Side) → (shifted d p).kind ≡ p.kind
shifted-kind p left = refl
shifted-kind p right = refl

-- On a well-formed board a step to the side never throws. It succeeds exactly if the piece fits one
-- column to that side, where it then stands with all else of the piece as it was, and the lock timer
-- is put back within the limit only; otherwise nothing changes.
pub move_horizontal-IsStep :
    (s : MotionState) (p : ActivePiece) (d : Side)
    → s.active ≡ some p
    → IsBoard s.board
    → fits s.board.rows p ≡ true
    → (moved : Bool) × (t : MotionState) × (move_horizontal s d ≡ ok (moved, t))
      × IsStep s p d moved t
move_horizontal-IsStep s p d active v fit =
    let (moved, t, made, w) = accept_manipulation-IsStep s p d active v fit (shifted-kind p d) in
    let as_written =
      move_horizontal-some s p d active
      ∙ ap (λ q. accept_manipulation s q none) (shifted_lem p d) in
    (moved, t, as_written ∙ made, w)

reach-safe : (p : ActivePiece) → InReach p → (is_safe_integer p.x && is_safe_integer p.y) ≡ true
reach-safe p (x0, x1, y0, y1) = ground arith

turned-IsManipulated :
    (s : MotionState) (p : ActivePiece) (d : RotationDirection) (kicks : List Cell)
    (r : RotationResult)
    → s.active ≡ some p
    → IsBoard s.board
    → fits s.board.rows p ≡ true
    → Explains s.board.rows p (target_rotation p.rotation d) 0 kicks r
    → (t : MotionState) × (after_rotation s d r ≡ ok t) × IsManipulated s p t
turned-IsManipulated s p d kicks (not_rotated q) active v fit w =
    (s, refl, unmoved-IsManipulated s p active fit)
turned-IsManipulated s p d kicks (rotated q kick k) active v fit
      (m, at, found, same, fits_there, before) =
    let (moved, t, made, _, w) =
      accept_manipulation-IsManipulated s p q (some (record { direction = d; kick_index = k }))
        active v fit (ap (λ a. a.kind) same)
        (reach-safe q (fits-InReach s.board.rows q fits_there)) in
    (t, rw made, w)

rotate_active-some :
    (s : MotionState) (p : ActivePiece) (d : RotationDirection)
    → s.active ≡ some p
    → rotate_active s d ≡ (
        board_as_playfield s.board >>= λ playfield.
        try_rotate playfield p d >>= λ result. after_rotation s d result)
unfolding rotate_active
rotate_active-some s p d active =
    ap
      (λ a. elim a [
        | none ↦ ok s
        | some p ↦ board_as_playfield s.board >>= λ playfield.
            try_rotate playfield p d >>= λ result. after_rotation s d result
      ])
      active

-- On a well-formed board a rotation never throws, the piece fits afterwards, and the lock timer is
-- put back within the limit only.
pub rotate_active-IsManipulated :
    (s : MotionState) (p : ActivePiece) (d : RotationDirection)
    → s.active ≡ some p
    → IsBoard s.board
    → fits s.board.rows p ≡ true
    → (t : MotionState) × (rotate_active s d ≡ ok t) × IsManipulated s p t
rotate_active-IsManipulated s p d active v fit =
    let (kicks, r, tests, made, w) = try_rotate-Explains s.board p d v in
    let (t, accepted, done) = turned-IsManipulated s p d kicks r active v fit w in
    (t, rotate_active-some s p d active ∙ rw (board_as_playfield-ok v, made) accepted, done)
