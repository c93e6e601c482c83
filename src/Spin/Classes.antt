-- ===== src/Spin/Classes.antt =====
-- When packages/game-core/src/spinDetection.ts answers "mini" and "full".
use tetr_d.Base.{
  ℕ, ◌+◌, count_if, ◌≤◌, ◌<◌, ◌≡◌, ◌≢◌, ◌⊎◌, ◌↔◌, refl, ap, sym, ◌∙◌, Bool, true, false, not, ◌&&◌,
  ◌||◌, Option, some, none, List, [], ◌∷◌, all, leb, ◌==◌, if◌then◌else◌, arith, All,
}
use tetr_d.Base.Int.{ℤ, int_laws, pos, negsuc, pos_part, neg_part, ◌+ℤ◌, ◌-ℤ◌}
use tetr_d.Base.Result.{ok, ok-injective}
use tetr_d.Pieces.{
  PieceKind, i_piece, t_piece, ActivePiece, Cell, RotationState, rotation0, rotation1, rotation2,
  rotation3,
}
use tetr_d.Board.Valid.{IsBoard}
use tetr_d.Board.Sifting.{is_piece_placement_valid-eq}
use tetr_d.Board.{Board, fits, is_cell_free, occupied_at, is_safe_integer, max_safe_integer}
use tetr_d.Spin.{
  SpinClassification, no_spin, mini, full, LastSuccessfulRotation, neighbours, every_blocked,
  immobile, occupied_count, front_offsets, corners, is_t, fifth_90_kick,
  classify_all_mini_plus_spin, is_half_turn, occupied_or_boundary, delta,
}

-- One step within the safe integers.
pub record IsPlaced (p : ActivePiece) : Type 0 where
  pub left : pos_part p.x + neg_part p.x < max_safe_integer
  pub down : pos_part p.y + neg_part p.y < max_safe_integer

pub IsPlaced-safe :
    (p : ActivePiece) → IsPlaced p → (is_safe_integer p.x && is_safe_integer p.y) ≡ true
IsPlaced-safe p v = ground arith

-- No neighbouring position is free.
unfoldable pub is_stuck : Board → ActivePiece → Bool
is_stuck b p = all (λ q. not (fits b.rows q)) (neighbours p)

every_blocked-eq :
    {b : Board} (ps : List ActivePiece)
    → IsBoard b
    → All (λ p. (is_safe_integer p.x && is_safe_integer p.y) ≡ true) ps
    → every_blocked b ps ≡ ok (all (λ q. not (fits b.rows q)) ps)
unfolding every_blocked
every_blocked-eq [] v hs = refl
every_blocked-eq {b} (p ∷ ps) v (h, hs) =
    rw (is_piece_placement_valid-eq p v h, every_blocked-eq ps v hs) (split (fits b.rows p))
  where
    split :
        (f : Bool)
        → (if f then ok false else ok (all (λ q. not (fits b.rows q)) ps))
          ≡ ok (not f && all (λ q. not (fits b.rows q)) ps)
    split true = refl
    split false = refl

step_safe :
    (a : ℤ)
    → pos_part a + neg_part a < max_safe_integer
    → (is_safe_integer (a -ℤ pos 1) ≡ true)
      × (is_safe_integer (a +ℤ pos 1) ≡ true)
      × (is_safe_integer a ≡ true)
unfolding ◌+ℤ◌ ◌-ℤ◌
step_safe a h = (ground arith, ground arith, ground arith)

pub immobile-eq :
    {b : Board} (p : ActivePiece) → IsBoard b → IsPlaced p → immobile b p ≡ ok (is_stuck b p)
unfolding immobile is_stuck
immobile-eq p v placed =
    let (x1, x2, x0) = step_safe p.x placed.left in
    let (y1, y2, y0) = step_safe p.y placed.down in
    every_blocked-eq (neighbours p) v (rw (x1, y0), (rw (x2, y0), (rw (x0, y1), (rw (x0, y2), tt))))

-- The answer on a well-formed board.
unfoldable pub spin_of : Board → ActivePiece → Option LastSuccessfulRotation → SpinClassification
spin_of b p none = no_spin
spin_of b p (some r) =
    if is_t p.kind && leb 3 (occupied_count b p corners)
    then (if (occupied_count b p (front_offsets p.rotation) == 2) || fifth_90_kick r
        then full
        else mini)
    else (if is_stuck b p then mini else no_spin)

-- On a well-formed board the classification does not throw.
pub classify_all_mini_plus_spin-eq :
    {b : Board} (p : ActivePiece) (last : Option LastSuccessfulRotation)
    → IsBoard b
    → IsPlaced p
    → classify_all_mini_plus_spin b p last ≡ ok (spin_of b p last)
unfolding classify_all_mini_plus_spin spin_of
classify_all_mini_plus_spin-eq p none v placed = refl
classify_all_mini_plus_spin-eq {b} p (some r) v placed =
    rw (immobile-eq p v placed) (merge (is_t p.kind) (leb 3 (occupied_count b p corners)))
  where
    merge :
        (t three : Bool)
        → (if t
            then (if three
                then ok (
                    if (occupied_count b p (front_offsets p.rotation) == 2) || fifth_90_kick r
                    then full
                    else mini)
                else ok (if is_stuck b p then mini else no_spin))
            else ok (if is_stuck b p then mini else no_spin))
          ≡ ok (
              if t && three
              then (if (occupied_count b p (front_offsets p.rotation) == 2) || fifth_90_kick r
                  then full
                  else mini)
              else (if is_stuck b p then mini else no_spin))
    merge true true = refl
    merge true false = refl
    merge false three = refl

-- One for a cell outside the matrix and for an occupied one.
abbrev pub blocked : Board → ℤ → ℤ → ℕ
blocked b x y = if is_cell_free b.rows (record { x = x; y = y }) then 0 else 1

-- The centre of a T is one cell right of and above its origin. The two corners that it points at:
abbrev pub front_blocked : RotationState → Board → ℤ → ℤ → ℕ
front_blocked rotation0 b x y = blocked b x (y +ℤ pos 2) + blocked b (x +ℤ pos 2) (y +ℤ pos 2)
front_blocked rotation1 b x y = blocked b (x +ℤ pos 2) (y +ℤ pos 2) + blocked b (x +ℤ pos 2) y
front_blocked rotation2 b x y = blocked b x y + blocked b (x +ℤ pos 2) y
front_blocked rotation3 b x y = blocked b x (y +ℤ pos 2) + blocked b x y

-- All four corners.
abbrev pub corners_blocked : Board → ℤ → ℤ → ℕ
corners_blocked b x y =
    blocked b x (y +ℤ pos 2)
    + blocked b (x +ℤ pos 2) (y +ℤ pos 2)
    + blocked b x y
    + blocked b (x +ℤ pos 2) y

-- What makes a spin a full one.
pub record IsFullSpin (b : Board) (p : ActivePiece) (last : Option LastSuccessfulRotation)
    : Type 0 where
  pub rotation : LastSuccessfulRotation
  pub was_last : last ≡ some rotation
  pub t_spin : p.kind ≡ t_piece
  pub three_corners : 3 ≤ corners_blocked b p.x p.y
  pub front :
      (front_blocked p.rotation b p.x p.y ≡ 2)
      ⊎ ((rotation.kick_index ≡ 4) × (is_half_turn rotation.direction ≡ false))

is_t-eq : (k : PieceKind) → is_t k ≡ true → k ≡ t_piece
is_t-eq t_piece h = refl
is_t-eq i_piece h = cc
is_t-eq _ h = cc

-- The test of one corner in the source, against the test of one cell of a piece.
occupied_or_boundary_lem :
    (b : Board) (x y : ℤ)
    → occupied_or_boundary b x y ≡ not (is_cell_free b.rows (record { x = x; y = y }))
unfolding occupied_or_boundary is_cell_free occupied_at
occupied_or_boundary_lem b x y = ground arith

centre_left : (a : ℤ) → a +ℤ pos 1 +ℤ negsuc 0 ≡ a
centre_left a = omega int_laws

centre_right : (a : ℤ) → a +ℤ pos 1 +ℤ pos 1 ≡ a +ℤ pos 2
centre_right a = omega int_laws

counts_two :
    {A : Type 0} (f : A → Bool) (c d : A) (m n : ℕ)
    → ◌≡◌ {A = ℕ} (if f c then 1 else 0) m
    → (if f d then 1 else 0) ≡ n
    → count_if f (c ∷ d ∷ []) ≡ m + n
counts_two f c d m n ec ed = ground (arith, ec, ed)

counts_four :
    {A : Type 0} (f : A → Bool) (c d e g : A) (m n k l : ℕ)
    → ◌≡◌ {A = ℕ} (if f c then 1 else 0) m
    → (if f d then 1 else 0) ≡ n
    → (if f e then 1 else 0) ≡ k
    → (if f g then 1 else 0) ≡ l
    → count_if f (c ∷ d ∷ e ∷ g ∷ []) ≡ m + n + k + l
counts_four f c d e g m n k l ec ed ee eg = ground (arith, ec, ed, ee, eg)

module _ (b : Board) (p : ActivePiece) where
  corner :
      (x y x' y' : ℤ)
      → x ≡ x'
      → y ≡ y'
      → (if occupied_or_boundary b x y then 1 else 0) ≡ blocked b x' y'
  corner x y x' y' ex ey =
      rw (occupied_or_boundary_lem, ex, ey) (flip (is_cell_free b.rows (record { x = x'; y = y' })))
    where
      flip : (f : Bool) → ◌≡◌ {A = ℕ} (if not f then 1 else 0) (if f then 0 else 1)
      flip true = refl
      flip false = refl

  top_left :
      ◌≡◌ {A = ℕ}
        (if occupied_or_boundary b (p.x +ℤ pos 1 +ℤ negsuc 0) (p.y +ℤ pos 1 +ℤ pos 1) then 1 else 0)
        (blocked b p.x (p.y +ℤ pos 2))
  top_left = corner _ _ _ _ (centre_left p.x) (centre_right p.y)

  top_right :
      ◌≡◌ {A = ℕ}
        (if occupied_or_boundary b (p.x +ℤ pos 1 +ℤ pos 1) (p.y +ℤ pos 1 +ℤ pos 1) then 1 else 0)
        (blocked b (p.x +ℤ pos 2) (p.y +ℤ pos 2))
  top_right = corner _ _ _ _ (centre_right p.x) (centre_right p.y)

  bottom_left :
      ◌≡◌ {A = ℕ}
        (if occupied_or_boundary b (p.x +ℤ pos 1 +ℤ negsuc 0) (p.y +ℤ pos 1 +ℤ negsuc 0)
          then 1
          else 0)
        (blocked b p.x p.y)
  bottom_left = corner _ _ _ _ (centre_left p.x) (centre_left p.y)

  bottom_right :
      ◌≡◌ {A = ℕ}
        (if occupied_or_boundary b (p.x +ℤ pos 1 +ℤ pos 1) (p.y +ℤ pos 1 +ℤ negsuc 0) then 1 else 0)
        (blocked b (p.x +ℤ pos 2) p.y)
  bottom_right = corner _ _ _ _ (centre_right p.x) (centre_left p.y)

  -- What the source counts.
  abbrev counted : Cell → Bool
  counted d = occupied_or_boundary b (p.x +ℤ pos 1 +ℤ d.x) (p.y +ℤ pos 1 +ℤ d.y)

  occupied_count-corners : occupied_count b p corners ≡ corners_blocked b p.x p.y
  unfolding occupied_count
  occupied_count-corners =
      counts_four counted _ _ _ _ _ _ _ _ top_left top_right bottom_left bottom_right

  occupied_count-front :
      (r : RotationState) → occupied_count b p (front_offsets r) ≡ front_blocked r b p.x p.y
  unfolding occupied_count
  occupied_count-front rotation0 =
      counts_two counted (delta (negsuc 0) (pos 1)) (delta (pos 1) (pos 1)) _ _ top_left top_right
  occupied_count-front rotation1 = counts_two counted _ _ _ _ top_right bottom_right
  occupied_count-front rotation2 = counts_two counted _ _ _ _ bottom_left bottom_right
  occupied_count-front rotation3 = counts_two counted _ _ _ _ top_left bottom_left

spin_of-full :
    (b : Board) (p : ActivePiece) (last : Option LastSuccessfulRotation)
    → (spin_of b p last ≡ full) ↔ IsFullSpin b p last
unfolding spin_of
spin_of-full b p last = (found last, given)
  where
    found : (last : Option LastSuccessfulRotation) → spin_of b p last ≡ full → IsFullSpin b p last
    found none h = cc
    found (some r) h =
        let every = occupied_count-corners b p in
        let front = occupied_count-front b p p.rotation in
        record {
          rotation = r;
          was_last = refl;
          t_spin = is_t-eq p.kind (ground arith);
          three_corners = rw (← every) (ground arith);
          front = rw (← front) (ground arith);
        }

    given : IsFullSpin b p last → spin_of b p last ≡ full
    given v =
        let every = occupied_count-corners b p in
        let front = occupied_count-front b p p.rotation in
        let three : 3 ≤ occupied_count b p corners = rw every v.three_corners in
        let pointed : (occupied_count b p (front_offsets p.rotation) ≡ 2)
            ⊎ ((v.rotation.kick_index ≡ 4) × (is_half_turn v.rotation.direction ≡ false)) =
          rw front v.front in
        ground (arith, v.was_last, ap is_t v.t_spin, three, pointed)

-- On a well-formed board a lock is a full spin exactly when the last manipulation was a rotation of
-- a T, of the four corners round its centre at least three are occupied or outside the matrix, and
-- either the two corners that it points at are or the rotation was no half turn and took the kick
-- with index 4.
pub classify_all_mini_plus_spin-full :
    (b : Board) (p : ActivePiece) (last : Option LastSuccessfulRotation)
    → IsBoard b
    → IsPlaced p
    → (classify_all_mini_plus_spin b p last ≡ ok full) ↔ IsFullSpin b p last
classify_all_mini_plus_spin-full b p last v placed =
    let e = classify_all_mini_plus_spin-eq p last v placed in
    let (to, from) = spin_of-full b p last in
    (λ h. to (ok-injective (sym e ∙ h)), λ h. e ∙ ap ok (from h))

is_t-other : (k : PieceKind) → k ≢ t_piece → is_t k ≡ false
is_t-other t_piece h = absurd (h refl)
is_t-other i_piece h = refl
is_t-other _ h = refl

not-all :
    (b : Board) (ps : List ActivePiece)
    → (all (λ q. not (fits b.rows q)) ps ≡ true) ↔ All (λ q. fits b.rows q ≡ false) ps
not-all b ps = (to ps, from ps)
  where
    to :
        (ps : List ActivePiece)
        → all (λ q. not (fits b.rows q)) ps ≡ true
        → All (λ q. fits b.rows q ≡ false) ps
    to [] h = tt
    to (q ∷ qs) h = (ground arith, to qs (ground arith))

    from :
        (ps : List ActivePiece)
        → All (λ q. fits b.rows q ≡ false) ps
        → all (λ q. not (fits b.rows q)) ps ≡ true
    from [] h = refl
    from (q ∷ qs) (h, hs) = rw h (from qs hs)

spin_of-mini :
    (b : Board) (p : ActivePiece) (last : Option LastSuccessfulRotation)
    → p.kind ≢ t_piece
    → (spin_of b p last ≡ mini) ↔ ((last ≢ none) × (is_stuck b p ≡ true))
unfolding spin_of
spin_of-mini b p none other = (λ h. cc, λ h. absurd (h.0 refl))
spin_of-mini b p (some r) other =
    let not_t : is_t p.kind ≡ false = is_t-other p.kind other in
    (λ h. (λ e. cc, ground arith), λ h. ground arith)

-- A piece other than T is a mini spin exactly when its last manipulation was a rotation and it fits
-- neither one column to the left or to the right nor one row lower or higher.
pub classify_all_mini_plus_spin-mini :
    (b : Board) (p : ActivePiece) (last : Option LastSuccessfulRotation)
    → IsBoard b
    → IsPlaced p
    → p.kind ≢ t_piece
    → (classify_all_mini_plus_spin b p last ≡ ok mini) ↔ (
        (last ≢ none)
        × (fits b.rows (record p { x = p.x -ℤ pos 1 }) ≡ false)
        × (fits b.rows (record p { x = p.x +ℤ pos 1 }) ≡ false)
        × (fits b.rows (record p { y = p.y -ℤ pos 1 }) ≡ false)
        × (fits b.rows (record p { y = p.y +ℤ pos 1 }) ≡ false))
classify_all_mini_plus_spin-mini b p last v placed other =
    let e = classify_all_mini_plus_spin-eq p last v placed in
    let (to, from) = spin_of-mini b p last other in
    let (every, back) = not-all b (neighbours p) in
    (
      λ h.
          let found = to (ok-injective (sym e ∙ h)) in
          let (left, others) = every (unfold is_stuck in found.1) in
          let (right, (down, (up, _))) = others in (found.0, left, right, down, up),
      λ (turned, left, right, down, up).
          e ∙ ap ok (from (turned, unfold is_stuck in back (left, (right, (down, (up, tt)))))),
    )
