-- ===== src/Room/Invariant/Series.antt =====
-- The counters and the winner of a series.
use tetr_d.Base.{
  ℕ, ◌+◌, ◌≤◌, ◌≡◌, inl, inr, refl, sym, ap, ◌∙◌, subst, Bool, true, false, Option, none, some,
  arith, leb, not_le→leb, Option-cases, if◌then◌else◌,
}
use tetr_d.Base.Texts.{Text, same_text, same_text_refl}
use tetr_d.Room
use tetr_d.Room.{Pair, RoomPolicy, RoomSeries, RoomState, between_games}
use tetr_d.Room.Validation.{is_some, is_target_wins, roster_among}
use tetr_d.Room.Checks.{has_won, winner_ok}
use tetr_d.Room.Operations.{series_for, returns_between_games}
use tetr_d.Room.Handlers.RoomCommands.{patched, wins_patch_ok}
use tetr_d.Room.Handlers.MatchCommands.{wins_after, leader, series_after}
use tetr_d.Room.Invariant.Parting.{of_removal}
use tetr_d.Room.Invariant.Seats.{SeatsOf, AreApart}
use tetr_d.Room.Steps.{
  Step, watches, plays, parts, stands, sits, readies, begins_series, continues_series, cancels,
  votes_for, sets, hands_over, drops, drops_and_cancels, resumes, replaces, forfeits, starts,
  finishes, closes,
}

-- A series of at most `count` games.
pub record IsSeries (count : ℕ) (r : RoomSeries) : Type 0 where
  pub different : same_text r.roster.left r.roster.right ≡ false
  pub few_wins : is_target_wins r.target_wins ≡ true
  pub all_played : r.wins.left + r.wins.right ≤ r.games_played
  pub few_games : r.games_played ≤ count
  pub decided : r.completed ≡ has_won r
  pub names_winner : is_some r.winner_player_id ≡ r.completed
  pub winner_plays : winner_ok r.roster r.winner_player_id ≡ true

abbrev pub IsSeries? : ℕ → Option RoomSeries → Type 0
IsSeries? count none = Unit
IsSeries? count (some r) = IsSeries count r

target_from_one : (n : ℕ) → is_target_wins n ≡ true → 1 ≤ n
target_from_one n h = ground arith

series_for-IsSeries :
    (count : ℕ) (s : RoomState) (roster : Pair Text)
    → is_target_wins s.settings.target_wins ≡ true
    → same_text roster.left roster.right ≡ false
    → IsSeries count (series_for s roster)
series_for-IsSeries count s roster wins apart =
    let below : leb s.settings.target_wins 0 ≡ false =
      let some_wins = target_from_one s.settings.target_wins wins in
      not_le→leb _ _ (omega (arith, some_wins)) in
    record {
      different = apart;
      few_wins = wins;
      all_played = omega arith;
      few_games = omega arith;
      decided = ground (arith, below);
      names_winner = refl;
      winner_plays = refl;
    }

wins_after-total :
    (r : RoomSeries) (winner : Option Text)
    → (wins_after r winner).left + (wins_after r winner).right ≤ r.wins.left + r.wins.right + 1
wins_after-total r none = omega arith
wins_after-total r (some id) = ground arith

leader-has_won : (r : RoomSeries) → is_some (leader r) ≡ has_won r
leader-has_won r = ground arith

leader-winner_ok : (r : RoomSeries) → winner_ok r.roster (leader r) ≡ true
leader-winner_ok r =
    let left = same_text_refl r.roster.left in
    let right = same_text_refl r.roster.right in ground (arith, left, right)

-- A game more, and the winner once there is one.
series_after-IsSeries :
    (count : ℕ) (r : RoomSeries) (winner : Option Text)
    → IsSeries count r
    → IsSeries (count + 1) (series_after r winner)
series_after-IsSeries count r winner h =
    let total = wins_after-total r winner in
    let before = h.all_played in
    let few = h.few_games in
    record {
      different = h.different;
      few_wins = h.few_wins;
      all_played = omega (arith, total, before);
      few_games = omega (arith, few);
      decided = refl;
      names_winner = leader-has_won (series_after r winner);
      winner_plays = leader-winner_ok (series_after r winner);
    }

weaken-IsSeries? : (count : ℕ) (o : Option RoomSeries) → IsSeries? count o → IsSeries? (count + 1) o
weaken-IsSeries? count none h = tt
weaken-IsSeries? count (some r) h = record {
  different = h.different;
  few_wins = h.few_wins;
  all_played = h.all_played;
  few_games = let few = h.few_games in omega (arith, few);
  decided = h.decided;
  names_winner = h.names_winner;
  winner_plays = h.winner_plays;
}

kept_if :
    (count : ℕ) (b : Bool) (o : Option RoomSeries)
    → IsSeries? count o
    → IsSeries? count (if b then o else none)
kept_if count true o h = h
kept_if count false o h = tt

-- The series and the wins that the next one goes to.
pub record AreGames (count target_wins : ℕ) (series : Option RoomSeries) : Type 0 where
  pub targets : is_target_wins target_wins ≡ true
  pub series_fits : IsSeries? count series

abbrev pub SeriesOf : ℕ → RoomState → Type 0
SeriesOf count s = AreGames count s.settings.target_wins s.series

patched-targets :
    (s : RoomState) (patch : Room.RoomSettingsPatch)
    → is_target_wins s.settings.target_wins ≡ true
    → wins_patch_ok patch.target_wins ≡ true
    → is_target_wins (patched s.settings patch).target_wins ≡ true
patched-targets s patch old new = elim (Option-cases patch.target_wins) [
  | inl e ↦ rw e old
  | inr (n, e) ↦ rw e (sym (ap wins_patch_ok e) ∙ new)
]

abbrev DifferentIn : Option (Pair Text) → Type 0
DifferentIn none = Unit
DifferentIn (some r) = same_text r.left r.right ≡ false

roster_apart :
    (left right : Option Text) (roster : Pair Text)
    → roster_among left right ≡ some roster
    → AreApart left right
    → same_text roster.left roster.right ≡ false
roster_apart none right roster e h = cc
roster_apart (some a) none roster e h = cc
roster_apart (some a) (some b) roster e h = subst DifferentIn e h

same_series : (count : ℕ) (s : RoomState) → SeriesOf count s → SeriesOf (count + 1) s
same_series count s h = record {
  targets = h.targets;
  series_fits = weaken-IsSeries? count s.series h.series_fits;
}

-- Every step of a room keeps the counters and the winner of its series in order.
pub Step-SeriesOf :
    {s : RoomState} {policy : RoomPolicy} {joins : Option Text} {at_ms : ℕ} {t : RoomState}
    → Step s policy joins at_ms t
    → {count : ℕ} → SeatsOf s
    → SeriesOf count s
    → SeriesOf (count + 1) t
Step-SeriesOf {s} (watches q brings can few) {count} seats h = same_series count s h
Step-SeriesOf {s} (plays q seat brings can place free) {count} seats h = record {
  targets = h.targets;
  series_fits = tt;
}
Step-SeriesOf {s} (parts key m denies found) {count} seats h =
    of_removal (SeriesOf (count + 1)) s key denies
      (λ host e. record { targets = h.targets; series_fits = tt })
      (λ host e. record {
        targets = h.targets;
        series_fits = weaken-IsSeries? count s.series h.series_fits;
      })
Step-SeriesOf (stands key m found place few) seats h = record {
  targets = h.targets;
  series_fits = tt;
}
Step-SeriesOf (sits key m seat found place free) seats h = record {
  targets = h.targets;
  series_fits = tt;
}
Step-SeriesOf {s} (readies seat is_ready allowed linked) {count} seats h = same_series count s h
Step-SeriesOf {s} (begins_series origin ready votes roster l r linked e) {count} seats h = record {
  targets = h.targets;
  series_fits =
      series_for-IsSeries (count + 1) s roster h.targets
        (roster_apart s.seats.left s.seats.right roster e seats.apart);
}
Step-SeriesOf {s} (continues_series ready votes series l r linked e place) {count} seats h =
    record {
      targets = h.targets;
      series_fits = weaken-IsSeries? count (some series) (subst (IsSeries? count) e h.series_fits);
    }
Step-SeriesOf {s} (cancels place) {count} seats h = record {
  targets = h.targets;
  series_fits =
      kept_if (count + 1) (returns_between_games s) s.series
        (weaken-IsSeries? count s.series h.series_fits);
}
Step-SeriesOf {s} (votes_for seat accepted) {count} seats h = same_series count s h
Step-SeriesOf {s} (sets patch place wins few) seats h = record {
  targets = patched-targets s patch h.targets wins;
  series_fits = tt;
}
Step-SeriesOf {s} (hands_over target linked place) {count} seats h = same_series count s h
Step-SeriesOf {s} (drops key m id epoch deadline found was near still) {count} seats h =
    same_series count s h
Step-SeriesOf {s} (drops_and_cancels key m id epoch deadline found was near) {count} seats h =
    record {
      targets = h.targets;
      series_fits =
          kept_if (count + 1) (returns_between_games s) s.series
            (weaken-IsSeries? count s.series h.series_fits);
    }
Step-SeriesOf {s} (resumes key m id epoch deadline requested found was safe unused) {count} seats
      h =
    same_series count s h
Step-SeriesOf {s} (replaces key m own id epoch found was safe unused) {count} seats h =
    same_series count s h
Step-SeriesOf {s} (forfeits key m active epoch deadline requested found was e now) {count} seats h =
    same_series count s h
Step-SeriesOf {s} (starts match_id c roster e k l linked) {count} seats h = same_series count s h
Step-SeriesOf {s} (finishes q active series now e k fits) {count} seats h = record {
  targets = h.targets;
  series_fits =
      series_after-IsSeries count series q.winner_player_id
        (subst (IsSeries? count) k h.series_fits);
}
Step-SeriesOf (closes reason) seats h = record { targets = h.targets; series_fits = tt }
