-- ===== src/Room/Steps/Matches.antt =====
-- The handlers of packages/room-core/src/handlers/matchCommands.ts follow the step relation.
use tetr_d.Base.{ℕ, ◌≡◌, refl, ap, false, not, ◌||◌, Option, none, some, arith, ltb, ◌==◌}
use tetr_d.Base.Texts.{Text, same_text}
use tetr_d.Room.{
  RoomPolicy, Pair, RoomCountdown, RoomSeries, ActiveRoomMatch, RoomState, MatchResult, stale_timer,
  stale_match,
}
use tetr_d.Room.Validation.{safe_id, is_some, roster_of}
use tetr_d.Room.Checks.{is_closed}
use tetr_d.Room.Handlers.RoomCommands.{is_playing}
use tetr_d.Room.Handlers.PresenceCommands.{is_in_countdown}
use tetr_d.Room.Handlers.MatchCommands.{
  both_connected, start_or_cancel, counted_down, countdown_elapsed, result_ok, finished_by,
  finish_match,
}
use tetr_d.Room.Steps.{cancels, starts, finishes, Follows, passes, commits}
use tetr_d.Room.Steps.Walk.{branch, refuse_if}
use tetr_d.Room.Steps.Walk.{pass_if}

start_or_cancel-Follows :
    {joins : Option Text} (s : RoomState) (policy : RoomPolicy) (match_id : Text) (at_ms : ℕ)
    (c : RoomCountdown) (roster : Option (Pair Text)) (series : Option RoomSeries)
    → is_closed s.phase ≡ false
    → s.countdown ≡ some c
    → roster_of s ≡ roster
    → s.series ≡ series
    → Follows s policy joins at_ms (start_or_cancel s policy match_id at_ms c roster series)
start_or_cancel-Follows s policy match_id at_ms c none series h e k l = commits _ _ _ (cancels h)
start_or_cancel-Follows s policy match_id at_ms c (some roster) none h e k l =
    commits _ _ _ (cancels h)
start_or_cancel-Follows s policy match_id at_ms c (some roster) (some series) h e k l =
    branch (not s.ready.left || not s.ready.right || not (both_connected s.members roster))
      (λ _. commits _ _ _ (cancels h))
      (λ set.
        refuse_if (not (safe_id match_id)) _
          (λ safe. commits _ _ _ (starts match_id c roster e k (ap is_some l) (ground arith))))

counted_down-Follows :
    {joins : Option Text} (s : RoomState) (policy : RoomPolicy) (id : ℕ) (match_id : Text)
    (at_ms : ℕ) (c : Option RoomCountdown)
    → is_closed s.phase ≡ false
    → s.countdown ≡ c
    → Follows s policy joins at_ms (counted_down s policy id match_id at_ms c)
counted_down-Follows s policy id match_id at_ms none h e = passes stale_timer
counted_down-Follows s policy id match_id at_ms (some c) h e =
    pass_if (not (c.countdown_id == id)) _ (λ h2. pass_if (ltb at_ms c.starts_at_ms) _ (λ h3.
      start_or_cancel-Follows s policy match_id at_ms c (roster_of s) s.series h e refl refl))

pub countdown_elapsed-Follows :
    {joins : Option Text} (s : RoomState) (policy : RoomPolicy) (id : ℕ) (match_id : Text)
    (at_ms : ℕ)
    → Follows s policy joins at_ms (countdown_elapsed s policy id match_id at_ms)
unfolding countdown_elapsed
countdown_elapsed-Follows s policy id match_id at_ms =
    pass_if (not (is_in_countdown s.phase)) _
      (λ h. counted_down-Follows s policy id match_id at_ms s.countdown (ground arith) refl)

finished_by-Follows :
    {joins : Option Text} (s : RoomState) (policy : RoomPolicy) (q : MatchResult)
    (active : Option ActiveRoomMatch) (series : Option RoomSeries)
    → s.active_match ≡ active
    → s.series ≡ series
    → Follows s policy joins q.at_ms (finished_by s policy q active series)
finished_by-Follows s policy q none series e k = passes stale_match
finished_by-Follows s policy q (some active) none e k = passes stale_match
finished_by-Follows s policy q (some active) (some series) e k =
    pass_if (not (same_text active.match_id q.match_id)) _ (λ h.
      refuse_if (not (result_ok q active.participants)) _
        (λ fits. commits _ _ _ (finishes q active series refl e k (ground arith))))

pub finish_match-Follows :
    {joins : Option Text} (s : RoomState) (policy : RoomPolicy) (q : MatchResult)
    → Follows s policy joins q.at_ms (finish_match s policy q)
unfolding finish_match
finish_match-Follows s policy q =
    pass_if (not (is_playing s.phase)) _
      (λ h. finished_by-Follows s policy q s.active_match s.series refl refl)
