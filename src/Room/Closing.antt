-- ===== src/Room/Closing.antt =====
-- How a room of packages/room-core ends once its time is up.
use tetr_d.Base.{
  ℕ, ◌+◌, ◌≤◌, ◌≡◌, ◌≢◌, ◌⊎◌, inl, inr, refl, ◌∙◌, true, false, ◌&&◌, some, List, [], ◌∷◌, arith,
  leb, ltb, le→leb, Bool-cases,
}
use tetr_d.Base.Result.{ok, Result}
use tetr_d.Board.{max_safe_integer}
use tetr_d.Room.{
  RoomPolicy, RoomState, RoomEffect, state_changed, room_closed_for, expired, closed, committed,
  RoomCommand, RoomClosedReason, server_shutdown, RoomErrorCode, StaleReason, RoomTransition,
  rejected, ignored, invalid_command, room_closed, stale_connection, stale_timer, stale_match,
  RoomPhase, lobby, playing, member_join, connection_lost, connection_resumed, connection_replace,
  timer_reconnect_elapsed, timer_countdown_elapsed, match_finished, timer_room_expired, admin_close,
}
use tetr_d.Room.Validation.{is_valid_policy, is_safe_time, own_member}
use tetr_d.Room.Checks.{is_closed}
use tetr_d.Room.Operations.{commit, stamped, close_state, expiry_for}
use tetr_d.Room.Handlers.RoomCommands.{is_playing}
use tetr_d.Room.Handlers.PresenceCommands.{
  connection_lost_by, connection_resumed_by, connection_replaced, reconnect_elapsed, room_expired,
  close_by_admin,
}
use tetr_d.Room.Handlers.MatchCommands.{countdown_elapsed, finish_match}
use tetr_d.Room.Transition.{transition_room, time_of}
use tetr_d.Room.Steps.{closes}
use tetr_d.Room.Invariant.Asserted.{IsRoom, IsRoom-passes}
use tetr_d.Room.Safety.{IsAdmissible, commit-passes, stamped-IsRoom}

-- The operator's close gives its own reason.
abbrev pub closing_reason : RoomCommand → RoomClosedReason
closing_reason (admin_close at_ms) = server_shutdown
closing_reason _ = expired

-- A room that has been closed, with what the transition tells.
pub record IsOver (s : RoomState) (reason : RoomClosedReason) (t : RoomState)
    (effects : List RoomEffect) : Type 0 where
  pub is_over : t.phase ≡ closed
  pub nobody_left : t.members ≡ []
  pub says_why : t.closed_reason ≡ some reason
  pub expires_now : t.expires_at_ms ≡ t.updated_at_ms
  pub tells :
      effects
      ≡ room_closed_for reason ∷ state_changed (s.revision + 1) (s.presence_sequence + 1) ∷ []

-- A command that leaves the room as it was.
abbrev pub IsKept : RoomState → RoomCommand → RoomPolicy → Type 0
IsKept t d policy =
    ((code : RoomErrorCode) × (transition_room t d policy ≡ ok (rejected t code t.revision)))
    ⊎ ((reason : StaleReason) × (transition_room t d policy ≡ ok (ignored t reason)))

closed-expiry :
    (s : RoomState) (now : ℕ) (policy : RoomPolicy)
    → is_closed s.phase ≡ true
    → expiry_for s now policy ≡ now
unfolding expiry_for
closed-expiry s now policy e = rw e refl

closing : RoomState → RoomCommand → RoomPolicy → Result RoomTransition
closing s c policy =
    commit s (close_state s (closing_reason c)) (time_of c)
      (room_closed_for (closing_reason c) ∷ []) policy true

module _ (s : RoomState) (policy : RoomPolicy) (valid : is_valid_policy policy ≡ true)
    (unlocked : is_closed s.phase ≡ false) (idle : is_playing s.phase ≡ false) where
  closing_commit :
      (c : RoomCommand)
      → is_safe_time (time_of c) ≡ true
      → leb s.expires_at_ms (time_of c) ≡ true
      → ltb (time_of c) s.expires_at_ms ≡ false
      → transition_room s c policy ≡ closing s c policy
  unfolding transition_room room_expired close_by_admin closing
  closing_commit (timer_room_expired at_ms) safe due late =
      rw (safe, valid, unlocked, idle, late) refl
  closing_commit (admin_close at_ms) safe due late = rw (safe, valid, unlocked, idle) refl
  closing_commit (member_join q) safe due late = rw (safe, valid, unlocked, idle, due) refl
  closing_commit _ safe due late = rw (safe, valid, unlocked, idle, due) refl

-- Nothing changes a closed room.
closed-IsKept :
    (t : RoomState) (d : RoomCommand) (policy : RoomPolicy)
    → t.phase ≡ closed
    → t.members ≡ []
    → IsKept t d policy
unfolding transition_room own_member connection_lost_by connection_resumed_by connection_replaced
    reconnect_elapsed room_expired close_by_admin countdown_elapsed finish_match
closed-IsKept t d policy over empty =
    elim (Bool-cases (is_safe_time (time_of d) && is_valid_policy policy)) [
      | inr e ↦ rw e (inl (invalid_command, refl))
      | inl e ↦ kept d e
    ]
  where
    kept :
        (d : RoomCommand)
        → (is_safe_time (time_of d) && is_valid_policy policy) ≡ true
        → IsKept t d policy
    kept (connection_lost key id epoch at_ms) e = rw (e, over, empty) (inr (stale_connection, refl))
    kept (connection_resumed key epoch id at_ms) e =
        rw (e, over, empty) (inr (stale_connection, refl))
    kept (connection_replace q) e = rw (e, over, empty) (inr (stale_connection, refl))
    kept (timer_reconnect_elapsed key epoch at_ms) e =
        rw (e, over, empty) (inr (stale_connection, refl))
    kept (timer_countdown_elapsed id match_id at_ms) e = rw (e, over) (inr (stale_timer, refl))
    kept (match_finished q) e = rw (e, over) (inr (stale_match, refl))
    kept (timer_room_expired at_ms) e = rw (e, over) (inr (stale_timer, refl))
    kept (admin_close at_ms) e = rw (e, over) (inr (stale_timer, refl))
    kept (member_join q) e = rw (e, over) (inl (room_closed, refl))
    kept _ e = rw (e, over) (inl (room_closed, refl))

-- In a room in order that is neither closed nor in a match and whose time is up, every admissible
-- command under a valid policy closes it, whatever it asks: nobody is left in it, it expires at
-- once, and the effects tell the reason, which is that it has expired, or the server's shut-down if
-- that is what the command says. After that no command under any policy changes the room.
pub transition_room-IsOver :
    (s : RoomState) (c d : RoomCommand) (policy other : RoomPolicy)
    → IsRoom s
    → IsAdmissible s c policy
    → is_valid_policy policy ≡ true
    → s.phase ≢ closed
    → s.phase ≢ playing
    → s.expires_at_ms ≤ time_of c
    → (t : RoomState) × (effects : List RoomEffect) × (transition_room s c policy
        ≡ ok (committed t effects))
      × IsOver s (closing_reason c) t effects
      × IsKept t d other
unfolding closing
transition_room-IsOver s c d policy other h a valid unclosed idle due =
    let soon = a.deadlines_safe in
    let safe = le→leb (time_of c) max_safe_integer (omega (arith, soon)) in
    let reason = closing_reason c in
    let next = stamped s (close_state s reason) (time_of c) policy true in
    let order = stamped-IsRoom (closes reason) true a.commit_left soon a.new_connection h in
    (
      next,
      _,
      closing_commit s policy valid (is_closed-other s.phase unclosed)
            (is_playing-other s.phase idle) c safe (le→leb s.expires_at_ms (time_of c) due)
            (not_late s.expires_at_ms (time_of c) due)
          ∙ commit-passes s (close_state s reason) (time_of c) (room_closed_for reason ∷ []) policy
              true (IsRoom-passes next order),
      record {
        is_over = refl;
        nobody_left = refl;
        says_why = refl;
        expires_now = closed-expiry (close_state s reason) next.updated_at_ms policy refl;
        tells = refl;
      },
      closed-IsKept next d other refl refl,
    )
  where
    is_closed-other : (p : RoomPhase) → p ≢ closed → is_closed p ≡ false
    is_closed-other closed h = absurd (h refl)
    is_closed-other lobby h = refl
    is_closed-other _ h = refl

    is_playing-other : (p : RoomPhase) → p ≢ playing → is_playing p ≡ false
    is_playing-other playing h = absurd (h refl)
    is_playing-other lobby h = refl
    is_playing-other _ h = refl

    not_late : (a b : ℕ) → a ≤ b → ltb b a ≡ false
    not_late a b h = ground (arith, h)
