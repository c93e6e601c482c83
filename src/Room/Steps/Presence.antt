-- ===== src/Room/Steps/Presence.antt =====
-- The handlers of packages/room-core/src/handlers/presenceCommands.ts follow the step relation.
use tetr_d.Base.{
  ℕ, ◌+◌, ◌≡◌, refl, Bool, true, false, not, ◌&&◌, ◌||◌, Option, none, some, arith, if◌then◌else◌,
  ltb, leb, ◌==◌, ◌≤◌,
}
use tetr_d.Base.Texts.{Text, same_text}
use tetr_d.Room.{
  RoomPolicy, Pair, SeatIndex, RoomConnection, online, offline, RoomMember, RoomCountdown,
  RoomSeries, ActiveRoomMatch, RoomState, RoomTransition, ConnectionReplacement, MatchResult,
  RoomCommand, stale_connection, stale_timer, stale_match, RoomClosedReason, expired,
  invalid_command, in_countdown,
}
use tetr_d.Room
use tetr_d.Room.Validation.{safe_id, own_member, is_some, seat_of}
use tetr_d.Room.Checks.{is_closed}
use tetr_d.Room.Handlers.RoomCommands.{is_playing}
use tetr_d.Room.Handlers.PresenceCommands.{
  is_in_countdown, lost, lost_by, connection_lost_by, is_used, resumed_by, connection_resumed_by,
  replaced_by, connection_replaced, timed_out, elapsed_by, reconnect_elapsed, room_expired,
  close_by_admin,
}
use tetr_d.Room.Steps.{
  drops, drops_and_cancels, resumes, replaces, forfeits, parts, closes, Follows, passes, commits,
}
use tetr_d.Room.Steps.Walk.{branch, refuse_if, past_member}
use tetr_d.Room.Steps.Walk.{pass_if}

one_grace : (at_ms a b : ℕ) (c : Bool) → at_ms + (if c then a else b) ≤ at_ms + a + b
one_grace at_ms a b true = omega arith
one_grace at_ms a b false = omega arith

lost-Follows :
    {joins : Option Text} (s : RoomState) (policy : RoomPolicy) (key : Text) (m : RoomMember)
    (id : Text) (epoch at_ms : ℕ)
    → own_member s.members key ≡ some m
    → m.connection ≡ online id epoch
    → Follows s policy joins at_ms (lost s policy key m epoch at_ms)
lost-Follows s policy key m id epoch at_ms found was =
    branch (is_in_countdown s.phase && is_some (seat_of s key))
      (λ h. commits _ _ _ (drops_and_cancels key m id epoch _ found was (one_grace at_ms _ _ _)))
      (λ h. commits _ _ _ (drops key m id epoch _ found was (one_grace at_ms _ _ _) h))

lost_by-Follows :
    {joins : Option Text} (s : RoomState) (policy : RoomPolicy) (key id : Text) (expected at_ms : ℕ)
    (m : RoomMember) (c : RoomConnection)
    → own_member s.members key ≡ some m
    → m.connection ≡ c
    → Follows s policy joins at_ms (lost_by s policy key id expected at_ms m c)
lost_by-Follows s policy key id expected at_ms m (offline epoch deadline requested) found was =
    passes stale_connection
lost_by-Follows s policy key id expected at_ms m (online own epoch) found was =
    pass_if (not (same_text own id) || not (epoch == expected)) _
      (λ h. lost-Follows s policy key m own epoch at_ms found was)

pub connection_lost_by-Follows :
    {joins : Option Text} (s : RoomState) (policy : RoomPolicy) (key id : Text) (expected at_ms : ℕ)
    → Follows s policy joins at_ms (connection_lost_by s policy key id expected at_ms)
unfolding connection_lost_by
connection_lost_by-Follows s policy key id expected at_ms =
    past_member key
      (λ m found. lost_by-Follows s policy key id expected at_ms m m.connection found refl)

resumed_by-Follows :
    {joins : Option Text} (s : RoomState) (policy : RoomPolicy) (key : Text) (expected : ℕ)
    (id : Text) (at_ms : ℕ) (m : RoomMember) (c : RoomConnection)
    → own_member s.members key ≡ some m
    → m.connection ≡ c
    → Follows s policy joins at_ms (resumed_by s policy key expected id at_ms m c)
resumed_by-Follows s policy key expected id at_ms m (online own epoch) found was =
    passes stale_connection
resumed_by-Follows s policy key expected id at_ms m (offline epoch deadline requested) found was =
    pass_if (not (epoch == expected)) _ (λ h. refuse_if (leb deadline at_ms || requested) _ (λ h2.
      refuse_if (not (safe_id id)) _ (λ safe. refuse_if (is_used s.members id) _ (λ new.
        commits _ _ _ (resumes key m id epoch deadline requested found was (ground arith) new)))))

pub connection_resumed_by-Follows :
    {joins : Option Text} (s : RoomState) (policy : RoomPolicy) (key : Text) (expected : ℕ)
    (id : Text) (at_ms : ℕ)
    → Follows s policy joins at_ms (connection_resumed_by s policy key expected id at_ms)
unfolding connection_resumed_by
connection_resumed_by-Follows s policy key expected id at_ms =
    past_member key
      (λ m found. resumed_by-Follows s policy key expected id at_ms m m.connection found refl)

replaced_by-Follows :
    {joins : Option Text} (s : RoomState) (policy : RoomPolicy) (q : ConnectionReplacement)
    (m : RoomMember) (c : RoomConnection)
    → own_member s.members q.player_id ≡ some m
    → m.connection ≡ c
    → Follows s policy joins q.at_ms (replaced_by s policy q m c)
replaced_by-Follows s policy q m (offline epoch deadline requested) found was =
    passes stale_connection
replaced_by-Follows s policy q m (online own epoch) found was =
    pass_if
      (not (same_text own q.expected_connection_id) || not (epoch == q.expected_connection_epoch)) _
      (λ h.
        refuse_if
          (not (safe_id q.new_connection_id)
            || same_text q.new_connection_id q.expected_connection_id
            || is_used s.members q.new_connection_id)
          _
          (λ fits. commits _ _ _ (
            replaces q.player_id m own q.new_connection_id epoch found was (ground arith)
              (ground arith))))

pub connection_replaced-Follows :
    {joins : Option Text} (s : RoomState) (policy : RoomPolicy) (q : ConnectionReplacement)
    → Follows s policy joins q.at_ms (connection_replaced s policy q)
unfolding connection_replaced
connection_replaced-Follows s policy q =
    past_member q.player_id (λ m found. replaced_by-Follows s policy q m m.connection found refl)

timed_out-Follows :
    {joins : Option Text} (s : RoomState) (policy : RoomPolicy) (key : Text) (m : RoomMember)
    (epoch deadline : ℕ) (requested : Bool) (at_ms : ℕ) (seat : Option SeatIndex)
    (active : Option ActiveRoomMatch) (is_played : Bool)
    → own_member s.members key ≡ some m
    → m.connection ≡ offline epoch deadline requested
    → s.active_match ≡ active
    → is_playing s.phase ≡ is_played
    → Follows s policy joins at_ms
        (timed_out s policy key m epoch deadline requested at_ms seat active is_played)
timed_out-Follows s policy key m epoch deadline requested at_ms (some seat) (some active) true found
      was e now =
    pass_if (requested || active.resolution_requested) _
      (λ h. commits _ _ _ (forfeits key m active epoch deadline requested found was e now))
timed_out-Follows s policy key m epoch deadline requested at_ms none active is_played found was e
      now =
    commits _ _ _ (parts key m false found)
timed_out-Follows s policy key m epoch deadline requested at_ms (some seat) none is_played found was
      e now =
    commits _ _ _ (parts key m false found)
timed_out-Follows s policy key m epoch deadline requested at_ms (some seat) (some active) false
      found was e now =
    commits _ _ _ (parts key m false found)

elapsed_by-Follows :
    {joins : Option Text} (s : RoomState) (policy : RoomPolicy) (key : Text) (expected at_ms : ℕ)
    (m : RoomMember) (c : RoomConnection)
    → own_member s.members key ≡ some m
    → m.connection ≡ c
    → Follows s policy joins at_ms (elapsed_by s policy key expected at_ms m c)
elapsed_by-Follows s policy key expected at_ms m (online own epoch) found was =
    passes stale_connection
elapsed_by-Follows s policy key expected at_ms m (offline epoch deadline requested) found was =
    pass_if (not (epoch == expected)) _ (λ h. pass_if (ltb at_ms deadline) _ (λ h2.
      timed_out-Follows s policy key m epoch deadline requested at_ms (seat_of s key) s.active_match
        (is_playing s.phase) found was refl refl))

pub reconnect_elapsed-Follows :
    {joins : Option Text} (s : RoomState) (policy : RoomPolicy) (key : Text) (expected at_ms : ℕ)
    → Follows s policy joins at_ms (reconnect_elapsed s policy key expected at_ms)
unfolding reconnect_elapsed
reconnect_elapsed-Follows s policy key expected at_ms =
    past_member key
      (λ m found. elapsed_by-Follows s policy key expected at_ms m m.connection found refl)

pub room_expired-Follows :
    {joins : Option Text} (s : RoomState) (policy : RoomPolicy) (at_ms : ℕ)
    → Follows s policy joins at_ms (room_expired s policy at_ms)
unfolding room_expired
room_expired-Follows s policy at_ms =
    pass_if (is_closed s.phase || ltb at_ms s.expires_at_ms) _ (λ h. commits _ _ _ (closes expired))

pub close_by_admin-Follows :
    {joins : Option Text} (s : RoomState) (policy : RoomPolicy) (at_ms : ℕ)
    → Follows s policy joins at_ms (close_by_admin s policy at_ms)
unfolding close_by_admin
close_by_admin-Follows s policy at_ms =
    pass_if (is_closed s.phase) _ (λ h. commits _ _ _ (closes Room.server_shutdown))
