-- ===== src/Room/Checks.antt =====
-- packages/room-core/src/invariants.ts: `assertRoomInvariants`, one test for each way to fail.
use tetr_d.Base.{
  ℕ, ◌+◌, Bool, true, false, not, ◌&&◌, ◌||◌, Option, none, some, List, [], ◌∷◌, length, any, leb,
  ◌==◌,
}
use tetr_d.Base.Texts.{Text, same_text, includes_text, distinct_texts}
use tetr_d.Base.Result.{Result, plain_error, guard, ◌>>◌}
use tetr_d.Board.{max_safe_integer}
use tetr_d.Room.{
  Pair, SeatIndex, seat0, seat1, RoomPhase, lobby, in_countdown, playing, between_games,
  series_complete, closed, RoomConnection, online, offline, Members, RoomSeries, ActiveRoomMatch,
  RulesStatus, draft, locked, RoomState,
}
use tetr_d.Room.Validation.{
  safe_id, room_code_test, is_valid_player, is_safe_time, is_target_wins, own_member, connected,
  is_some, is_id, at_seat, is_online,
}

abbrev pub max_denied_player_ids : ℕ
max_denied_player_ids = 64

unfoldable pub identity_ok : RoomState → Bool
identity_ok s =
    safe_id s.room_id
    && room_code_test s.room_code
    && leb s.revision max_safe_integer
    && leb 1 s.revision
    && leb s.presence_sequence max_safe_integer
    && leb s.revision s.presence_sequence

unfoldable pub times_ok : RoomState → Bool
times_ok s =
    is_safe_time s.created_at_ms
    && is_safe_time s.updated_at_ms
    && is_safe_time s.expires_at_ms
    && is_safe_time s.absolute_expires_at_ms
    && leb s.created_at_ms s.updated_at_ms
    && leb s.created_at_ms s.absolute_expires_at_ms

abbrev pub connection_epoch : RoomConnection → ℕ
connection_epoch (online id epoch) = epoch
connection_epoch (offline epoch deadline requested) = epoch

-- The connection IDs of the members before it, and its own added.
abbrev pub connection_ok : List Text → RoomConnection → Bool
connection_ok seen (online id epoch) = safe_id id && not (includes_text seen id)
connection_ok seen (offline epoch deadline requested) = is_safe_time deadline

abbrev pub seen_after : List Text → RoomConnection → List Text
seen_after seen (online id epoch) = id ∷ seen
seen_after seen (offline epoch deadline requested) = seen

-- The loop over the members, with the ordinals and connection IDs seen so far.
unfoldable pub members_ok : List ℕ → List Text → Members → Bool
members_ok ordinals seen [] = true
members_ok ordinals seen ((k, m) ∷ rest) =
    same_text k m.player.player_id
    && is_valid_player m.player
    && leb m.joined_ordinal max_safe_integer
    && leb 1 m.joined_ordinal
    && not (any (λ n. n == m.joined_ordinal) ordinals)
    && leb (connection_epoch m.connection) max_safe_integer
    && connection_ok seen m.connection
    && members_ok (m.joined_ordinal ∷ ordinals) (seen_after seen m.connection) rest

abbrev pub occupied_of : Option Text → Option Text → List Text
occupied_of none none = []
occupied_of none (some b) = b ∷ []
occupied_of (some a) none = a ∷ []
occupied_of (some a) (some b) = a ∷ b ∷ []

unfoldable pub seats_ok : RoomState → Bool
seats_ok s =
    let occupied = occupied_of s.seats.left s.seats.right in
    distinct_texts occupied && not (any (λ id. not (is_some (own_member s.members id))) occupied)

abbrev pub is_closed : RoomPhase → Bool
is_closed closed = true
is_closed _ = false

abbrev pub any_online : Members → Bool
any_online = any (λ e. is_online e.1.connection)

abbrev pub host_is_member : Members → Option Text → Bool
host_is_member members none = true
host_is_member members (some host) = is_some (own_member members host)

unfoldable pub host_ok : RoomState → Bool
host_ok s =
    host_is_member s.members s.host_player_id
    && not ((length s.members == 0) && is_some s.host_player_id)
    && not (any_online s.members && not (is_closed s.phase) && not (is_some s.host_player_id))

abbrev pub connected_id : Members → Option Text → Bool
connected_id members none = false
connected_id members (some id) = connected (own_member members id)

unfoldable pub ready_ok : RoomState → SeatIndex → Bool
ready_ok s seat = not (at_seat s.ready seat && not (connected_id s.members (at_seat s.seats seat)))

unfoldable pub denied_ok : RoomState → Bool
denied_ok s =
    leb (length s.denied_player_ids) max_denied_player_ids
    && distinct_texts s.denied_player_ids
    && not (any (λ id. not (safe_id id) || is_some (own_member s.members id)) s.denied_player_ids)

abbrev pub has_won : RoomSeries → Bool
has_won r = leb r.target_wins r.wins.left || leb r.target_wins r.wins.right

abbrev pub same_flag : Bool → Bool → Bool
same_flag true b = b
same_flag false b = not b

abbrev pub winner_ok : Pair Text → Option Text → Bool
winner_ok roster none = true
winner_ok roster (some w) = same_text w roster.left || same_text w roster.right

-- The counters and the winner of a series.
abbrev series_counters_ok : RoomSeries → Bool
series_counters_ok r =
    not (same_text r.roster.left r.roster.right)
    && is_target_wins r.target_wins
    && leb r.wins.left max_safe_integer
    && leb r.wins.right max_safe_integer
    && leb r.games_played max_safe_integer
    && leb (r.wins.left + r.wins.right) r.games_played
    && same_flag r.completed (has_won r)

abbrev series_winner_ok : RoomSeries → Bool
series_winner_ok r =
    same_flag r.completed (is_some r.winner_player_id) && winner_ok r.roster r.winner_player_id

abbrev pub series_ok : Option RoomSeries → Bool
series_ok none = true
series_ok (some r) = series_counters_ok r && series_winner_ok r

abbrev pub is_draft : RulesStatus → Bool
is_draft draft = true
is_draft locked = false

abbrev pub seated_as : Pair (Option Text) → Option RoomSeries → Bool
seated_as seats none = false
seated_as seats (some r) = is_id seats.left r.roster.left && is_id seats.right r.roster.right

abbrev pub plays_as : Option ActiveRoomMatch → Option RoomSeries → Bool
plays_as (some m) (some r) =
    same_text m.participants.left r.roster.left && same_text m.participants.right r.roster.right
plays_as _ none = false
plays_as none (some r) = false

abbrev pub completed_is : Bool → Option RoomSeries → Bool
completed_is b none = false
completed_is b (some r) = same_flag b r.completed

-- What each phase requires of the other fields.
unfoldable pub shape_ok : RoomPhase → RoomState → Bool
shape_ok lobby s =
    is_draft s.rules_status
    && not (is_some s.countdown)
    && not (is_some s.series)
    && not (is_some s.active_match)
shape_ok in_countdown s =
    not (is_draft s.rules_status)
    && is_some s.countdown
    && not (is_some s.active_match)
    && s.ready.left
    && s.ready.right
    && seated_as s.seats s.series
shape_ok playing s =
    not (is_draft s.rules_status)
    && not (is_some s.countdown)
    && not s.ready.left
    && not s.ready.right
    && plays_as s.active_match s.series
shape_ok between_games s =
    not (is_draft s.rules_status)
    && not (is_some s.countdown)
    && completed_is false s.series
    && not (is_some s.active_match)
shape_ok series_complete s =
    is_draft s.rules_status
    && not (is_some s.countdown)
    && completed_is true s.series
    && not (is_some s.active_match)
    && not s.ready.left
    && not s.ready.right
shape_ok closed s =
    (length s.members == 0)
    && not (is_some s.host_player_id)
    && (length (occupied_of s.seats.left s.seats.right) == 0)
    && not (is_some s.countdown)
    && not (is_some s.series)
    && not (is_some s.active_match)
    && is_some s.closed_reason

unfoldable pub assert_room_invariants : RoomState → Result (Unit {0})
unfolding members_ok
assert_room_invariants s = do
  guard (identity_ok s) plain_error
  guard (times_ok s) plain_error
  guard (members_ok [] [] s.members) plain_error
  guard (seats_ok s) plain_error
  guard (host_ok s) plain_error
  guard (ready_ok s seat0) plain_error
  guard (ready_ok s seat1) plain_error
  guard (is_target_wins s.settings.target_wins) plain_error
  guard (denied_ok s) plain_error
  guard (series_ok s.series) plain_error
  guard (shape_ok s.phase s) plain_error
