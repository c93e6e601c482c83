-- ===== src/Room/Permission/Served.antt =====
-- What packages/room-core/src/handlers/presenceCommands.ts and matchCommands.ts have tested once a
-- connection, a timer or a result has committed.
use tetr_d.Base.{
  ℕ, ◌≡◌, ◌≢◌, ◌≤◌, ◌<◌, refl, Bool, true, false, not, ◌||◌, Option, none, some, List, arith, ltb,
  leb, ◌==◌, ==_iff, not_leb→lt,
}
use tetr_d.Base.Texts.{Text, same_text, same_text_sound}
use tetr_d.Base.Result.{ok}
use tetr_d.Room.{
  in_countdown, playing, closed, RoomPhase, lobby, RoomPolicy, online, offline, RoomMember,
  RoomCountdown, RoomSeries, ActiveRoomMatch, RoomState, ConnectionReplacement, MatchResult,
  RoomEffect, RoomConnection, stale_connection, stale_timer, stale_match, committed,
  invalid_command, resume_expired,
}
use tetr_d.Room.Validation.{safe_id}
use tetr_d.Room.Checks.{is_closed}
use tetr_d.Room.Handlers.RoomCommands.{is_playing}
use tetr_d.Room.Handlers.PresenceCommands.{
  connection_lost_by, lost_by, is_used, connection_resumed_by, resumed_by, connection_replaced,
  replaced_by, reconnect_elapsed, elapsed_by, room_expired, close_by_admin, is_in_countdown,
}
use tetr_d.Room.Handlers.MatchCommands.{
  countdown_elapsed, counted_down, finish_match, finished_by, result_ok,
}
use tetr_d.Room.Permission.{HasConnection, CanResume, HasTimedOut, HasFinished, HasCountedDown}
use tetr_d.Room.Permission.Guards.{past_refusal, past_stale, past_member}
use tetr_d.Room.Permission.Asked.{apart}

not_ltb→le : (a b : ℕ) → ltb a b ≡ false → b ≤ a
not_ltb→le a b h = ground (arith, h)

-- The connection named is the one found.
both_same :
    (own id : Text) (a b : ℕ)
    → (not (same_text own id) || not (a == b)) ≡ false
    → (own ≡ id) × (a ≡ b)
both_same own id a b h =
    (same_text_sound own id (ground (arith, h)), (==_iff _ _).0 (ground (arith, h)))

same_number : (a b : ℕ) → not (a == b) ≡ false → a ≡ b
same_number a b h = (==_iff _ _).0 (ground (arith, h))

in_countdown_only : (p : RoomPhase) → not (is_in_countdown p) ≡ false → p ≡ in_countdown
in_countdown_only in_countdown h = refl
in_countdown_only lobby h = cc
in_countdown_only _ h = cc

playing_only : (p : RoomPhase) → not (is_playing p) ≡ false → p ≡ playing
playing_only playing h = refl
playing_only lobby h = cc
playing_only _ h = cc

module _ (s : RoomState) {t : RoomState} {effects : List RoomEffect} (policy : RoomPolicy) where
  lost_by-online :
      (key id : Text) (epoch at_ms : ℕ) (m : RoomMember) (c : RoomConnection)
      → lost_by s policy key id epoch at_ms m c ≡ ok (committed t effects)
      → c ≡ online id epoch
  lost_by-online key id epoch at_ms m (offline e deadline requested) h = cc
  lost_by-online key id epoch at_ms m (online own e) h =
      let (same, _) =
        past_stale s (not (same_text own id) || not (e == epoch)) stale_connection h in
      let (ids, epochs) = both_same own id e epoch same in rw (ids, epochs) refl

  pub connection_lost_by-HasConnection :
      (key id : Text) (epoch at_ms : ℕ)
      → connection_lost_by s policy key id epoch at_ms ≡ ok (committed t effects)
      → HasConnection s key id epoch
  unfolding connection_lost_by
  connection_lost_by-HasConnection key id epoch at_ms h =
      let (m, found, h1) = past_member s key h in
      (m, found, lost_by-online key id epoch at_ms m m.connection h1)

  resumed_by-offline :
      (key : Text) (epoch : ℕ) (id : Text) (at_ms : ℕ) (m : RoomMember) (c : RoomConnection)
      → resumed_by s policy key epoch id at_ms m c ≡ ok (committed t effects)
      → (deadline : ℕ) × (c ≡ offline epoch deadline false)
        × (at_ms < deadline)
        × (is_used s.members id ≡ false)
  resumed_by-offline key epoch id at_ms m (online own e) h = cc
  resumed_by-offline key epoch id at_ms m (offline e deadline requested) h =
      let (same, h1) = past_stale s (not (e == epoch)) stale_connection h in
      let (still, h2) = past_refusal s (leb deadline at_ms || requested) resume_expired h1 in
      let (_, h3) = past_refusal s (not (safe_id id)) invalid_command h2 in
      let (unused, _) = past_refusal s (is_used s.members id) invalid_command h3 in
      let unasked : requested ≡ false = ground (arith, still) in
      (
        deadline,
        rw (same_number e epoch same, unasked) refl,
        not_leb→lt deadline at_ms (ground (arith, still)),
        unused,
      )

  pub connection_resumed_by-CanResume :
      (key : Text) (epoch : ℕ) (id : Text) (at_ms : ℕ)
      → connection_resumed_by s policy key epoch id at_ms ≡ ok (committed t effects)
      → CanResume s key epoch at_ms × (is_used s.members id ≡ false)
  unfolding connection_resumed_by
  connection_resumed_by-CanResume key epoch id at_ms h =
      let (m, found, h1) = past_member s key h in
      let (deadline, connection, soon, unused) =
        resumed_by-offline key epoch id at_ms m m.connection h1 in
      ((m, deadline, found, connection, soon), unused)

  replaced_by-online :
      (q : ConnectionReplacement) (m : RoomMember) (c : RoomConnection)
      → replaced_by s policy q m c ≡ ok (committed t effects)
      → (c ≡ online q.expected_connection_id q.expected_connection_epoch)
        × (is_used s.members q.new_connection_id ≡ false)
  replaced_by-online q m (offline e deadline requested) h = cc
  replaced_by-online q m (online own e) h =
      let (same, h1) =
        past_stale s
          (not (same_text own q.expected_connection_id) || not (e == q.expected_connection_epoch))
          stale_connection h in
      let (free, _) =
        past_refusal s
          (not (safe_id q.new_connection_id)
            || same_text q.new_connection_id q.expected_connection_id
            || is_used s.members q.new_connection_id)
          invalid_command h1 in
      let (ids, epochs) =
        both_same own q.expected_connection_id e q.expected_connection_epoch same in
      (rw (ids, epochs) refl, ground (arith, free))

  pub connection_replaced-permitted :
      (q : ConnectionReplacement)
      → connection_replaced s policy q ≡ ok (committed t effects)
      → HasConnection s q.player_id q.expected_connection_id q.expected_connection_epoch
        × (is_used s.members q.new_connection_id ≡ false)
  unfolding connection_replaced
  connection_replaced-permitted q h =
      let (m, found, h1) = past_member s q.player_id h in
      let (connection, unused) = replaced_by-online q m m.connection h1 in
      ((m, found, connection), unused)

  elapsed_by-offline :
      (key : Text) (epoch at_ms : ℕ) (m : RoomMember) (c : RoomConnection)
      → elapsed_by s policy key epoch at_ms m c ≡ ok (committed t effects)
      → (deadline : ℕ) × (requested : Bool) × (c ≡ offline epoch deadline requested)
        × (deadline ≤ at_ms)
  elapsed_by-offline key epoch at_ms m (online own e) h = cc
  elapsed_by-offline key epoch at_ms m (offline e deadline requested) h =
      let (same, h1) = past_stale s (not (e == epoch)) stale_connection h in
      let (due, _) = past_stale s (ltb at_ms deadline) stale_timer h1 in
      (deadline, requested, rw (same_number e epoch same) refl, not_ltb→le at_ms deadline due)

  pub reconnect_elapsed-HasTimedOut :
      (key : Text) (epoch at_ms : ℕ)
      → reconnect_elapsed s policy key epoch at_ms ≡ ok (committed t effects)
      → HasTimedOut s key epoch at_ms
  unfolding reconnect_elapsed
  reconnect_elapsed-HasTimedOut key epoch at_ms h =
      let (m, found, h1) = past_member s key h in
      let (deadline, requested, connection, due) =
        elapsed_by-offline key epoch at_ms m m.connection h1 in
      (m, deadline, requested, found, connection, due)

  pub room_expired-permitted :
      (at_ms : ℕ)
      → room_expired s policy at_ms ≡ ok (committed t effects)
      → (s.phase ≢ closed) × (s.expires_at_ms ≤ at_ms)
  unfolding room_expired
  room_expired-permitted at_ms h =
      let (due, _) = past_stale s (is_closed s.phase || ltb at_ms s.expires_at_ms) stale_timer h in
      (
        apart is_closed s.phase closed (ground (arith, due)) refl,
        not_ltb→le at_ms s.expires_at_ms (ground (arith, due)),
      )

  pub close_by_admin-permitted :
      (at_ms : ℕ) → close_by_admin s policy at_ms ≡ ok (committed t effects) → s.phase ≢ closed
  unfolding close_by_admin
  close_by_admin-permitted at_ms h =
      apart is_closed s.phase closed (past_stale s (is_closed s.phase) stale_timer h).0 refl

  counted_down-some :
      (id : ℕ) (match_id : Text) (at_ms : ℕ) (o : Option RoomCountdown)
      → counted_down s policy id match_id at_ms o ≡ ok (committed t effects)
      → (c : RoomCountdown) × (o ≡ some c) × (c.countdown_id ≡ id) × (c.starts_at_ms ≤ at_ms)
  counted_down-some id match_id at_ms none h = cc
  counted_down-some id match_id at_ms (some c) h =
      let (same, h1) = past_stale s (not (c.countdown_id == id)) stale_timer h in
      let (due, _) = past_stale s (ltb at_ms c.starts_at_ms) stale_timer h1 in
      (c, refl, same_number c.countdown_id id same, not_ltb→le at_ms c.starts_at_ms due)

  pub countdown_elapsed-HasCountedDown :
      (id : ℕ) (match_id : Text) (at_ms : ℕ)
      → countdown_elapsed s policy id match_id at_ms ≡ ok (committed t effects)
      → HasCountedDown s id at_ms
  unfolding countdown_elapsed
  countdown_elapsed-HasCountedDown id match_id at_ms h =
      let (counting, h1) = past_stale s (not (is_in_countdown s.phase)) stale_timer h in
      let (c, found, same, due) = counted_down-some id match_id at_ms s.countdown h1 in
      (c, in_countdown_only s.phase counting, found, same, due)

  finished_by-some :
      (q : MatchResult) (o : Option ActiveRoomMatch) (r : Option RoomSeries)
      → finished_by s policy q o r ≡ ok (committed t effects)
      → (active : ActiveRoomMatch) × (o ≡ some active)
        × (active.match_id ≡ q.match_id)
        × (result_ok q active.participants ≡ true)
  finished_by-some q none r h = cc
  finished_by-some q (some active) none h = cc
  finished_by-some q (some active) (some series) h =
      let (same, h1) = past_stale s (not (same_text active.match_id q.match_id)) stale_match h in
      let (fine, _) = past_refusal s (not (result_ok q active.participants)) invalid_command h1 in
      (active, refl, same_text_sound _ _ (ground (arith, same)), ground (arith, fine))

  pub finish_match-HasFinished :
      (q : MatchResult) → finish_match s policy q ≡ ok (committed t effects) → HasFinished s q
  unfolding finish_match
  finish_match-HasFinished q h =
      let (on, h1) = past_stale s (not (is_playing s.phase)) stale_match h in
      let (active, found, same, fine) = finished_by-some q s.active_match s.series h1 in
      (active, playing_only s.phase on, found, same, fine)
