-- ===== src/Room/Permission/Asked.antt =====
-- What packages/room-core/src/handlers/roomCommands.ts has tested once a request has committed.
use tetr_d.Base.{
  ℕ, ◌≡◌, ◌≢◌, ◌⊎◌, inl, inr, refl, Bool, true, false, not, ◌&&◌, ◌||◌, Option, none, some, List,
  arith, ap, leb, not_leb→lt,
}
use tetr_d.Base.Texts.{Text, same_text, same_text_refl, includes_text}
use tetr_d.Base.Result.{ok}
use tetr_d.Room.{
  SeatIndex, RoomPhase, lobby, in_countdown, playing, between_games, series_complete, closed,
  RoomPolicy, RoomMember, RulesStatus, draft, locked, RoomSettingsPatch, RoomState, JoinRequest,
  Participation, as_player, as_spectator, VersionedRequest, RoomEffect, committed, room_closed,
  invalid_command, room_kicked, already_in_room, spectating_disabled, spectator_limit,
  invalid_room_phase, active_match_running, no_change, rules_locked, target_not_member,
  target_not_connected, cannot_kick_self, cannot_kick_active_player, series_not_complete,
  seat_occupied,
}
use tetr_d.Room.Validation.{
  safe_id, is_valid_player, own_member, has_member, is_some, is_online, connected, seat_of,
  spectator_count, at_seat,
}
use tetr_d.Room.Checks.{is_closed, is_draft}
use tetr_d.Room.Handlers.RoomCommands.{
  join, join_as, leave, set_seat, change_seat, same_seat, set_ready, ready_in, update_settings,
  transfer_host, kick, is_locked_phase, rematch, is_series_complete, is_finished_series, close_room,
  is_playing, is_free,
}
use tetr_d.Room.Steps.Walk.{is_some→none, not_is_some→some}
use tetr_d.Room.Permission.{
  IsActor, IsHostActor, IsOpenPhase, IsSeated, CanWatch, IsJoiner, NotSeated, CanKick,
  HasConnection,
}
use tetr_d.Room.Permission.Guards.{
  past_refusal, actor_error-IsActor, host_error-IsHostActor, past_open, past_seat, is_online-online,
}

-- Told apart by a test.
pub apart {ℓ} : {A : Type ℓ} (test : A → Bool) (a b : A) → test a ≡ false → test b ≡ true → a ≢ b
apart test a b differs agrees e = let same = ap test e in cc

can_watch :
    (s : RoomState) (policy : RoomPolicy)
    → not s.settings.allow_spectators ≡ false
    → leb policy.max_spectators (spectator_count s) ≡ false
    → CanWatch s policy
can_watch s policy shown room_left = (ground arith, not_leb→lt _ _ room_left)

not_in_match :
    (s : RoomState) (o : Option SeatIndex)
    → (is_some o && is_playing s.phase) ≡ false
    → (o ≡ none) ⊎ (s.phase ≢ playing)
not_in_match s none h = inl refl
not_in_match s (some seat) h = inr (apart is_playing s.phase playing h refl)

complete : (p : RoomPhase) → is_series_complete p ≡ true → p ≡ series_complete
complete series_complete h = refl
complete lobby h = cc
complete in_countdown h = cc
complete playing h = cc
complete between_games h = cc
complete closed h = cc

connected-online :
    (s : RoomState) (key : Text)
    → not (connected (own_member s.members key)) ≡ false
    → (m : RoomMember) → own_member s.members key ≡ some m
    → is_online m.connection ≡ true
connected-online s key h m found = let same = ap connected found in ground arith

free_seat : (o : Option Text) → not (is_free o) ≡ false → o ≡ none
free_seat none h = refl
free_seat (some id) h = cc

idle_seat :
    (s : RoomState) (o : Option SeatIndex) (rules : RulesStatus)
    → (is_some o && (not (is_draft rules) || is_locked_phase s.phase)) ≡ false
    → (o ≡ none)
      ⊎ ((rules ≡ draft)
          × (s.phase ≢ in_countdown)
          × (s.phase ≢ playing)
          × (s.phase ≢ between_games))
idle_seat s none rules h = inl refl
idle_seat s (some seat) locked h = cc
idle_seat s (some seat) draft h = inr (
  refl,
  apart is_locked_phase s.phase in_countdown h refl,
  apart is_locked_phase s.phase playing h refl,
  apart is_locked_phase s.phase between_games h refl,
)

module _ (s : RoomState) {t : RoomState} {effects : List RoomEffect} (policy : RoomPolicy) where
  join_as-place :
      (q : JoinRequest) (p : Participation)
      → join_as s policy q p ≡ ok (committed t effects)
      → ((p ≡ as_player) × IsOpenPhase s) ⊎ ((p ≡ as_spectator) × CanWatch s policy)
  join_as-place q as_player h = inl (refl, (past_open s invalid_room_phase h).0)
  join_as-place q as_spectator h =
      let (shown, h1) = past_refusal s (not s.settings.allow_spectators) spectating_disabled h in
      let (room_left, _) =
        past_refusal s (leb policy.max_spectators (spectator_count s)) spectator_limit h1 in
      inr (refl, can_watch s policy shown room_left)

  pub join-IsJoiner :
      (q : JoinRequest) → join s policy q ≡ ok (committed t effects) → IsJoiner s policy q
  unfolding join
  join-IsJoiner q h =
      let (unclosed, h1) = past_refusal s (is_closed s.phase) room_closed h in
      let (_, h2) =
        past_refusal s (not (is_valid_player q.player && safe_id q.connection_id)) invalid_command
          h1 in
      let (allowed, h3) =
        past_refusal s (includes_text s.denied_player_ids q.player.player_id) room_kicked h2 in
      let (new, h4) = past_refusal s (has_member s.members q.player.player_id) already_in_room h3 in
      record {
        not_closed = apart is_closed s.phase closed unclosed refl;
        allowed = allowed;
        new = is_some→none _ new;
        place = join_as-place q q.participation h4;
      }

  pub leave-permitted :
      (q : VersionedRequest)
      → leave s policy q ≡ ok (committed t effects)
      → IsActor s q × (NotSeated s q.actor_player_id ⊎ (s.phase ≢ playing))
  unfolding leave
  leave-permitted q h =
      let (actor, h1) = actor_error-IsActor s q h in
      let (idle, _) =
        past_refusal s (is_some (seat_of s q.actor_player_id) && is_playing s.phase)
          active_match_running h1 in
      (actor, not_in_match s (seat_of s q.actor_player_id) idle)

  set_seat-open :
      (q : VersionedRequest) (seat : Option SeatIndex)
      → set_seat s policy q seat ≡ ok (committed t effects)
      → IsActor s q × IsOpenPhase s × (change_seat s policy q seat ≡ ok (committed t effects))
  unfolding set_seat
  set_seat-open q seat h =
      let (actor, h1) = actor_error-IsActor s q h in
      let (is_open_at, h2) = past_open s invalid_room_phase h1 in
      let (_, h3) = past_refusal s (same_seat (seat_of s q.actor_player_id) seat) no_change h2 in
      (actor, is_open_at, h3)

  pub sit-permitted :
      (q : VersionedRequest) (seat : SeatIndex)
      → set_seat s policy q (some seat) ≡ ok (committed t effects)
      → IsActor s q × IsOpenPhase s × (at_seat s.seats seat ≡ none)
  sit-permitted q seat h =
      let (actor, is_open_at, h1) = set_seat-open q (some seat) h in
      let (free, _) = past_refusal s (not (is_free (at_seat s.seats seat))) seat_occupied h1 in
      (actor, is_open_at, free_seat (at_seat s.seats seat) free)

  pub stand-permitted :
      (q : VersionedRequest)
      → set_seat s policy q none ≡ ok (committed t effects)
      → IsActor s q × IsOpenPhase s × IsSeated s q.actor_player_id × CanWatch s policy
  stand-permitted q h =
      let (actor, is_open_at, h1) = set_seat-open q none h in
      let (sits, h2) = past_refusal s (not (is_some (seat_of s q.actor_player_id))) no_change h1 in
      let (shown, h3) = past_refusal s (not s.settings.allow_spectators) spectating_disabled h2 in
      let (room_left, _) =
        past_refusal s (leb policy.max_spectators (spectator_count s)) spectator_limit h3 in
      (actor, is_open_at, not_is_some→some _ sits, can_watch s policy shown room_left)

  ready_in-phase :
      (p : RoomPhase) (q : VersionedRequest) (ready : Bool) (seat : SeatIndex)
      → ready_in p s policy q ready seat ≡ ok (committed t effects)
      → (p ≡ lobby) ⊎ (p ≡ between_games) ⊎ ((p ≡ in_countdown) × (ready ≡ false))
  ready_in-phase lobby q ready seat h = inl refl
  ready_in-phase between_games q ready seat h = inr (inl refl)
  ready_in-phase in_countdown q ready seat h =
      inr (inr (refl, (past_refusal s ready no_change h).0))
  ready_in-phase playing q ready seat h = cc
  ready_in-phase series_complete q ready seat h = cc
  ready_in-phase closed q ready seat h = cc

  pub set_ready-permitted :
      (q : VersionedRequest) (ready : Bool)
      → set_ready s policy q ready ≡ ok (committed t effects)
      → IsActor s q
        × IsSeated s q.actor_player_id
        × ((s.phase ≡ lobby)
            ⊎ (s.phase ≡ between_games)
            ⊎ ((s.phase ≡ in_countdown) × (ready ≡ false)))
  unfolding set_ready
  set_ready-permitted q ready h =
      let (actor, h1) = actor_error-IsActor s q h in
      let (seat, found, h2) = past_seat s q.actor_player_id h1 in
      (actor, (seat, found), ready_in-phase s.phase q ready seat h2)

  pub rematch-permitted :
      (q : VersionedRequest) (accepted : Bool)
      → rematch s policy q accepted ≡ ok (committed t effects)
      → IsActor s q × IsSeated s q.actor_player_id × (s.phase ≡ series_complete)
  unfolding rematch
  rematch-permitted q accepted h =
      let (actor, h1) = actor_error-IsActor s q h in
      let (seat, found, h2) = past_seat s q.actor_player_id h1 in
      let (ended, _) =
        past_refusal s (not (is_series_complete s.phase && is_finished_series s.series))
          series_not_complete h2 in
      (actor, (seat, found), complete s.phase (ground arith))

  pub update_settings-permitted :
      (q : VersionedRequest) (patch : RoomSettingsPatch)
      → update_settings s policy q patch ≡ ok (committed t effects)
      → IsHostActor s q × IsOpenPhase s
  unfolding update_settings
  update_settings-permitted q patch h =
      let (host, h1) = host_error-IsHostActor s q h in (host, (past_open s rules_locked h1).0)

  pub transfer_host-permitted :
      (q : VersionedRequest) (target : Text)
      → transfer_host s policy q target ≡ ok (committed t effects)
      → IsHostActor s q
        × IsOpenPhase s
        × ((id : Text) × (epoch : ℕ) × HasConnection s target id epoch)
  unfolding transfer_host
  transfer_host-permitted q target h =
      let (host, h1) = host_error-IsHostActor s q h in
      let (is_open_at, h2) = past_open s invalid_room_phase h1 in
      let (member, h3) = past_refusal s (not (has_member s.members target)) target_not_member h2 in
      let (on, _) =
        past_refusal s (not (connected (own_member s.members target))) target_not_connected h3 in
      let (m, found) = not_is_some→some _ member in
      let (id, epoch, connection) =
        is_online-online m.connection (connected-online s target on m found) in
      (host, is_open_at, (id, epoch, (m, found, connection)))

  pub kick-CanKick :
      (q : VersionedRequest) (target : Text)
      → kick s policy q target ≡ ok (committed t effects)
      → CanKick s q target
  unfolding kick
  kick-CanKick q target h =
      let (host, h1) = host_error-IsHostActor s q h in
      let (other, h2) = past_refusal s (same_text target q.actor_player_id) cannot_kick_self h1 in
      let (member, h3) = past_refusal s (not (has_member s.members target)) target_not_member h2 in
      let (idle, _) =
        past_refusal s
          (is_some (seat_of s target) && (not (is_draft s.rules_status) || is_locked_phase s.phase))
          cannot_kick_active_player h3 in
      record {
        host = host;
        other =
            apart (λ k. same_text k q.actor_player_id) target q.actor_player_id other
              (same_text_refl q.actor_player_id);
        member = not_is_some→some _ member;
        idle = idle_seat s (seat_of s target) s.rules_status idle;
      }

  pub close_room-permitted :
      (q : VersionedRequest)
      → close_room s policy q ≡ ok (committed t effects)
      → IsHostActor s q × IsOpenPhase s
  unfolding close_room
  close_room-permitted q h =
      let (host, h1) = host_error-IsHostActor s q h in
      (host, (past_open s active_match_running h1).0)
