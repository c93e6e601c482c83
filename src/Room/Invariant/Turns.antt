-- ===== src/Room/Invariant/Turns.antt =====
-- How the steps of a room move it from phase to phase.
use tetr_d.Base.{
  ℕ, ◌≡◌, refl, sym, ap, ◌∙◌, subst, Bool, true, false, not, ◌&&◌, Option, none, some, arith,
  if◌then◌else◌,
}
use tetr_d.Base.Texts.{Text}
use tetr_d.Room
use tetr_d.Room.{
  Pair, SeatIndex, seat0, seat1, RoomPhase, lobby, in_countdown, playing, between_games,
  series_complete, closed, RoomPolicy, RoomMember, Members, RoomCountdown, RoomSeries,
  ActiveRoomMatch, RoomClosedReason, RulesStatus, draft, locked, RoomState,
}
use tetr_d.Room.Validation.{own_member, is_some, roster_of, roster_among, seat_among}
use tetr_d.Room.Checks.{is_closed}
use tetr_d.Room.Operations.{
  began_between_games, is_unfinished, returns_between_games, neither, cancel_countdown, vacated,
}
use tetr_d.Room.Handlers.{is_open}
use tetr_d.Room.Handlers.RoomCommands.{is_playing}
use tetr_d.Room.Handlers.PresenceCommands.{is_in_countdown, cleared_at, without_connection}
use tetr_d.Room.Handlers.MatchCommands.{series_after}
use tetr_d.Room.Invariant.Parting.{of_removal}
use tetr_d.Room.Invariant.Phases.{
  HasPlayers, Stage, IsShape, IsEmpty, stage, PhaseOf, unclosed-IsEmpty, inhabited, counting,
  in_play,
}
use tetr_d.Room.Steps.Walk.{is_some→none}
use tetr_d.Room.Steps.{
  allows_ready, Step, watches, plays, parts, stands, sits, readies, begins_series, continues_series,
  cancels, votes_for, sets, hands_over, drops, drops_and_cancels, resumes, replaces, forfeits,
  starts, finishes, closes,
}

readies-IsShape :
    (p : RoomPhase) (g : Stage) (ready after : Pair Bool)
    → allows_ready p ≡ true
    → IsShape p g ready
    → (is_closed p ≡ false) × IsShape p g after
readies-IsShape lobby g ready after allowed h = (refl, h)
readies-IsShape between_games g ready after allowed h = (refl, h)
readies-IsShape in_countdown g ready after allowed h = cc
readies-IsShape playing g ready after allowed h = cc
readies-IsShape series_complete g ready after allowed h = cc
readies-IsShape closed g ready after allowed h = cc

cleared-down :
    (flags : Pair Bool) (seat : Option SeatIndex)
    → flags.left ≡ false
    → flags.right ≡ false
    → ((cleared_at flags seat).left ≡ false) × ((cleared_at flags seat).right ≡ false)
cleared-down flags none l r = (l, r)
cleared-down flags (some seat0) l r = ground (arith, l, r)
cleared-down flags (some seat1) l r = ground (arith, l, r)

drops-IsShape :
    (p : RoomPhase) (g : Stage) (ready : Pair Bool) (seat : Option SeatIndex)
    → (is_in_countdown p && is_some seat) ≡ false
    → IsShape p g ready
    → IsShape p g (cleared_at ready seat)
drops-IsShape lobby g ready seat still h = h
drops-IsShape in_countdown g ready none still h = h
drops-IsShape in_countdown g ready (some seat) still h = cc
drops-IsShape playing g ready seat still (rules, c, l, r, players, match) =
    let (a, b) = cleared-down ready seat l r in (rules, c, a, b, players, match)
drops-IsShape between_games g ready seat still h = h
drops-IsShape series_complete g ready seat still (rules, c, m, l, r, players) =
    let (a, b) = cleared-down ready seat l r in (rules, c, m, a, b, players)
drops-IsShape closed g ready seat still h = h

forfeits-IsShape :
    (p : RoomPhase) (g : Stage) (ready : Pair Bool) (m : ActiveRoomMatch)
    → is_playing p ≡ true
    → g.active ≡ some m
    → IsShape p g ready
    → IsShape p (record g { active = some (record m { resolution_requested = true }) }) ready
forfeits-IsShape lobby g ready m now e h = cc
forfeits-IsShape in_countdown g ready m now e h = cc
forfeits-IsShape between_games g ready m now e h = cc
forfeits-IsShape series_complete g ready m now e h = cc
forfeits-IsShape closed g ready m now e h = cc
forfeits-IsShape playing g ready m now e (rules, c, l, r, players, (old, on, seated)) =
    let same : some old ≡ some m = sym on ∙ e in
    let names : old ≡ m = cc in
    (rules, c, l, r, players, (_, refl, seated ∙ ap (λ v. some v.participants) names))

-- A countdown that is cancelled goes back between the games of a series that is on, or to the lobby.
cancelled-IsShape :
    (back : Bool) (series : Option RoomSeries) (seated : Option (Pair Text))
    → (back ≡ true → (is_unfinished series ≡ true) × HasPlayers series seated)
    → IsShape
        (if back then between_games else lobby)
        (record {
          rules = if back then locked else draft;
          countdown = none;
          series = if back then series else none;
          active = none;
          seated = seated;
        })
        neither
cancelled-IsShape true series seated h =
    let (unfinished, players) = h refl in (refl, refl, refl, unfinished, players)
cancelled-IsShape false series seated h = (refl, refl, refl, refl)

cancelled-IsEmpty :
    (back : Bool) (ms : Members) (host : Option Text) (seats : Pair (Option Text))
    (reason : Option RoomClosedReason)
    → IsEmpty (if back then between_games else lobby) ms host seats reason
cancelled-IsEmpty true ms host seats reason = tt
cancelled-IsEmpty false ms host seats reason = tt

began-counting : (c : Option RoomCountdown) → began_between_games c ≡ true → is_some c ≡ true
began-counting none h = cc
began-counting (some c) h = refl

cancelled-PhaseOf :
    (s : RoomState) (p : RoomPhase) (ready : Pair Bool)
    → IsShape p (stage s) ready
    → PhaseOf (cancel_countdown s)
cancelled-PhaseOf s p ready h = record {
  shape = cancelled-IsShape (returns_between_games s) s.series (roster_of s) (λ back.
      let began : began_between_games s.countdown ≡ true = ground (arith, back) in
      let unfinished : is_unfinished s.series ≡ true = ground (arith, back) in
      let (rules, active, players) =
        counting p (stage s) ready h (began-counting s.countdown began) in
      (unfinished, players));
  emptiness =
      cancelled-IsEmpty (returns_between_games s) s.members s.host_player_id s.seats
        s.closed_reason;
}

finished-IsShape :
    (over : Bool) (next : RoomSeries) (seated : Option (Pair Text))
    → next.completed ≡ over
    → seated ≡ some next.roster
    → IsShape
        (if over then series_complete else between_games)
        (record {
          rules = if over then draft else locked;
          countdown = none;
          series = some next;
          active = none;
          seated = seated;
        })
        neither
finished-IsShape true next seated e players = (refl, refl, refl, refl, refl, (next, refl, e))
finished-IsShape false next seated e players = (refl, refl, refl, ap not e, (next, refl, players))

finished-IsEmpty :
    (over : Bool) (ms : Members) (host : Option Text) (seats : Pair (Option Text))
    (reason : Option RoomClosedReason)
    → IsEmpty (if over then series_complete else between_games) ms host seats reason
finished-IsEmpty true ms host seats reason = tt
finished-IsEmpty false ms host seats reason = tt

open_phase : (p : RoomPhase) → is_open p ≡ true → is_closed p ≡ false
open_phase p h = ground (arith, h)

unclosed :
    (s : RoomState) (key : Text) (m : RoomMember)
    → PhaseOf s
    → own_member s.members key ≡ some m
    → is_closed s.phase ≡ false
unclosed s key m h found =
    inhabited s.phase s.members s.host_player_id s.seats s.closed_reason key m h.emptiness found

-- Every step of a room leads from a phase with the fields that go with it to such a phase.
pub Step-PhaseOf :
    {s : RoomState} {policy : RoomPolicy} {joins : Option Text} {at_ms : ℕ} {t : RoomState}
    → Step s policy joins at_ms t
    → PhaseOf s
    → PhaseOf t
Step-PhaseOf {s} (watches q brings can few) h = record {
  shape = h.shape;
  emptiness = unclosed-IsEmpty s.phase _ _ _ _ can.is_not_closed;
}
Step-PhaseOf (plays q seat brings can place free) h = record {
  shape = (refl, refl, refl, refl);
  emptiness = tt;
}
Step-PhaseOf {s} (parts key m denies found) h =
    of_removal PhaseOf s key denies
      (λ host e. record { shape = (refl, refl, refl, refl); emptiness = tt })
      (λ host e. record {
        shape =
            subst
              (λ seat.
                IsShape s.phase
                  (record (stage s) {
                    seated = roster_among (vacated s.seats seat).left (vacated s.seats seat).right;
                  })
                  s.ready)
              (sym (is_some→none (seat_among s.seats key) e)) h.shape;
        emptiness = unclosed-IsEmpty s.phase _ _ _ _ (unclosed s key m h found);
      })
Step-PhaseOf (stands key m found place few) h = record {
  shape = (refl, refl, refl, refl);
  emptiness = tt;
}
Step-PhaseOf (sits key m seat found place free) h = record {
  shape = (refl, refl, refl, refl);
  emptiness = tt;
}
Step-PhaseOf {s} (readies seat is_ready allowed linked) h =
    let (not_closed, after) = readies-IsShape s.phase (stage s) s.ready _ allowed h.shape in
    record { shape = after; emptiness = unclosed-IsEmpty s.phase _ _ _ _ not_closed }
Step-PhaseOf (begins_series origin ready votes roster l r linked e) h = record {
  shape = (refl, refl, refl, l, r, (_, refl, e));
  emptiness = tt;
}
Step-PhaseOf {s} (continues_series ready votes series l r linked e place) h =
    let (rules, c, m, unfinished, (old, on, seated)) : IsShape between_games (stage s) s.ready =
      subst (λ p. IsShape p (stage s) s.ready) place h.shape in
    let same : some old ≡ some series = sym on ∙ e in
    let names : old ≡ series = cc in
    record {
      shape = (refl, refl, refl, l, r, (series, refl, seated ∙ ap (λ v. some v.roster) names));
      emptiness = tt;
    }
Step-PhaseOf {s} (cancels place) h = cancelled-PhaseOf s s.phase s.ready h.shape
Step-PhaseOf (votes_for seat accepted) h = record { shape = h.shape; emptiness = h.emptiness }
Step-PhaseOf (sets patch place wins few) h = record {
  shape = (refl, refl, refl, refl);
  emptiness = tt;
}
Step-PhaseOf {s} (hands_over target linked place) h = record {
  shape = h.shape;
  emptiness = unclosed-IsEmpty s.phase _ _ _ _ (open_phase s.phase place);
}
Step-PhaseOf {s} (drops key m id epoch deadline found was soon still) h = record {
  shape = drops-IsShape s.phase (stage s) s.ready (seat_among s.seats key) still h.shape;
  emptiness = unclosed-IsEmpty s.phase _ _ _ _ (unclosed s key m h found);
}
Step-PhaseOf {s} (drops_and_cancels key m id epoch deadline found was soon) h =
    cancelled-PhaseOf (without_connection s key m (Room.offline epoch deadline false)) s.phase
      s.ready h.shape
Step-PhaseOf {s} (resumes key m id epoch deadline requested found was safe unused) h = record {
  shape = h.shape;
  emptiness = unclosed-IsEmpty s.phase _ _ _ _ (unclosed s key m h found);
}
Step-PhaseOf {s} (replaces key m own id epoch found was safe unused) h = record {
  shape = h.shape;
  emptiness = unclosed-IsEmpty s.phase _ _ _ _ (unclosed s key m h found);
}
Step-PhaseOf {s} (forfeits key m active epoch deadline requested found was e now) h = record {
  shape = forfeits-IsShape s.phase (stage s) s.ready active now e h.shape;
  emptiness = unclosed-IsEmpty s.phase _ _ _ _ (unclosed s key m h found);
}
Step-PhaseOf {s} (starts match_id c roster e k l linked) h =
    let (rules, active, players) = counting s.phase (stage s) s.ready h.shape (ap is_some e) in
    record { shape = (rules, refl, refl, refl, players, (_, refl, k)); emptiness = tt }
Step-PhaseOf {s} (finishes q active series now e k fits) h =
    let ((old, on, seated), now_playing) = in_play s.phase (stage s) s.ready active h.shape e in
    let same : some old ≡ some series = sym on ∙ k in
    let names : old ≡ series = cc in
    let next = series_after series q.winner_player_id in
    record {
      shape =
          finished-IsShape next.completed next (roster_of s) refl
            (seated ∙ ap (λ v. some v.roster) names);
      emptiness = finished-IsEmpty next.completed _ s.host_player_id s.seats s.closed_reason;
    }
Step-PhaseOf (closes reason) h = record {
  shape = (refl, refl, refl);
  emptiness = (refl, refl, refl, refl, refl);
}
