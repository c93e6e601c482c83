-- ===== src/Room/Invariant/Phases.antt =====
-- What each phase of a room asks of its other fields. In a series, the two who sit are its players.
use tetr_d.Base.{◌≡◌, refl, sym, ap, ◌∙◌, Bool, true, false, Option, none, some, []}
use tetr_d.Base.Texts.{Text}
use tetr_d.Room.{
  Pair, RoomPhase, lobby, in_countdown, playing, between_games, series_complete, closed, RoomMember,
  Members, RoomCountdown, RoomSeries, ActiveRoomMatch, RoomClosedReason, RulesStatus, draft, locked,
  RoomState,
}
use tetr_d.Room.Validation.{own_member, is_some, roster_of}
use tetr_d.Room.Checks.{is_closed}
use tetr_d.Room.Operations.{is_unfinished}

-- A series is on, whose players sit in this order.
abbrev pub HasPlayers : Option RoomSeries → Option (Pair Text) → Type 0
HasPlayers series seated = (r : RoomSeries) × (series ≡ some r) × (seated ≡ some r.roster)

-- The fields that a phase constrains, but for the readiness.
pub record Stage : Type 0 where
  pub rules : RulesStatus
  pub countdown : Option RoomCountdown
  pub series : Option RoomSeries
  pub active : Option ActiveRoomMatch
  pub seated : Option (Pair Text)

abbrev pub IsShape : RoomPhase → Stage → Pair Bool → Type 0
IsShape lobby g ready =
    (g.rules ≡ draft) × (g.countdown ≡ none) × (g.series ≡ none) × (g.active ≡ none)
IsShape in_countdown g ready =
    (g.rules ≡ locked)
    × (is_some g.countdown ≡ true)
    × (g.active ≡ none)
    × (ready.left ≡ true)
    × (ready.right ≡ true)
    × HasPlayers g.series g.seated
IsShape playing g ready =
    (g.rules ≡ locked)
    × (g.countdown ≡ none)
    × (ready.left ≡ false)
    × (ready.right ≡ false)
    × HasPlayers g.series g.seated
    × ((m : ActiveRoomMatch) × (g.active ≡ some m) × (g.seated ≡ some m.participants))
IsShape between_games g ready =
    (g.rules ≡ locked)
    × (g.countdown ≡ none)
    × (g.active ≡ none)
    × (is_unfinished g.series ≡ true)
    × HasPlayers g.series g.seated
IsShape series_complete g ready =
    (g.rules ≡ draft)
    × (g.countdown ≡ none)
    × (g.active ≡ none)
    × (ready.left ≡ false)
    × (ready.right ≡ false)
    × ((r : RoomSeries) × (g.series ≡ some r) × (r.completed ≡ true))
IsShape closed g ready = (g.countdown ≡ none) × (g.series ≡ none) × (g.active ≡ none)

-- A closed room is empty.
abbrev pub IsEmpty :
    RoomPhase → Members → Option Text → Pair (Option Text) → Option RoomClosedReason → Type 0
IsEmpty closed ms host seats reason =
    (ms ≡ []) × (host ≡ none) × (seats.left ≡ none) × (seats.right ≡ none) × (is_some reason ≡ true)
IsEmpty _ ms host seats reason = Unit

abbrev pub stage : RoomState → Stage
stage s = record {
  rules = s.rules_status;
  countdown = s.countdown;
  series = s.series;
  active = s.active_match;
  seated = roster_of s;
}

pub record PhaseOf (s : RoomState) : Type 0 where
  pub shape : IsShape s.phase (stage s) s.ready
  pub emptiness : IsEmpty s.phase s.members s.host_player_id s.seats s.closed_reason

pub unclosed-IsEmpty :
    (p : RoomPhase) (ms : Members) (host : Option Text) (seats : Pair (Option Text))
    (reason : Option RoomClosedReason)
    → is_closed p ≡ false
    → IsEmpty p ms host seats reason
unclosed-IsEmpty lobby ms host seats reason h = tt
unclosed-IsEmpty in_countdown ms host seats reason h = tt
unclosed-IsEmpty playing ms host seats reason h = tt
unclosed-IsEmpty between_games ms host seats reason h = tt
unclosed-IsEmpty series_complete ms host seats reason h = tt
unclosed-IsEmpty closed ms host seats reason h = cc

-- Nobody is left in a closed room.
pub inhabited :
    (p : RoomPhase) (ms : Members) (host : Option Text) (seats : Pair (Option Text))
    (reason : Option RoomClosedReason) (key : Text) (m : RoomMember)
    → IsEmpty p ms host seats reason
    → own_member ms key ≡ some m
    → is_closed p ≡ false
unfolding own_member
inhabited lobby ms host seats reason key m h found = refl
inhabited in_countdown ms host seats reason key m h found = refl
inhabited playing ms host seats reason key m h found = refl
inhabited between_games ms host seats reason key m h found = refl
inhabited series_complete ms host seats reason key m h found = refl
inhabited closed ms host seats reason key m h found =
    absurd (let nobody = sym found ∙ ap (λ l. own_member l key) h.0 in cc)

-- A countdown runs in its phase only.
pub counting :
    (p : RoomPhase) (g : Stage) (ready : Pair Bool)
    → IsShape p g ready
    → is_some g.countdown ≡ true
    → (g.rules ≡ locked) × (g.active ≡ none) × HasPlayers g.series g.seated
counting lobby g ready h on = absurd (let off = ap is_some h.1 in let both = sym on ∙ off in cc)
counting in_countdown g ready (rules, c, active, l, r, players) on = (rules, active, players)
counting playing g ready h on = absurd (let off = ap is_some h.1 in let both = sym on ∙ off in cc)
counting between_games g ready h on =
    absurd (let off = ap is_some h.1 in let both = sym on ∙ off in cc)
counting series_complete g ready h on =
    absurd (let off = ap is_some h.1 in let both = sym on ∙ off in cc)
counting closed g ready h on = absurd (let off = ap is_some h.0 in let both = sym on ∙ off in cc)

-- A match is on in its phase only.
pub in_play :
    (p : RoomPhase) (g : Stage) (ready : Pair Bool) (m : ActiveRoomMatch)
    → IsShape p g ready
    → g.active ≡ some m
    → HasPlayers g.series g.seated × (p ≡ playing)
in_play lobby g ready m h on = absurd (let both = sym on ∙ h.3 in cc)
in_play in_countdown g ready m h on = absurd (let both = sym on ∙ h.2 in cc)
in_play playing g ready m (rules, c, l, r, players, match) on = (players, refl)
in_play between_games g ready m h on = absurd (let both = sym on ∙ h.2 in cc)
in_play series_complete g ready m h on = absurd (let both = sym on ∙ h.2 in cc)
in_play closed g ready m h on = absurd (let both = sym on ∙ h.2 in cc)
