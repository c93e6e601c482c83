-- ===== src/Room/Invariant/Asserted.antt =====
-- The rest of the assertion of packages/room-core/src/invariants.ts, and the whole of it.
use tetr_d.Base.{
  ℕ, ◌+◌, ◌≤◌, ◌≡◌, inl, inr, refl, sym, ap, ◌∙◌, subst, Bool, true, false, not, ◌&&◌, ◌||◌, Option,
  none, some, List, [], ◌∷◌, length, All, arith, any, le→leb, ◌==◌,
}
use tetr_d.Base.Texts.{Text, same_text, same_text_refl, distinct_texts}
use tetr_d.Base.Result.{Result, ok, plain_error, guard, ◌>>◌}
use tetr_d.Board.{max_safe_integer}
use tetr_d.Room.{
  Pair, SeatIndex, seat0, seat1, RoomPhase, lobby, in_countdown, playing, between_games,
  series_complete, closed, Members, RoomSeries, ActiveRoomMatch, RoomState,
}
use tetr_d.Room.Validation.{safe_id, own_member, is_some, is_id, roster_among, roster_of}
use tetr_d.Room.Checks.{
  seats_ok, occupied_of, host_ok, host_is_member, ready_ok, denied_ok, series_ok, shape_ok,
  assert_room_invariants, any_online, is_closed, is_draft, connected_id, seated_as, plays_as,
  has_won, same_flag, completed_is, max_denied_player_ids,
}
use tetr_d.Room.Operations.{is_unfinished}
use tetr_d.Room.Invariant.Seats.{SeatsOf, IsPresent, AreApart}
use tetr_d.Room.Invariant.Hosts.{HostOf, IsHost}
use tetr_d.Room.Invariant.Readies.{ReadyOf, IsReady}
use tetr_d.Room.Invariant.Membership.{MembersOf}
use tetr_d.Room.Invariant.Denials.{DeniedOf, IsDenied}
use tetr_d.Room.Invariant.Series.{SeriesOf, IsSeries?}
use tetr_d.Room.Invariant.Phases.{PhaseOf, IsShape, IsEmpty, stage, HasPlayers}
use tetr_d.Room.Invariant.Checked.{Facts, identity_ok-true, times_ok-true, members_ok-true}

seats-true :
    (ms : Members) (left right : Option Text)
    → IsPresent ms left
    → IsPresent ms right
    → AreApart left right
    → (distinct_texts (occupied_of left right)
        && not (any (λ id. not (is_some (own_member ms id))) (occupied_of left right)))
      ≡ true
unfolding distinct_texts
seats-true ms none none l r h = refl
seats-true ms none (some b) l r h = ground (arith, r)
seats-true ms (some a) none l r h = ground (arith, l)
seats-true ms (some a) (some b) l r h = ground (arith, l, r, h)

seats_ok-true : (s : RoomState) → SeatsOf s → seats_ok s ≡ true
unfolding seats_ok
seats_ok-true s h =
    seats-true s.members s.seats.left s.seats.right h.left_present h.right_present h.apart

nobody : (id : Text) → own_member [] id ≡ none
unfolding own_member
nobody id = refl

host-true :
    (ms : Members) (host : Option Text) (p : RoomPhase)
    → IsHost ms host
    → (host_is_member ms host
        && not ((length ms == 0) && is_some host)
        && not (any_online ms && not (is_closed p) && not (is_some host)))
      ≡ true
host-true ms none p h = rw h (ground arith)
host-true [] (some id) p h =
    absurd (let gone = ap is_some (nobody id) in let both = sym h ∙ gone in cc)
host-true (e ∷ ms) (some id) p h = rw h (ground arith)

host_ok-true : (s : RoomState) → HostOf s → host_ok s ≡ true
unfolding host_ok
host_ok-true s h = host-true s.members s.host_player_id s.phase h

ready-true :
    (ms : Members) (o : Option Text) (r : Bool)
    → IsReady ms o r
    → not (r && not (connected_id ms o)) ≡ true
ready-true ms o r (inl e) = rw e refl
ready-true ms o r (inr e) = rw e (ground arith)

ready_ok-true : (s : RoomState) (seat : SeatIndex) → ReadyOf s → ready_ok s seat ≡ true
unfolding ready_ok
ready_ok-true s seat0 h = ready-true s.members s.seats.left s.ready.left h.left_ready
ready_ok-true s seat1 h = ready-true s.members s.seats.right s.ready.right h.right_ready

none_denied :
    (ms : Members) (ids : List Text)
    → All (IsDenied ms) ids
    → any (λ id. not (safe_id id) || is_some (own_member ms id)) ids ≡ false
none_denied ms [] h = refl
none_denied ms (id ∷ ids) ((safe, gone), h) = rw (safe, gone) (none_denied ms ids h)

denied_ok-true : (s : RoomState) → DeniedOf s → denied_ok s ≡ true
unfolding denied_ok
denied_ok-true s h =
    let a = le→leb (length s.denied_player_ids) max_denied_player_ids h.few in
    let b = h.distinct in
    let c = none_denied s.members s.denied_player_ids h.each in ground (arith, a, b, c)

same_flag_refl : (b c : Bool) → b ≡ c → same_flag b c ≡ true
same_flag_refl true c e = sym e
same_flag_refl false c e = ap not (sym e)

series_ok-true :
    (count : ℕ) (o : Option RoomSeries)
    → count ≤ max_safe_integer
    → IsSeries? count o
    → series_ok o ≡ true
series_ok-true count none low h = refl
series_ok-true count (some r) low h =
    let a = h.different in
    let b = h.few_wins in
    let c = h.all_played in
    let d = h.few_games in
    let e = same_flag_refl r.completed (has_won r) h.decided in
    let f = same_flag_refl r.completed (is_some r.winner_player_id) (sym h.names_winner) in
    let g = h.winner_plays in
    let i = le→leb r.wins.left max_safe_integer (omega (arith, c, d, low)) in
    let j = le→leb r.wins.right max_safe_integer (omega (arith, c, d, low)) in
    let k = le→leb r.games_played max_safe_integer (omega (arith, d, low)) in
    let l = le→leb (r.wins.left + r.wins.right) r.games_played c in
    ground (arith, a, b, e, f, g, i, j, k, l)

players_seated :
    (left right : Option Text) (roster : Pair Text)
    → roster_among left right ≡ some roster
    → (is_id left roster.left && is_id right roster.right) ≡ true
players_seated none right roster h = cc
players_seated (some a) none roster h = cc
players_seated (some a) (some b) roster h =
    let both : Pair Text = record { left = a; right = b } in
    let same : both ≡ roster = cc in
    subst (λ p. (same_text a p.left && same_text b p.right) ≡ true) same
      (ground (arith, same_text_refl a, same_text_refl b))

seated_as-true :
    (seats : Pair (Option Text)) (series : Option RoomSeries)
    → HasPlayers series (roster_among seats.left seats.right)
    → seated_as seats series ≡ true
seated_as-true seats series (r, e, seated) =
    ap (seated_as seats) e ∙ players_seated seats.left seats.right r.roster seated

plays_as-true :
    (active : Option ActiveRoomMatch) (series : Option RoomSeries) (seated : Option (Pair Text))
    (r : RoomSeries) (m : ActiveRoomMatch)
    → series ≡ some r
    → active ≡ some m
    → seated ≡ some r.roster
    → seated ≡ some m.participants
    → plays_as active series ≡ true
plays_as-true active series seated r m e k one other =
    let both : some r.roster ≡ some m.participants = sym one ∙ other in
    let same : r.roster ≡ m.participants = cc in
    ap (λ a. plays_as a series) k
    ∙ ap (plays_as (some m)) e
    ∙ subst (λ p. (same_text p.left r.roster.left && same_text p.right r.roster.right) ≡ true) same
        (ground (arith, same_text_refl r.roster.left, same_text_refl r.roster.right))

unfinished-completed :
    (o : Option RoomSeries) → is_unfinished o ≡ true → completed_is false o ≡ true
unfinished-completed none h = cc
unfinished-completed (some r) h = h

-- The phases, field by field.
shape-true :
    (p : RoomPhase) (s : RoomState)
    → IsShape p (stage s) s.ready
    → IsEmpty p s.members s.host_player_id s.seats s.closed_reason
    → shape_ok p s ≡ true
unfolding shape_ok
shape-true lobby s (a, b, c, d) h =
    ground (arith, ap is_draft a, ap is_some b, ap is_some c, ap is_some d)
shape-true in_countdown s (a, b, c, d, e, players) h =
    ground (arith, ap is_draft a, b, ap is_some c, d, e, seated_as-true s.seats s.series players)
shape-true playing s (a, b, c, d, (r, on, seated), (m, now, seated_too)) h = ground (
  arith,
  ap is_draft a,
  ap is_some b,
  c,
  d,
  plays_as-true s.active_match s.series (roster_of s) r m on now seated seated_too,
)
shape-true between_games s (a, b, c, unfinished, players) h =
    ground
      (arith, ap is_draft a, ap is_some b, ap is_some c, unfinished-completed s.series unfinished)
shape-true series_complete s (a, b, c, d, e, (r, on, over)) h =
    ground
      (arith, ap is_draft a, ap is_some b, ap is_some c, d, e, ap (completed_is true) on ∙ over)
shape-true closed s (a, b, c) (empty, host, left, right, reason) = ground (
  arith,
  ap is_some a,
  ap is_some b,
  ap is_some c,
  ap length empty,
  ap is_some host,
  ap (λ o. length (occupied_of o s.seats.right)) left ∙ ap (λ o. length (occupied_of none o)) right,
  reason,
)

-- What a room is between two commands.
pub record IsRoom (s : RoomState) : Type 0 where
  pub facts : Facts s
  pub members_order : MembersOf s.presence_sequence s
  pub seats_order : SeatsOf s
  pub host_order : HostOf s
  pub ready_order : ReadyOf s
  pub denied_order : DeniedOf s
  pub series_order : SeriesOf s.presence_sequence s
  pub phase_order : PhaseOf s

past_guard :
    {rest : Result (Unit {0})} (b : Bool)
    → b ≡ true
    → rest ≡ ok tt
    → (guard b plain_error >> rest) ≡ ok tt
past_guard b h after = rw h after

-- The assertion passes on every room that is in order.
pub IsRoom-passes : (s : RoomState) → IsRoom s → assert_room_invariants s ≡ ok tt
unfolding assert_room_invariants
IsRoom-passes s h =
    let f = h.facts in
    past_guard _ (identity_ok-true s f) (
      past_guard _ (times_ok-true s f) (
        past_guard _
          (members_ok-true s.presence_sequence s.next_joined_ordinal s.members [] [] f.sequence_safe
            h.members_order.few_ordinals h.members_order.members_fit
            (λ key m found. record { new_ordinal = refl; new_connection = λ id own. refl }))
          (past_guard _ (seats_ok-true s h.seats_order) (
            past_guard _ (host_ok-true s h.host_order) (
              past_guard _ (ready_ok-true s seat0 h.ready_order) (
                past_guard _ (ready_ok-true s seat1 h.ready_order) (
                  past_guard _ h.series_order.targets (
                    past_guard _ (denied_ok-true s h.denied_order) (
                      past_guard _
                        (series_ok-true s.presence_sequence s.series f.sequence_safe
                          h.series_order.series_fits)
                        (ap (λ b. guard b plain_error)
                          (shape-true s.phase s h.phase_order.shape
                            h.phase_order.emptiness)))))))))))
