-- ===== src/Room/Invariant/Readies.antt =====
-- A seat that is ready is held by a connected member.
use tetr_d.Base.{
  ℕ, ◌≡◌, ◌⊎◌, inl, inr, refl, sym, ap, ◌∙◌, subst, Bool, true, false, Option, none, some, arith,
  Bool-cases,
}
use tetr_d.Base.Texts.{Text}
use tetr_d.Room.{Pair, SeatIndex, seat0, seat1, RoomPolicy, RoomMember, Members, RoomState}
use tetr_d.Room.Validation.{
  own_member, set_member, without_member, is_some, is_id, is_online, connected, seat_among, at_seat,
  with_seat,
}
use tetr_d.Room.Checks.{connected_id}
use tetr_d.Room.Operations.{neither, vacated}
use tetr_d.Room.Handlers.PresenceCommands.{cleared_at}
use tetr_d.Room.Lookup.{
  text-cases, own_member-set_same, own_member-set_other, own_member-without_other,
}
use tetr_d.Room.Invariant.Parting.{of_removal}
use tetr_d.Room.Invariant.Seats.{IsOther, SeatsOf, AreApart, is_id→≡, not_is_id-IsOther}
use tetr_d.Room.Steps.Walk.{is_some→none}
use tetr_d.Room.Steps.{
  Step, watches, plays, parts, stands, sits, readies, begins_series, continues_series, cancels,
  votes_for, sets, hands_over, drops, drops_and_cancels, resumes, replaces, forfeits, starts,
  finishes, closes,
}

connected_id-set_online :
    (ms : Members) (key : Text) (m : RoomMember) (o : Option Text)
    → is_online m.connection ≡ true
    → connected_id ms o ≡ true
    → connected_id (set_member ms key m) o ≡ true
connected_id-set_online ms key m none linked h = h
connected_id-set_online ms key m (some id) linked h = elim (text-cases key id) [
  | inl e ↦
      ap connected (ap (own_member (set_member ms key m)) (sym e) ∙ own_member-set_same ms key m)
      ∙ linked
  | inr e ↦ ap connected (own_member-set_other ms key m id e) ∙ h
]

connected_id-set_other :
    (ms : Members) (key : Text) (m : RoomMember) (o : Option Text)
    → IsOther key o
    → connected_id ms o ≡ true
    → connected_id (set_member ms key m) o ≡ true
connected_id-set_other ms key m none other h = h
connected_id-set_other ms key m (some id) other h =
    ap connected (own_member-set_other ms key m id other) ∙ h

connected_id-without :
    (ms : Members) (key : Text) (o : Option Text)
    → IsOther key o
    → connected_id ms o ≡ true
    → connected_id (without_member ms key) o ≡ true
connected_id-without ms key none other h = h
connected_id-without ms key (some id) other h =
    ap connected (own_member-without_other ms key id other) ∙ h

-- A disconnected member is none of the connected ones.
offline-IsOther :
    (ms : Members) (key : Text) (m : RoomMember) (o : Option Text)
    → own_member ms key ≡ some m
    → is_online m.connection ≡ false
    → connected_id ms o ≡ true
    → IsOther key o
offline-IsOther ms key m none found lost h = tt
offline-IsOther ms key m (some id) found lost h = elim (text-cases key id) [
  | inl e ↦
      let same : is_online m.connection ≡ true =
        sym (ap connected found) ∙ ap (λ k. connected (own_member ms k)) e ∙ h in
      absurd (let both = sym lost ∙ same in cc)
  | inr e ↦ e
]

abbrev pub IsReady : Members → Option Text → Bool → Type 0
IsReady ms o r = (r ≡ false) ⊎ (connected_id ms o ≡ true)

pub record AreReady (ms : Members) (seats : Pair (Option Text)) (ready : Pair Bool) : Type 0 where
  pub left_ready : IsReady ms seats.left ready.left
  pub right_ready : IsReady ms seats.right ready.right

neither-AreReady : (ms : Members) (seats : Pair (Option Text)) → AreReady ms seats neither
neither-AreReady ms seats = record { left_ready = inl refl; right_ready = inl refl }

-- What keeps the connected connected keeps the ready ready.
map-AreReady :
    (ms ns : Members) (seats : Pair (Option Text)) (ready : Pair Bool)
    → (connected_id ms seats.left ≡ true → connected_id ns seats.left ≡ true)
    → (connected_id ms seats.right ≡ true → connected_id ns seats.right ≡ true)
    → AreReady ms seats ready
    → AreReady ns seats ready
map-AreReady ms ns seats ready f g h = record {
  left_ready = elim h.left_ready [ inl e ↦ inl e | inr e ↦ inr (f e) ];
  right_ready = elim h.right_ready [ inl e ↦ inl e | inr e ↦ inr (g e) ];
}

watching-IsOther :
    (seats : Pair (Option Text)) (key : Text)
    → is_some (seat_among seats key) ≡ false
    → IsOther key seats.left × IsOther key seats.right
watching-IsOther seats key h = (
  not_is_id-IsOther seats.left key (ground arith),
  not_is_id-IsOther seats.right key (ground arith),
)

with_seat-AreReady :
    (ms : Members) (seats : Pair (Option Text)) (ready : Pair Bool) (seat : SeatIndex) (r : Bool)
    → connected_id ms (at_seat seats seat) ≡ true
    → AreReady ms seats ready
    → AreReady ms seats (with_seat ready seat r)
with_seat-AreReady ms seats ready seat0 r linked h = record {
  left_ready = inr linked;
  right_ready = h.right_ready;
}
with_seat-AreReady ms seats ready seat1 r linked h = record {
  left_ready = h.left_ready;
  right_ready = inr linked;
}

kept_other :
    (ms : Members) (key : Text) (m : RoomMember) (o : Option Text) (r : Bool)
    → IsOther key o
    → IsReady ms o r
    → IsReady (set_member ms key m) o r
kept_other ms key m o r other (inl e) = inl e
kept_other ms key m o r other (inr e) = inr (connected_id-set_other ms key m o other e)

cleared_left :
    (flags : Pair Bool)
    → ((cleared_at flags (some seat0)).left ≡ false)
      × ((cleared_at flags (some seat0)).right ≡ flags.right)
cleared_left flags = ground arith

cleared_right :
    (flags : Pair Bool)
    → ((cleared_at flags (some seat1)).right ≡ false)
      × ((cleared_at flags (some seat1)).left ≡ flags.left)
cleared_right flags = ground arith

-- The seat of a member who is set anew is cleared, and the other one is another's.
cleared-AreReady :
    (ms : Members) (key : Text) (m : RoomMember) (seats : Pair (Option Text)) (ready : Pair Bool)
    → AreApart seats.left seats.right
    → AreReady ms seats ready
    → AreReady (set_member ms key m) seats (cleared_at ready (seat_among seats key))
cleared-AreReady ms key m seats ready apart h = elim (Bool-cases (is_id seats.left key)) [
  | inl e ↦
      let other : IsOther key seats.right =
        subst (λ o. AreApart o seats.right) (is_id→≡ seats.left key e) apart in
      let (down, same) = cleared_left ready in
      rw e (record {
        left_ready = inl down;
        right_ready =
            subst (IsReady (set_member ms key m) seats.right) (sym same)
              (kept_other ms key m seats.right ready.right other h.right_ready);
      })
  | inr e ↦
      let left_other = not_is_id-IsOther seats.left key e in
      elim (Bool-cases (is_id seats.right key)) [
        | inl k ↦
            let (down, same) = cleared_right ready in
            rw (e, k)
              (record {
                left_ready =
                    subst (IsReady (set_member ms key m) seats.left) (sym same)
                      (kept_other ms key m seats.left ready.left left_other h.left_ready);
                right_ready = inl down;
              })
        | inr k ↦
            rw (e, k)
              (record {
                left_ready = kept_other ms key m seats.left ready.left left_other h.left_ready;
                right_ready =
                    kept_other ms key m seats.right ready.right
                      (not_is_id-IsOther seats.right key k) h.right_ready;
              })
      ]
]

abbrev pub ReadyOf : RoomState → Type 0
ReadyOf s = AreReady s.members s.seats s.ready

set_online-ReadyOf :
    (s : RoomState) (key : Text) (m : RoomMember)
    → is_online m.connection ≡ true
    → ReadyOf s
    → AreReady (set_member s.members key m) s.seats s.ready
set_online-ReadyOf s key m linked =
    map-AreReady s.members (set_member s.members key m) s.seats s.ready
      (connected_id-set_online s.members key m s.seats.left linked)
      (connected_id-set_online s.members key m s.seats.right linked)

-- Every step of a room keeps each ready seat with a connected member.
pub Step-ReadyOf :
    {s : RoomState} {policy : RoomPolicy} {joins : Option Text} {at_ms : ℕ} {t : RoomState}
    → Step s policy joins at_ms t
    → SeatsOf s
    → ReadyOf s
    → ReadyOf t
Step-ReadyOf {s} (watches q brings can few) seats h =
    set_online-ReadyOf s q.player.player_id _ refl h
Step-ReadyOf {t = t} (plays q seat brings can place free) seats h =
    neither-AreReady t.members t.seats
Step-ReadyOf {s} (parts key m denies found) seats h =
    of_removal ReadyOf s key denies (λ host e. neither-AreReady _ _)
      (λ host e.
        let (l, r) = watching-IsOther s.seats key e in
        subst (λ seat. AreReady (without_member s.members key) (vacated s.seats seat) s.ready)
          (sym (is_some→none (seat_among s.seats key) e))
          (map-AreReady s.members (without_member s.members key) s.seats s.ready
            (connected_id-without s.members key s.seats.left l)
            (connected_id-without s.members key s.seats.right r) h))
Step-ReadyOf {t = t} (stands key m found place few) seats h = neither-AreReady t.members t.seats
Step-ReadyOf {t = t} (sits key m seat found place free) seats h = neither-AreReady t.members t.seats
Step-ReadyOf {s} (readies seat is_ready allowed linked) seats h =
    with_seat-AreReady s.members s.seats s.ready seat is_ready linked h
Step-ReadyOf (begins_series origin ready votes roster l r linked e) seats h = record {
  left_ready = inr (ground arith);
  right_ready = inr (ground arith);
}
Step-ReadyOf (continues_series ready votes series l r linked e place) seats h = record {
  left_ready = inr (ground arith);
  right_ready = inr (ground arith);
}
Step-ReadyOf {t = t} (cancels place) seats h = neither-AreReady t.members t.seats
Step-ReadyOf (votes_for seat accepted) seats h = h
Step-ReadyOf {t = t} (sets patch place wins few) seats h = neither-AreReady t.members t.seats
Step-ReadyOf (hands_over target linked place) seats h = h
Step-ReadyOf {s} (drops key m id epoch deadline found was soon still) seats h =
    cleared-AreReady s.members key _ s.seats s.ready seats.apart h
Step-ReadyOf {t = t} (drops_and_cancels key m id epoch deadline found was soon) seats h =
    neither-AreReady t.members t.seats
Step-ReadyOf {s} (resumes key m id epoch deadline requested found was safe new) seats h =
    set_online-ReadyOf s key _ refl h
Step-ReadyOf {s} (replaces key m own id epoch found was safe new) seats h =
    set_online-ReadyOf s key _ refl h
Step-ReadyOf {s} (forfeits key m active epoch deadline requested found was e now) seats h =
    let lost : is_online m.connection ≡ false = ap is_online was in
    map-AreReady s.members (set_member s.members key _) s.seats s.ready
      (λ k.
        connected_id-set_other s.members key _ s.seats.left
          (offline-IsOther s.members key m s.seats.left found lost k) k)
      (λ k.
        connected_id-set_other s.members key _ s.seats.right
          (offline-IsOther s.members key m s.seats.right found lost k) k)
      h
Step-ReadyOf {t = t} (starts match_id c roster e k l linked) seats h =
    neither-AreReady t.members t.seats
Step-ReadyOf {t = t} (finishes q active series now e k fits) seats h =
    neither-AreReady t.members t.seats
Step-ReadyOf {t = t} (closes reason) seats h = neither-AreReady t.members t.seats
