-- ===== src/Room/Invariant/Seats.antt =====
-- The seats of a room are held by two different members of it.
use tetr_d.Base.{
  ℕ, ◌+◌, ◌≡◌, inl, inr, sym, ap, ◌∙◌, subst, true, false, Option, none, some, arith, Bool-cases,
}
use tetr_d.Base.Texts.{Text, same_text, same_text_sound}
use tetr_d.Room.{
  Pair, SeatIndex, seat0, seat1, RoomPolicy, RoomMember, online, offline, Members, RoomState,
}
use tetr_d.Room.Validation.{
  own_member, set_member, without_member, is_some, is_id, seat_among, with_seat,
}
use tetr_d.Room.Operations.{vacated}
use tetr_d.Room.Handlers.MatchCommands.{renewed, renewed_for, renewed_as}
use tetr_d.Room.Lookup.{
  same_text_sym, text-cases, own_member-set_same, own_member-set_other, own_member-without_other,
}
use tetr_d.Room.Invariant.Parting.{of_removal}
use tetr_d.Room.Steps.{
  Step, watches, plays, parts, stands, sits, readies, begins_series, continues_series, cancels,
  votes_for, sets, hands_over, drops, drops_and_cancels, resumes, replaces, forfeits, starts,
  finishes, closes,
}

-- `null`, or the ID of a member.
abbrev pub IsPresent : Members → Option Text → Type 0
IsPresent ms none = Unit
IsPresent ms (some id) = is_some (own_member ms id) ≡ true

abbrev pub IsOther : Text → Option Text → Type 0
IsOther key none = Unit
IsOther key (some id) = same_text key id ≡ false

abbrev pub AreApart : Option Text → Option Text → Type 0
AreApart none b = Unit
AreApart (some a) b = IsOther a b

pub record AreSeats (ms : Members) (seats : Pair (Option Text)) : Type 0 where
  pub left_present : IsPresent ms seats.left
  pub right_present : IsPresent ms seats.right
  pub apart : AreApart seats.left seats.right

pub set_member-IsPresent :
    (ms : Members) (key : Text) (m : RoomMember) (o : Option Text)
    → IsPresent ms o
    → IsPresent (set_member ms key m) o
set_member-IsPresent ms key m none h = tt
set_member-IsPresent ms key m (some id) h = elim (text-cases key id) [
  | inl e ↦
      ap is_some (ap (own_member (set_member ms key m)) (sym e) ∙ own_member-set_same ms key m)
  | inr e ↦ ap is_some (own_member-set_other ms key m id e) ∙ h
]

pub set_member-has_key :
    (ms : Members) (key : Text) (m : RoomMember) → IsPresent (set_member ms key m) (some key)
set_member-has_key ms key m = ap is_some (own_member-set_same ms key m)

pub without_member-IsPresent :
    (ms : Members) (key : Text) (o : Option Text)
    → IsOther key o
    → IsPresent ms o
    → IsPresent (without_member ms key) o
without_member-IsPresent ms key none other h = tt
without_member-IsPresent ms key (some id) other h =
    ap is_some (own_member-without_other ms key id other) ∙ h

-- A new ID is not that of a member.
new-IsOther :
    (ms : Members) (key : Text) (o : Option Text)
    → own_member ms key ≡ none
    → IsPresent ms o
    → IsOther key o
new-IsOther ms key none new h = tt
new-IsOther ms key (some id) new h = elim (text-cases key id) [
  | inl e ↦ absurd (
      let found : is_some (own_member ms key) ≡ true = ap (λ k. is_some (own_member ms k)) e ∙ h in
      ground (arith, new, found))
  | inr e ↦ e
]

IsOther-AreApart : (key : Text) (o : Option Text) → IsOther key o → AreApart o (some key)
IsOther-AreApart key none h = tt
IsOther-AreApart key (some id) h = same_text_sym key id h

pub not_is_id-IsOther : (o : Option Text) (key : Text) → is_id o key ≡ false → IsOther key o
not_is_id-IsOther none key h = tt
not_is_id-IsOther (some id) key h = same_text_sym id key h

pub is_id→≡ : (o : Option Text) (key : Text) → is_id o key ≡ true → o ≡ some key
is_id→≡ none key h = cc
is_id→≡ (some id) key h = ap some (same_text_sound id key h)

AreApart-none : (o : Option Text) → AreApart o none
AreApart-none none = tt
AreApart-none (some a) = tt

set_member-AreSeats :
    (ms : Members) (key : Text) (m : RoomMember) (seats : Pair (Option Text))
    → AreSeats ms seats
    → AreSeats (set_member ms key m) seats
set_member-AreSeats ms key m seats h = record {
  left_present = set_member-IsPresent ms key m seats.left h.left_present;
  right_present = set_member-IsPresent ms key m seats.right h.right_present;
  apart = h.apart;
}

-- A free seat is taken by someone who sits nowhere.
with_seat-AreSeats :
    (ms : Members) (seats : Pair (Option Text)) (seat : SeatIndex) (key : Text)
    → AreSeats ms seats
    → IsPresent ms (some key)
    → IsOther key seats.left
    → IsOther key seats.right
    → AreSeats ms (with_seat seats seat (some key))
with_seat-AreSeats ms seats seat0 key h has l r = record {
  left_present = has;
  right_present = h.right_present;
  apart = r;
}
with_seat-AreSeats ms seats seat1 key h has l r = record {
  left_present = h.left_present;
  right_present = has;
  apart = IsOther-AreApart key seats.left l;
}

-- A member who gives a seat up sits nowhere.
pub record IsUnseated (ms : Members) (key : Text) (seats : Pair (Option Text)) : Type 0 where
  pub remaining : AreSeats ms seats
  pub not_left : IsOther key seats.left
  pub not_right : IsOther key seats.right

vacated-IsUnseated :
    (ms : Members) (key : Text) (seats : Pair (Option Text))
    → AreSeats ms seats
    → IsUnseated ms key (vacated seats (seat_among seats key))
vacated-IsUnseated ms key seats h = elim (Bool-cases (is_id seats.left key)) [
  | inl e ↦
      let here = is_id→≡ seats.left key e in
      rw e (record {
        remaining = record { left_present = tt; right_present = h.right_present; apart = tt };
        not_left = tt;
        not_right = subst (λ o. AreApart o seats.right) here h.apart;
      })
  | inr e ↦ elim (Bool-cases (is_id seats.right key)) [
    | inl k ↦
        rw (e, k)
          (record {
            remaining = record {
              left_present = h.left_present;
              right_present = tt;
              apart = AreApart-none seats.left;
            };
            not_left = not_is_id-IsOther seats.left key e;
            not_right = tt;
          })
    | inr k ↦
        rw (e, k)
          (record {
            remaining = h;
            not_left = not_is_id-IsOther seats.left key e;
            not_right = not_is_id-IsOther seats.right key k;
          })
  ]
]

without_member-AreSeats :
    (ms : Members) (key : Text) (seats : Pair (Option Text))
    → IsUnseated ms key seats
    → AreSeats (without_member ms key) seats
without_member-AreSeats ms key seats h = record {
  left_present = without_member-IsPresent ms key seats.left h.not_left h.remaining.left_present;
  right_present = without_member-IsPresent ms key seats.right h.not_right h.remaining.right_present;
  apart = h.remaining.apart;
}

renewed-AreSeats :
    (ms : Members) (key : Text) (deadline : ℕ) (seats : Pair (Option Text))
    → AreSeats ms seats
    → AreSeats (renewed ms key deadline) seats
renewed-AreSeats ms key deadline seats h =
    elim (own_member ms key) as (λ o. AreSeats (renewed_for ms key deadline o) seats) [
      | none ↦ h
      | some m ↦ elim m.connection as (λ c. AreSeats (renewed_as ms key deadline m c) seats) [
        | online id epoch ↦ h
        | offline epoch old requested ↦ set_member-AreSeats ms key _ seats h
      ]
    ]

abbrev pub SeatsOf : RoomState → Type 0
SeatsOf s = AreSeats s.members s.seats

joined-AreSeats :
    (s : RoomState) (key : Text) (m : RoomMember) (seat : SeatIndex)
    → own_member s.members key ≡ none
    → SeatsOf s
    → AreSeats (set_member s.members key m) (with_seat s.seats seat (some key))
joined-AreSeats s key m seat new h =
    with_seat-AreSeats (set_member s.members key m) s.seats seat key
      (set_member-AreSeats s.members key m s.seats h) (set_member-has_key s.members key m)
      (new-IsOther s.members key s.seats.left new h.left_present)
      (new-IsOther s.members key s.seats.right new h.right_present)

-- Every step of a room keeps its seats with two different members.
pub Step-SeatsOf :
    {s : RoomState} {policy : RoomPolicy} {joins : Option Text} {at_ms : ℕ} {t : RoomState}
    → Step s policy joins at_ms t
    → SeatsOf s
    → SeatsOf t
Step-SeatsOf {s} (watches q brings can few) h =
    set_member-AreSeats s.members q.player.player_id _ s.seats h
Step-SeatsOf {s} (plays q seat brings can place free) h =
    joined-AreSeats s q.player.player_id _ seat can.is_new h
Step-SeatsOf {s} (parts key m denies found) h =
    let gone =
      without_member-AreSeats s.members key _ (vacated-IsUnseated s.members key s.seats h) in
    of_removal SeatsOf s key denies (λ host e. gone) (λ host e. gone)
Step-SeatsOf {s} (stands key m found place few) h =
    (vacated-IsUnseated s.members key s.seats h).remaining
Step-SeatsOf {s} (sits key m seat found place free) h =
    let up = vacated-IsUnseated s.members key s.seats h in
    with_seat-AreSeats s.members _ seat key up.remaining (ap is_some found) up.not_left up.not_right
Step-SeatsOf (readies seat is_ready allowed linked) h = h
Step-SeatsOf (begins_series origin ready votes roster l r linked e) h = h
Step-SeatsOf (continues_series ready votes series l r linked e place) h = h
Step-SeatsOf (cancels place) h = h
Step-SeatsOf (votes_for seat accepted) h = h
Step-SeatsOf (sets patch place wins few) h = h
Step-SeatsOf (hands_over target linked place) h = h
Step-SeatsOf {s} (drops key m id epoch deadline found was soon still) h =
    set_member-AreSeats s.members key _ s.seats h
Step-SeatsOf {s} (drops_and_cancels key m id epoch deadline found was soon) h =
    set_member-AreSeats s.members key _ s.seats h
Step-SeatsOf {s} (resumes key m id epoch deadline requested found was safe new) h =
    set_member-AreSeats s.members key _ s.seats h
Step-SeatsOf {s} (replaces key m own id epoch found was safe new) h =
    set_member-AreSeats s.members key _ s.seats h
Step-SeatsOf {s} (forfeits key m active epoch deadline requested found was e now) h =
    set_member-AreSeats s.members key _ s.seats h
Step-SeatsOf (starts match_id c roster e k l linked) h = h
Step-SeatsOf {s} {policy = policy} (finishes q active series now e k fits) h =
    let deadline = q.at_ms + policy.lobby_reconnect_grace_ms in
    renewed-AreSeats (renewed s.members active.participants.left deadline) active.participants.right
      deadline s.seats (renewed-AreSeats s.members active.participants.left deadline s.seats h)
Step-SeatsOf (closes reason) h = record { left_present = tt; right_present = tt; apart = tt }
