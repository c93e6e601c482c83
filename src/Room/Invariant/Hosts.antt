-- ===== src/Room/Invariant/Hosts.antt =====
-- The host of a room is a member of it, and while a member is connected there is a host.
use tetr_d.Base.{
  ℕ, ◌+◌, ◌≡◌, ◌⊎◌, inl, inr, refl, sym, ap, ◌∙◌, subst, Bool, true, false, Option, none, some, [],
  ◌∷◌, arith, Bool-cases, Option-cases,
}
use tetr_d.Base.Texts.{Text, same_text, same_text_sound}
use tetr_d.Room.{RoomPolicy, RoomMember, online, offline, Members, RoomState}
use tetr_d.Room.Validation.{
  own_member, set_member, without_member, is_some, is_id, is_online, connected, seat_of,
  first_candidate, comes_first, choose_host,
}
use tetr_d.Room.Checks.{any_online}
use tetr_d.Room.Operations.{reset_competition, unlisted, remove_member_state}
use tetr_d.Room.Handlers.MatchCommands.{renewed, renewed_for, renewed_as}
use tetr_d.Room.Lookup.{
  HasDistinctKeys, text-cases, own_member-without_same, own_member-without_other,
  without_member-HasDistinctKeys, own_member-head, own_member-tail, any_entry-found,
}
use tetr_d.Room.Invariant.Seats.{
  IsPresent, set_member-IsPresent, set_member-has_key, without_member-IsPresent, not_is_id-IsOther,
}
use tetr_d.Room.Steps.{
  Step, watches, plays, parts, stands, sits, readies, begins_series, continues_series, cancels,
  votes_for, sets, hands_over, drops, drops_and_cancels, resumes, replaces, forfeits, starts,
  finishes, closes,
}

abbrev pub IsHost : Members → Option Text → Type 0
IsHost ms none = any_online ms ≡ false
IsHost ms (some id) = IsPresent ms (some id)

-- Each entry is the member of its own player ID.
abbrev AreKeyed : Members → Type 0
AreKeyed ms =
    (key : Text) (m : RoomMember)
    → own_member ms key ≡ some m
    → same_text key m.player.player_id ≡ true

any_online-set :
    (ms : Members) (key : Text) (m : RoomMember)
    → is_online m.connection ≡ false
    → any_online ms ≡ false
    → any_online (set_member ms key m) ≡ false
unfolding set_member
any_online-set [] key m lost h = rw lost refl
any_online-set ((k, v) ∷ rest) key m lost h = elim (Bool-cases (same_text k key)) [
  | inl e ↦ rw (e, lost) (ground arith)
  | inr e ↦ rw e (ground (arith, any_online-set rest key m lost (ground arith)))
]

any_online-without :
    (ms : Members) (key : Text) → any_online ms ≡ false → any_online (without_member ms key) ≡ false
unfolding without_member
any_online-without [] key h = refl
any_online-without ((k, v) ∷ rest) key h = elim (Bool-cases (same_text k key)) [
  | inl e ↦ rw e (any_online-without rest key (ground arith))
  | inr e ↦ rw e (ground (arith, any_online-without rest key (ground arith)))
]

-- The candidate chosen is the first entry's or the one of the rest.
chosen :
    (s : RoomState) (k : Text) (m : RoomMember) (rest : Members)
    → (first_candidate s ((k, m) ∷ rest) ≡ some m)
      ⊎ ((first_candidate s ((k, m) ∷ rest) ≡ first_candidate s rest)
          × ((is_online m.connection ≡ false) ⊎ (is_some (first_candidate s rest) ≡ true)))
unfolding first_candidate
chosen s k m rest = elim (Bool-cases (is_online m.connection)) [
  | inr e ↦ inr (rw e refl, inl e)
  | inl e ↦ elim (Option-cases (first_candidate s rest)) [
    | inl o ↦ inl (rw (e, o) refl)
    | inr (other, o) ↦ elim (Bool-cases (comes_first s m other)) [
      | inl c ↦ inl (rw (e, o, c) refl)
      | inr c ↦ inr (rw (e, o, c) refl, inr (ap is_some o))
    ]
  ]
]

-- No candidate is left only when nobody is connected.
first_candidate-none :
    (s : RoomState) (ms : Members) → first_candidate s ms ≡ none → any_online ms ≡ false
unfolding first_candidate
first_candidate-none s [] h = refl
first_candidate-none s ((k, m) ∷ rest) h = elim (chosen s k m rest) [
  | inl e ↦ absurd (cc)
  | inr (e, why) ↦
      let none_later : first_candidate s rest ≡ none = sym e ∙ h in
      let rest_offline = first_candidate-none s rest none_later in
      elim why [
        | inl lost ↦ rw lost rest_offline
        | inr is_one ↦ absurd (let found = sym is_one ∙ ap is_some none_later in cc)
      ]
]

nobody : (s : RoomState) (m : RoomMember) → first_candidate s [] ≡ some m → ⊥
unfolding first_candidate
nobody s m h = cc

first_candidate-some :
    (s : RoomState) (ms : Members) (m : RoomMember)
    → HasDistinctKeys ms
    → first_candidate s ms ≡ some m
    → (key : Text) × (own_member ms key ≡ some m)
first_candidate-some s [] m keys h = absurd (nobody s m h)
first_candidate-some s ((k, v) ∷ rest) m (new, keys) h = elim (chosen s k v rest) [
  | inl e ↦ (k, own_member-head k v rest ∙ sym e ∙ h)
  | inr (e, why) ↦
      let (key, found) = first_candidate-some s rest m keys (sym e ∙ h) in
      (key, own_member-tail k v rest key m new found)
]

-- The host chosen fits.
choose_host-IsHost :
    (s : RoomState)
    → HasDistinctKeys s.members
    → AreKeyed s.members
    → IsHost s.members (choose_host s)
unfolding choose_host
choose_host-IsHost s distinct keyed =
    let as_id : Option RoomMember → Option Text =
      λ c. elim c [ none ↦ none | some m ↦ some m.player.player_id ] in
    elim (Option-cases (first_candidate s s.members)) [
      | inl e ↦ subst (IsHost s.members) (sym (ap as_id e)) (first_candidate-none s s.members e)
      | inr (m, e) ↦
          let (key, found) = first_candidate-some s s.members m distinct e in
          let own = same_text_sound key m.player.player_id (keyed key m found) in
          subst (IsHost s.members) (sym (ap as_id e))
            (ap (λ k. is_some (own_member s.members k)) (sym own) ∙ ap is_some found)
    ]

-- Look-up after a removal finds what it found before.
pub without_member-found :
    (ms : Members) (key other : Text) (m : RoomMember)
    → own_member (without_member ms key) other ≡ some m
    → own_member ms other ≡ some m
without_member-found ms key other m found = elim (text-cases key other) [
  | inl e ↦ absurd (
      let gone = sym (ap (own_member (without_member ms key)) e) ∙ own_member-without_same ms key in
      let both = sym found ∙ gone in cc)
  | inr e ↦ sym (own_member-without_other ms key other e) ∙ found
]

any_online-found :
    (ms : Members) (key : Text) (m : RoomMember)
    → any_online ms ≡ false
    → own_member ms key ≡ some m
    → is_online m.connection ≡ false
any_online-found = any_entry-found (λ m. is_online m.connection)

hosted-IsHost :
    (ms : Members) (key : Text) (m : RoomMember) (host : Option Text)
    → IsHost ms host
    → IsHost (set_member ms key m) (elim host [ none ↦ some key | some h ↦ some h ])
hosted-IsHost ms key m none h = set_member-has_key ms key m
hosted-IsHost ms key m (some id) h = set_member-IsPresent ms key m (some id) h

set_offline-IsHost :
    (ms : Members) (key : Text) (m : RoomMember) (host : Option Text)
    → is_online m.connection ≡ false
    → IsHost ms host
    → IsHost (set_member ms key m) host
set_offline-IsHost ms key m none lost h = any_online-set ms key m lost h
set_offline-IsHost ms key m (some id) lost h = set_member-IsPresent ms key m (some id) h

-- A member who was connected before had a host.
set_found-IsHost :
    (ms : Members) (key : Text) (m v : RoomMember) (host : Option Text)
    → own_member ms key ≡ some m
    → is_online m.connection ≡ true
    → IsHost ms host
    → IsHost (set_member ms key v) host
set_found-IsHost ms key m v none found linked h =
    absurd (let both = sym linked ∙ any_online-found ms key m h found in cc)
set_found-IsHost ms key m v (some id) found linked h = set_member-IsPresent ms key v (some id) h

without_member-IsHost :
    (ms : Members) (key : Text) (host : Option Text)
    → is_id host key ≡ false
    → IsHost ms host
    → IsHost (without_member ms key) host
without_member-IsHost ms key none other h = any_online-without ms key h
without_member-IsHost ms key (some id) other h =
    without_member-IsPresent ms key (some id) (not_is_id-IsOther (some id) key other) h

renewed-IsHost :
    (ms : Members) (key : Text) (deadline : ℕ) (host : Option Text)
    → IsHost ms host
    → IsHost (renewed ms key deadline) host
renewed-IsHost ms key deadline host h =
    elim (own_member ms key) as (λ o. IsHost (renewed_for ms key deadline o) host) [
      | none ↦ h
      | some m ↦ elim m.connection as (λ c. IsHost (renewed_as ms key deadline m c) host) [
        | online id epoch ↦ h
        | offline epoch old requested ↦ set_offline-IsHost ms key _ host refl h
      ]
    ]

abbrev pub HostOf : RoomState → Type 0
HostOf s = IsHost s.members s.host_player_id

removal-HostOf :
    (s : RoomState) (key : Text) (denies : Bool)
    → HasDistinctKeys s.members
    → AreKeyed s.members
    → HostOf s
    → HostOf (remove_member_state s key denies)
removal-HostOf s key denies distinct keyed h =
    let keys = without_member-HasDistinctKeys s.members key distinct in
    let names : AreKeyed (without_member s.members key) =
      λ k m found. keyed k m (without_member-found s.members key k m found) in
    let listed : RoomState = unlisted s key denies in
    let stays = without_member-IsHost s.members key s.host_player_id in
    elim (Bool-cases (is_some (seat_of s key))) [
      | inl e ↦ elim (Bool-cases (is_id s.host_player_id key)) [
        | inl k ↦ rw (e, k) (choose_host-IsHost (reset_competition listed) keys names)
        | inr k ↦ rw (e, k) (stays k h)
      ]
      | inr e ↦ elim (Bool-cases (is_id s.host_player_id key)) [
        | inl k ↦ rw (e, k) (choose_host-IsHost listed keys names)
        | inr k ↦ rw (e, k) (stays k h)
      ]
    ]

found-IsPresent :
    (ms : Members) (key : Text) → connected (own_member ms key) ≡ true → IsPresent ms (some key)
found-IsPresent ms key h = ground arith

-- Every step of a room keeps its host among its members, and no connected member without a host.
pub Step-HostOf :
    {s : RoomState} {policy : RoomPolicy} {joins : Option Text} {at_ms : ℕ} {t : RoomState}
    → Step s policy joins at_ms t
    → HasDistinctKeys s.members
    → AreKeyed s.members
    → HostOf s
    → HostOf t
Step-HostOf {s} (watches q brings can few) distinct keyed h =
    hosted-IsHost s.members q.player.player_id _ s.host_player_id h
Step-HostOf {s} (plays q seat brings can place free) distinct keyed h =
    hosted-IsHost s.members q.player.player_id _ s.host_player_id h
Step-HostOf {s} (parts key m denies found) distinct keyed h =
    removal-HostOf s key denies distinct keyed h
Step-HostOf (stands key m found place few) distinct keyed h = h
Step-HostOf (sits key m seat found place free) distinct keyed h = h
Step-HostOf (readies seat is_ready allowed linked) distinct keyed h = h
Step-HostOf (begins_series origin ready votes roster l r linked e) distinct keyed h = h
Step-HostOf (continues_series ready votes series l r linked e place) distinct keyed h = h
Step-HostOf (cancels place) distinct keyed h = h
Step-HostOf (votes_for seat accepted) distinct keyed h = h
Step-HostOf (sets patch place wins few) distinct keyed h = h
Step-HostOf {s} (hands_over target linked place) distinct keyed h =
    found-IsPresent s.members target linked
Step-HostOf {s} (drops key m id epoch deadline found was soon still) distinct keyed h =
    set_offline-IsHost s.members key _ s.host_player_id refl h
Step-HostOf {s} (drops_and_cancels key m id epoch deadline found was soon) distinct keyed h =
    set_offline-IsHost s.members key _ s.host_player_id refl h
Step-HostOf {s} (resumes key m id epoch deadline requested found was safe new) distinct keyed h =
    hosted-IsHost s.members key _ s.host_player_id h
Step-HostOf {s} (replaces key m own id epoch found was safe new) distinct keyed h =
    set_found-IsHost s.members key m _ s.host_player_id found (ap is_online was) h
Step-HostOf {s} (forfeits key m active epoch deadline requested found was e now) distinct keyed h =
    set_offline-IsHost s.members key _ s.host_player_id refl h
Step-HostOf (starts match_id c roster e k l linked) distinct keyed h = h
Step-HostOf {s} {policy = policy} (finishes q active series now e k fits) distinct keyed h =
    let deadline = q.at_ms + policy.lobby_reconnect_grace_ms in
    renewed-IsHost (renewed s.members active.participants.left deadline) active.participants.right
      deadline s.host_player_id
      (renewed-IsHost s.members active.participants.left deadline s.host_player_id h)
Step-HostOf (closes reason) distinct keyed h = refl
