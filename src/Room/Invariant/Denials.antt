-- ===== src/Room/Invariant/Denials.antt =====
-- The player IDs that may not join again: at most 64, different, and none of a member.
use tetr_d.Base.{
  ℕ, zero, suc, ◌+◌, ◌-◌, ◌≤◌, ◌≡◌, inl, inr, refl, sym, ap, ◌∙◌, subst, Bool, true, false, not,
  ◌&&◌, Option, none, some, List, [], ◌∷◌, ◌++◌, length, drop, length-drop, All, All-append,
  All-drop, arith, Bool-cases, Option-cases, if◌then◌else◌,
}
use tetr_d.Base.Texts.{Text, same_text, same_text_sound, includes_text, distinct_texts}
use tetr_d.Room.{RoomPolicy, RoomMember, online, offline, Members, RoomState}
use tetr_d.Room.Validation.{own_member, set_member, without_member, safe_id, is_valid_player}
use tetr_d.Room.Checks.{max_denied_player_ids}
use tetr_d.Room.Operations.{last_denied}
use tetr_d.Room.Handlers.MatchCommands.{renewed, renewed_for, renewed_as}
use tetr_d.Room.Lookup.{
  same_text_sym, text-cases, own_member-set_other, own_member-without_same,
  own_member-without_other,
}
use tetr_d.Room.Invariant.Parting.{of_removal}
use tetr_d.Room.Invariant.Entries.{AreMembers}
use tetr_d.Room.Steps.{
  Step, watches, plays, parts, stands, sits, readies, begins_series, continues_series, cancels,
  votes_for, sets, hands_over, drops, drops_and_cancels, resumes, replaces, forfeits, starts,
  finishes, closes,
}

abbrev pub IsDenied : Members → Text → Type 0
IsDenied ms id = (safe_id id ≡ true) × (own_member ms id ≡ none)

pub record AreDenied (ms : Members) (ids : List Text) : Type 0 where
  pub few : length ids ≤ max_denied_player_ids
  pub distinct : distinct_texts ids ≡ true
  pub each : All (IsDenied ms) ids

map-All {ℓ κ μ} :
    {A : Type ℓ} (P : A → Type κ) (Q : A → Type μ) (xs : List A)
    → ((a : A) → P a → Q a)
    → All P xs
    → All Q xs
map-All P Q [] f h = tt
map-All P Q (x ∷ xs) f (p, h) = (f x p, map-All P Q xs f h)

IsDenied-set :
    (ms : Members) (key : Text) (m v : RoomMember) (id : Text)
    → own_member ms key ≡ some v
    → IsDenied ms id
    → IsDenied (set_member ms key m) id
IsDenied-set ms key m v id found (safe, gone) = elim (text-cases key id) [
  | inl e ↦ absurd (let there = ap (own_member ms) e ∙ gone in let both = sym found ∙ there in cc)
  | inr e ↦ (safe, own_member-set_other ms key m id e ∙ gone)
]

IsDenied-without :
    (ms : Members) (key id : Text) → IsDenied ms id → IsDenied (without_member ms key) id
IsDenied-without ms key id (safe, gone) = elim (text-cases key id) [
  | inl e ↦ (safe, ap (own_member (without_member ms key)) (sym e) ∙ own_member-without_same ms key)
  | inr e ↦ (safe, own_member-without_other ms key id e ∙ gone)
]

-- Nobody on the list joins.
All-set_new :
    (ms : Members) (key : Text) (m : RoomMember) (ids : List Text)
    → includes_text ids key ≡ false
    → All (IsDenied ms) ids
    → All (IsDenied (set_member ms key m)) ids
All-set_new ms key m [] new h = tt
All-set_new ms key m (id ∷ ids) new ((safe, gone), h) = (
  (safe, own_member-set_other ms key m id (ground arith) ∙ gone),
  All-set_new ms key m ids (ground arith) h,
)

set_new-AreDenied :
    (ms : Members) (key : Text) (m : RoomMember) (ids : List Text)
    → includes_text ids key ≡ false
    → AreDenied ms ids
    → AreDenied (set_member ms key m) ids
set_new-AreDenied ms key m ids new h = record {
  few = h.few;
  distinct = h.distinct;
  each = All-set_new ms key m ids new h.each;
}

set_found-AreDenied :
    (ms : Members) (key : Text) (m v : RoomMember) (ids : List Text)
    → own_member ms key ≡ some v
    → AreDenied ms ids
    → AreDenied (set_member ms key m) ids
set_found-AreDenied ms key m v ids found h = record {
  few = h.few;
  distinct = h.distinct;
  each =
      map-All (IsDenied ms) (IsDenied (set_member ms key m)) ids
        (λ id. IsDenied-set ms key m v id found) h.each;
}

without_member-AreDenied :
    (ms : Members) (key : Text) (ids : List Text)
    → AreDenied ms ids
    → AreDenied (without_member ms key) ids
without_member-AreDenied ms key ids h = record {
  few = h.few;
  distinct = h.distinct;
  each =
      map-All (IsDenied ms) (IsDenied (without_member ms key)) ids (IsDenied-without ms key) h.each;
}

includes-append :
    (ids : List Text) (a key : Text)
    → includes_text ids a ≡ false
    → same_text a key ≡ false
    → includes_text (ids ++ key ∷ []) a ≡ false
includes-append [] a key h e = rw e refl
includes-append (id ∷ ids) a key h e = ground (arith, includes-append ids a key (ground arith) e)

distinct-append :
    (ids : List Text) (key : Text)
    → distinct_texts ids ≡ true
    → includes_text ids key ≡ false
    → distinct_texts (ids ++ key ∷ []) ≡ true
unfolding distinct_texts
distinct-append [] key h new = refl
distinct-append (id ∷ ids) key h new =
    let apart = same_text_sym key id (ground arith) in
    ground (
      arith,
      includes-append ids id key (ground arith) apart,
      distinct-append ids key (ground arith) (ground arith),
    )

distinct-drop :
    (n : ℕ) (ids : List Text) → distinct_texts ids ≡ true → distinct_texts (drop n ids) ≡ true
unfolding distinct_texts
distinct-drop zero ids h = h
distinct-drop (suc n) [] h = h
distinct-drop (suc n) (id ∷ ids) h = distinct-drop n ids (ground arith)

last_denied-AreDenied :
    (ms : Members) (ids : List Text)
    → distinct_texts ids ≡ true
    → All (IsDenied ms) ids
    → AreDenied ms (last_denied ids)
last_denied-AreDenied ms ids apart h = record {
  few = let e = length-drop (length ids - max_denied_player_ids) ids in omega (arith, e);
  distinct = distinct-drop (length ids - max_denied_player_ids) ids apart;
  each = All-drop (IsDenied ms) (length ids - max_denied_player_ids) ids h;
}

-- A member who is kicked is denied, unless on the list already.
denied-AreDenied :
    (ms : Members) (key : Text) (denies : Bool) (ids : List Text)
    → safe_id key ≡ true
    → AreDenied ms ids
    → AreDenied
        (without_member ms key)
        (if denies && not (includes_text ids key) then last_denied (ids ++ key ∷ []) else ids)
denied-AreDenied ms key denies ids safe h =
    elim (Bool-cases (denies && not (includes_text ids key))) [
      | inr e ↦ rw e (without_member-AreDenied ms key ids h)
      | inl e ↦
          let new : includes_text ids key ≡ false = ground arith in
          let still = without_member-AreDenied ms key ids h in
          rw e (
            last_denied-AreDenied (without_member ms key) (ids ++ key ∷ [])
              (distinct-append ids key h.distinct new)
              (All-append (IsDenied (without_member ms key)) ids (key ∷ []) still.each
                ((safe, own_member-without_same ms key), tt)))
    ]

renewed-AreDenied :
    (ms : Members) (key : Text) (deadline : ℕ) (ids : List Text)
    → AreDenied ms ids
    → AreDenied (renewed ms key deadline) ids
renewed-AreDenied ms key deadline ids h = elim (Option-cases (own_member ms key)) [
  | inl e ↦ subst (λ o. AreDenied (renewed_for ms key deadline o) ids) (sym e) h
  | inr (m, e) ↦
      subst (λ o. AreDenied (renewed_for ms key deadline o) ids) (sym e)
        (elim m.connection as (λ c. AreDenied (renewed_as ms key deadline m c) ids) [
          | online id epoch ↦ h
          | offline epoch old requested ↦ set_found-AreDenied ms key _ m ids e h
        ])
]

safe_key :
    (count next : ℕ) (ms : Members) (key : Text) (m : RoomMember)
    → AreMembers count next ms
    → own_member ms key ≡ some m
    → safe_id key ≡ true
unfolding is_valid_player
safe_key count next ms key m h found =
    let e = h.each key m found in
    let same = same_text_sound key m.player.player_id e.own_key in
    let valid = e.is_player in subst (λ k. safe_id k ≡ true) (sym same) (ground (arith, valid))

nobody_there : (id : Text) → own_member [] id ≡ none
unfolding own_member
nobody_there id = refl

abbrev pub DeniedOf : RoomState → Type 0
DeniedOf s = AreDenied s.members s.denied_player_ids

-- Every step of a room keeps the list of the denied short, without repetition, and apart from its
-- members.
pub Step-DeniedOf :
    {s : RoomState} {policy : RoomPolicy} {joins : Option Text} {at_ms : ℕ} {t : RoomState}
    → Step s policy joins at_ms t
    → {count next : ℕ} → AreMembers count next s.members
    → DeniedOf s
    → DeniedOf t
Step-DeniedOf {s} (watches q brings can few) fits h =
    set_new-AreDenied s.members q.player.player_id _ s.denied_player_ids can.is_allowed h
Step-DeniedOf {s} (plays q seat brings can place free) fits h =
    set_new-AreDenied s.members q.player.player_id _ s.denied_player_ids can.is_allowed h
Step-DeniedOf {s} (parts key m denies found) {count} {next} fits h =
    let after =
      denied-AreDenied s.members key denies s.denied_player_ids
        (safe_key count next s.members key m fits found) h in
    of_removal DeniedOf s key denies (λ host e. after) (λ host e. after)
Step-DeniedOf (stands key m found place few) fits h = h
Step-DeniedOf (sits key m seat found place free) fits h = h
Step-DeniedOf (readies seat is_ready allowed linked) fits h = h
Step-DeniedOf (begins_series origin ready votes roster l r linked e) fits h = h
Step-DeniedOf (continues_series ready votes series l r linked e place) fits h = h
Step-DeniedOf (cancels place) fits h = h
Step-DeniedOf (votes_for seat accepted) fits h = h
Step-DeniedOf (sets patch place wins few) fits h = h
Step-DeniedOf (hands_over target linked place) fits h = h
Step-DeniedOf {s} (drops key m id epoch deadline found was near still) fits h =
    set_found-AreDenied s.members key _ m s.denied_player_ids found h
Step-DeniedOf {s} (drops_and_cancels key m id epoch deadline found was near) fits h =
    set_found-AreDenied s.members key _ m s.denied_player_ids found h
Step-DeniedOf {s} (resumes key m id epoch deadline requested found was safe unused) fits h =
    set_found-AreDenied s.members key _ m s.denied_player_ids found h
Step-DeniedOf {s} (replaces key m own id epoch found was safe unused) fits h =
    set_found-AreDenied s.members key _ m s.denied_player_ids found h
Step-DeniedOf {s} (forfeits key m active epoch deadline requested found was e now) fits h =
    set_found-AreDenied s.members key _ m s.denied_player_ids found h
Step-DeniedOf (starts match_id c roster e k l linked) fits h = h
Step-DeniedOf {s} {policy = policy} (finishes q active series now e k results) fits h =
    let deadline = q.at_ms + policy.lobby_reconnect_grace_ms in
    renewed-AreDenied (renewed s.members active.participants.left deadline)
      active.participants.right deadline s.denied_player_ids
      (renewed-AreDenied s.members active.participants.left deadline s.denied_player_ids h)
Step-DeniedOf {s} (closes reason) fits h = record {
  few = h.few;
  distinct = h.distinct;
  each =
      map-All (IsDenied s.members) (IsDenied []) s.denied_player_ids
        (λ id d. (d.0, nobody_there id)) h.each;
}
