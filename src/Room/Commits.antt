-- ===== src/Room/Commits.antt =====
-- What `commit` of packages/room-core/src/operations.ts makes of a proposed room.
use tetr_d.Base.{
  ℕ, ◌+◌, ◌≤◌, ◌≡◌, refl, subst, max, Bool, true, false, Option, none, some, List, [], ◌∷◌, ◌++◌,
  arith, Bool-cases, inl, inr, if◌then◌else◌,
}
use tetr_d.Base.Texts.{Text}
use tetr_d.Base.Result.{Result, ok, >>=-eq-ok, ok-injective}
use tetr_d.Room.{
  RoomPolicy, RoomState, RoomEffect, state_changed, RoomTransition, committed, rejected, ignored,
  RoomCommand,
}
use tetr_d.Room.Checks.{assert_room_invariants, is_closed, any_online}
use tetr_d.Room.Operations.{commit, stamped, expiry_for, expiry_by, ttl_for}
use tetr_d.Room.Transition.{transition_room, time_of}
use tetr_d.Room.Invariant.Parting.{of_removal}
use tetr_d.Room.Steps.{
  Step, watches, plays, parts, stands, sits, readies, begins_series, continues_series, cancels,
  votes_for, sets, hands_over, drops, drops_and_cancels, resumes, replaces, forfeits, starts,
  finishes, closes, Follows, refuses, passes, commits,
}
use tetr_d.Room.Steps.Commands.{transition_room-Follows}

-- The fields that no handler writes.
abbrev pub IsSame : RoomState → RoomState → Type 0
IsSame s t =
    (t.room_id ≡ s.room_id)
    × (t.room_code ≡ s.room_code)
    × (t.created_at_ms ≡ s.created_at_ms)
    × (t.absolute_expires_at_ms ≡ s.absolute_expires_at_ms)

pub Step-IsSame :
    {s : RoomState} {policy : RoomPolicy} {joins : Option Text} {at_ms : ℕ} {t : RoomState}
    → Step s policy joins at_ms t
    → IsSame s t
Step-IsSame (watches q brings can few) = (refl, refl, refl, refl)
Step-IsSame (plays q seat brings can place free) = (refl, refl, refl, refl)
Step-IsSame {s} (parts key m denies found) =
    of_removal (IsSame s) s key denies (λ host e. (refl, refl, refl, refl))
      (λ host e. (refl, refl, refl, refl))
Step-IsSame (stands key m found place few) = (refl, refl, refl, refl)
Step-IsSame (sits key m seat found place free) = (refl, refl, refl, refl)
Step-IsSame (readies seat is_ready allowed linked) = (refl, refl, refl, refl)
Step-IsSame (begins_series origin ready votes roster l r linked e) = (refl, refl, refl, refl)
Step-IsSame (continues_series ready votes series l r linked e place) = (refl, refl, refl, refl)
Step-IsSame (cancels place) = (refl, refl, refl, refl)
Step-IsSame (votes_for seat accepted) = (refl, refl, refl, refl)
Step-IsSame (sets patch place wins few) = (refl, refl, refl, refl)
Step-IsSame (hands_over target linked place) = (refl, refl, refl, refl)
Step-IsSame (drops key m id epoch deadline found was soon still) = (refl, refl, refl, refl)
Step-IsSame (drops_and_cancels key m id epoch deadline found was soon) = (refl, refl, refl, refl)
Step-IsSame (resumes key m id epoch deadline requested found was safe unused) =
    (refl, refl, refl, refl)
Step-IsSame (replaces key m own id epoch found was safe unused) = (refl, refl, refl, refl)
Step-IsSame (forfeits key m active epoch deadline requested found was e now) =
    (refl, refl, refl, refl)
Step-IsSame (starts match_id c roster e k l linked) = (refl, refl, refl, refl)
Step-IsSame (finishes q active series now e k fits) = (refl, refl, refl, refl)
Step-IsSame (closes reason) = (refl, refl, refl, refl)

-- A room after a commit at a time, with the effects of the commit.
pub record IsCommitted (s : RoomState) (at_ms : ℕ) (t : RoomState) (effects : List RoomEffect)
    : Type 0 where
  pub same : IsSame s t
  pub one_commit : t.presence_sequence ≡ s.presence_sequence + 1
  pub no_revision_lost : s.revision ≤ t.revision
  pub one_revision : t.revision ≤ s.revision + 1
  pub latest : t.updated_at_ms ≡ max s.updated_at_ms at_ms
  pub expires_in_time : t.expires_at_ms ≤ max t.updated_at_ms s.absolute_expires_at_ms
  pub asserted : assert_room_invariants t ≡ ok tt
  pub told :
      (before : List RoomEffect) × (effects
        ≡ before ++ state_changed t.revision t.presence_sequence ∷ [])

-- What a transition may be: the room as it was, or the room after one commit.
abbrev pub IsOutcome : RoomState → ℕ → RoomTransition → Type 0
IsOutcome s at_ms (committed t effects) = IsCommitted s at_ms t effects
IsOutcome s at_ms (rejected t code revision) = (t ≡ s) × (revision ≡ s.revision)
IsOutcome s at_ms (ignored t reason) = t ≡ s

pub expiry_for-bound :
    (s : RoomState) (now : ℕ) (policy : RoomPolicy)
    → expiry_for s now policy ≤ max now s.absolute_expires_at_ms
unfolding expiry_for
expiry_for-bound s now policy = elim (Bool-cases (is_closed s.phase)) [
  | inl e ↦ rw e (omega arith)
  | inr e ↦
      rw e (
        expiry_by-bound s.absolute_expires_at_ms now
          (ttl_for s.phase (any_online s.members) policy))
]
  where
    expiry_by-bound :
        (absolute now : ℕ) (ttl : Option ℕ) → expiry_by absolute now ttl ≤ max now absolute
    expiry_by-bound absolute now none = omega arith
    expiry_by-bound absolute now (some n) = omega arith

pub revision_low : (n : ℕ) (b : Bool) → n ≤ n + (if b then 1 else 0)
revision_low n true = omega arith
revision_low n false = omega arith

pub revision_high : (n : ℕ) (b : Bool) → n + (if b then 1 else 0) ≤ n + 1
revision_high n true = omega arith
revision_high n false = omega arith

commit-IsOutcome :
    (s u : RoomState) (at_ms : ℕ) (effects : List RoomEffect) (policy : RoomPolicy) (control : Bool)
    (t : RoomTransition)
    → IsSame s u
    → commit s u at_ms effects policy control ≡ ok t
    → IsOutcome s at_ms t
unfolding commit
commit-IsOutcome s u at_ms effects policy control t (id, code, created, limit) returned =
    let next = stamped s u at_ms policy control in
    let (done, passed, end) =
      >>=-eq-ok (assert_room_invariants next)
        (λ _.
          ok (committed next (effects ++ state_changed next.revision next.presence_sequence ∷ [])))
        returned in
    subst (IsOutcome s at_ms) (ok-injective end) (record {
      same = (id, code, created, limit);
      one_commit = refl;
      no_revision_lost = revision_low s.revision control;
      one_revision = revision_high s.revision control;
      latest = refl;
      expires_in_time =
          let bound = expiry_for-bound u next.updated_at_ms policy in
          subst (λ l. next.expires_at_ms ≤ max next.updated_at_ms l) limit bound;
      asserted = passed;
      told = (effects, refl);
    })

Follows-IsOutcome :
    {s : RoomState} {policy : RoomPolicy} {joins : Option Text} {at_ms : ℕ}
    {r : Result RoomTransition}
    → Follows s policy joins at_ms r
    → (t : RoomTransition) → r ≡ ok t
    → IsOutcome s at_ms t
Follows-IsOutcome {s} {at_ms = at_ms} (refuses code) t e =
    subst (IsOutcome s at_ms) (ok-injective e) (refl, refl)
Follows-IsOutcome {s} {at_ms = at_ms} (passes reason) t e =
    subst (IsOutcome s at_ms) (ok-injective e) refl
Follows-IsOutcome {s} {policy} {joins} {at_ms} (commits u effects control step) t e =
    commit-IsOutcome s u at_ms effects policy control t (Step-IsSame step) e

-- Whatever a command comes to, it leaves the room as it was, with the revision it has, or makes one
-- commit: the sequence number goes up by one and the revision by at most one, the time of the last
-- update does not go back, the identity and the absolute limit stay, the room expires by the limit or
-- at once, the invariants have been asserted, and the last effect tells the new numbers.
pub transition_room-IsOutcome :
    (s : RoomState) (c : RoomCommand) (policy : RoomPolicy) (t : RoomTransition)
    → transition_room s c policy ≡ ok t
    → IsOutcome s (time_of c) t
transition_room-IsOutcome s c policy t returned =
    Follows-IsOutcome (transition_room-Follows s c policy) t returned
