-- ===== src/Room/Invariant/Parting.antt =====
-- The cases of `removeMemberState` in packages/room-core/src/operations.ts.
use tetr_d.Base.{◌≡◌, Bool, true, false, Option, Bool-cases, inl, inr}
use tetr_d.Base.Texts.{Text}
use tetr_d.Room.{RoomState}
use tetr_d.Room.Validation.{is_some, is_id, seat_of, choose_host}
use tetr_d.Room.Operations.{reset_competition, unlisted, remove_member_state}

-- A predicate of the room after a removal, by whether the member held a seat; the host is given
-- back by an argument of its own.
module _ (P : RoomState → Type 0) (s : RoomState) (key : Text) (denies : Bool) where
  pub of_removal :
      ((host : Option Text)
        → is_some (seat_of s key) ≡ true
        → P (record (reset_competition (unlisted s key denies)) { host_player_id = host }))
      → ((host : Option Text)
          → is_some (seat_of s key) ≡ false
          → P (record (unlisted s key denies) { host_player_id = host }))
      → P (remove_member_state s key denies)
  of_removal of_seated of_watching = elim (Bool-cases (is_some (seat_of s key))) [
    | inl e ↦ elim (Bool-cases (is_id s.host_player_id key)) [
      | inl h ↦ rw (e, h) (of_seated (choose_host (reset_competition (unlisted s key denies))) e)
      | inr h ↦ rw (e, h) (of_seated s.host_player_id e)
    ]
    | inr e ↦ elim (Bool-cases (is_id s.host_player_id key)) [
      | inl h ↦ rw (e, h) (of_watching (choose_host (unlisted s key denies)) e)
      | inr h ↦ rw (e, h) (of_watching s.host_player_id e)
    ]
  ]
