-- ===== src/Room/Handlers.antt =====
-- packages/room-core/src/handlers: one function for each command.
pub mod RoomCommands
pub mod PresenceCommands
pub mod MatchCommands
use tetr_d.Base.{Bool, true, false, Option, none, some}
use tetr_d.Base.Result.{Result, ok}
use tetr_d.Room.{
  RoomPhase, lobby, series_complete, RoomState, RoomErrorCode, StaleReason, RoomTransition,
}
use tetr_d.Room.Operations.{reject, ignore}

-- `return reject(state, code)`
abbrev pub refuse : RoomState → RoomErrorCode → Result RoomTransition
refuse s code = ok (reject s code)

-- `return ignore(state, reason)`
abbrev pub pass_over : RoomState → StaleReason → Result RoomTransition
pass_over s reason = ok (ignore s reason)

-- `if (error) return error;`
abbrev pub unless_error : Option RoomTransition → Result RoomTransition → Result RoomTransition
unless_error (some t) rest = ok t
unless_error none rest = rest

-- `phase === "lobby" || phase === "series_complete"`
abbrev pub is_open : RoomPhase → Bool
is_open lobby = true
is_open series_complete = true
is_open _ = false
