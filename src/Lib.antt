-- ===== src/Lib.antt =====
-- The game core of the repository: pieces and their rotation, the board, garbage, attacks, and the
-- resolution of one lock; and the room core, in which two players meet for a series of games.
--
-- The parts and the files that model them, under packages/game-core/src:
--   Pieces     types.ts and pieces.ts: kinds, spawn cells, quarter turns round a pivot, and the
--              cells that a piece covers (localCellsFor, worldCellsFor)
--   Kicks      srsPlus.ts: the four kick tables, targetRotation and getKickTests
--   Board      board.ts: a matrix of forty rows, each a mask of ten bits, with a garbage flag;
--              createBoard, isPiecePlacementValid, lockPiece, insertGarbage and the queries
--   Rotation   rotation.ts, and boardAsPlayfield of board.ts: tryRotate and createPlayfield
--   Garbage    garbageQueue.ts: the queue of packets, what an attack cancels in it and what a lock
--              without clear takes from it
--   Spin       spinDetection.ts: classifyAllMiniPlusSpin
--   Attack     attackTypes.ts and versusAttack.ts: the attack of a clear, the back-to-back charge,
--              its Surge and the opener multiplier
--   Lock       playerLockResolution.ts: resolvePlayerLock, which runs the spin detection, locks the
--              piece, and either sends the attack through the queue or lets garbage in
--   Generation pieceSpawn.ts, pieceGenerationController.ts and playerPieceGeneration.ts: where the
--              next piece appears, with the hold and rotation buffered for it; inputs and spawn
--              causes of playerSimulationTypes.ts
--   Simulation playerSimulation.ts in part: moves, rotations and drops of the active piece, and the
--              lock timer that they put back
--   Room       packages/room-core/src: model.ts in Room, validation.ts in Room/Validation,
--              invariants.ts in Room/Checks, operations.ts in Room/Operations, handlers in
--              Room/Handlers, room.ts and createRoom.ts in Room/Transition. Room/Steps has the
--              changes that the handlers propose as a step relation, Room/Permission what each
--              command needs before it changes a room, Room/Invariant the conditions on a room,
--              field by field, Room/Safety the rooms that commands lead to
--   Base       Boolean tests, texts, lists, integers, the rounding of doubles, results with an
--              error, loops, and bit masks
--
-- How the code is read. A function that may throw returns a `Result`, whose error names the class
-- of the exception. Numbers that the code checks to be non-negative safe integers are natural
-- numbers, with the upper bound 2^53 - 1 tested where the code tests it; coordinates and the combo
-- are integers. A row is a number below 1024 and is read with the bitwise operations on natural
-- numbers. Pivots are kept in half units. Where sums and products of safe integers may pass 2^53,
-- in the cells of a piece, the code of a cell of a playfield and the cancelling of garbage, they
-- are rounded as doubles are. Steps of one or two from a coordinate, of moves and kicks, are exact,
-- as in the code but for the last coordinates before the safe integers' limits. The doubles of an
-- attack are whole multiples of one unit, so that a fraction is a remainder, and the logarithm is a
-- parameter; rounding errors of these fractions are not modelled. The rounding rolls and the piece
-- source are streams, with the number of rolls read and of pieces drawn so far. Values that the
-- TypeScript types exclude, and the freezing of objects, are not modelled.
--
-- The two loops of the garbage queue run on fuel: each round takes a packet away or uses up rows, so
-- the number of packets plus the number of rows, plus one, is enough, as the loop's rule shows.
-- A drop runs on fuel for 48 moves: a piece that fits stands fewer than 44 rows above its lowest
-- place. All other loops are recursion on a list or on the number of rows to try.
--
-- A text of the room core is the list of its UTF-16 code units, and an object keyed by player IDs the
-- list of its entries. A command has the shape that its TypeScript type gives it; times, counters and
-- limits are natural numbers, exact as long as they are safe integers, which the hypotheses on the
-- number of commits and on the times ensure.
--
-- Not modelled: the wire protocol, the server and the web client, which use the game core and the
-- room core; and of the game core the rest of a player's frame, its rules and the piece sequence.
mod Base
pub mod Pieces
pub mod Kicks
pub mod Board
pub mod Rotation
pub mod Garbage
pub mod Spin
pub mod Attack
pub mod Lock
pub mod Generation
pub mod Simulation
pub mod Room
