-- ===== src/Lock/Tests.antt =====
-- The theorem on packages/game-core/src/playerLockResolution.ts at two concrete locks.
use tetr_d.Base.{ℕ, ◌*◌, none, [], ◌∷◌}
use tetr_d.Base.Int.{pos, negsuc}
use tetr_d.Pieces.{i_piece, rotation0}
use tetr_d.Board.Samples.{holed}
use tetr_d.Garbage.{SimulationGarbagePacket}
use tetr_d.Attack.{Reals}
use tetr_d.Lock.{PlayerLockResolutionOptions}

abbrev hundredths : Reals
hundredths = record { quarter = 25; log_units = λ c. c * 40 }

abbrev rolls : ℕ → ℕ
rolls k = 30

abbrev coming : SimulationGarbagePacket
coming = record {
  packet_id = 112 ∷ [];
  source_player_id = 113 ∷ [];
  amount = 2;
  applies_at_frame = 10;
  hole = 3;
}

-- An I piece that fills the hole, with garbage pending.
abbrev clearing : PlayerLockResolutionOptions
clearing = record {
  board = holed;
  piece = record { kind = i_piece; rotation = rotation0; x = pos 3; y = negsuc 1 };
  last_rotation = none;
  combo = pos 1;
  back_to_back = record { difficult_clear_streak = 6 };
  pieces_placed_before_lock = 5;
  total_attack_sent = 0;
  pending_garbage = coming ∷ [];
  server_frame = 20;
  garbage_cap = 8;
  rolls_read = 0;
}
