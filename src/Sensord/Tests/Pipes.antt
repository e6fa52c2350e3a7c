-- ===== src/Sensord/Tests/Pipes.antt =====
-- Runs of the command pipe, of the clock and of a reading of the acceleration chip.
use vibe_xperia.Prelude.{
  ℕ, zero, suc, List, ◌+◌, ◌-◌, ◌*◌, ◌<◌, ◌≡◌, refl, [], ◌∷◌, ◌++◌, map, none, some, arith,
  if◌then◌else◌, pos, minus_one,
}
use vibe_xperia.Sensord.Provider.Instances.{fusion_ops}
use vibe_xperia.Sensord.Channel.{eq_ℤ, channel_on_cmd_received}
use vibe_xperia.Sensord.Samples.{good_driver, fusion_off, world}
use vibe_xperia.Sensord.Events.{Bytes, failed, got, exchange_of, magic_cmd, check_cmd_event}
use vibe_xperia.Sensord.Events.Frames.{joined, check_cmd_event-Pieces}
use vibe_xperia.Sensord.Time.{Timeval, get_time_tick}
use vibe_xperia.Sensord.Time.Ticks.{us, get_time_tick-near}
use vibe_xperia.Sensord.Hw.Remap.{Vec3, neg}
use vibe_xperia.Sensord.Hw.DriverA.{abs_x, abs_z, ev_syn, hw_acc_read_xyzdata_input_ev}
use vibe_xperia.Sensord.Hw.DriverA.Axes.{
  Reported, latest_vec, reports, placed, hw_acc_read_xyzdata_input_ev_lem,
}

abbrev zeros : ℕ → Bytes
zeros zero = []
zeros (suc n) = 0 ∷ zeros n

-- A frame that switches channel 3 on, with its magic, in two pieces, and the rest of its bytes
abbrev first_piece : Bytes
first_piece = 67 ∷ 0 ∷ 0 ∷ 0 ∷ 0 ∷ 0 ∷ 0 ∷ 0 ∷ 1 ∷ 0 ∷ 0 ∷ 0 ∷ 3 ∷ 0 ∷ []

abbrev second_piece : Bytes
second_piece = 0 ∷ 0 ∷ 1 ∷ 0 ∷ 0 ∷ 0 ∷ zeros 36

abbrev pieces : List Bytes
pieces = first_piece ∷ second_piece ∷ []

exchange_of-pieces :
    exchange_of (joined pieces)
    ≡ record { magic = pos 67; code = pos 3; cmd = pos 1; value = pos 1 }
unfolding exchange_of
exchange_of-pieces = refl

check_cmd_event-Pieces_example :
    check_cmd_event good_driver fusion_ops
      (zeros 56)
      (map got pieces ++ failed ∷ [])
      (world fusion_off)
    ≡ some (
      (let cmd = exchange_of (joined pieces) in
          if eq_ℤ magic_cmd cmd.magic
          then (channel_on_cmd_received good_driver fusion_ops
              (world fusion_off)
              cmd.code
              cmd.cmd
              cmd.value).1
          else world fusion_off),
      failed ∷ [],
    )
check_cmd_event-Pieces_example =
    check_cmd_event-Pieces good_driver fusion_ops (zeros 56) pieces (failed ∷ []) (world fusion_off)
      (omega arith, (omega arith, tt)) refl refl

get_time_tick-near_example :
    (let start : Timeval = record { tv_sec = 10; tv_usec = 900000 } in
      let now : Timeval = record { tv_sec = 12; tv_usec = 100 } in
      let t = (get_time_tick start now).0 in
      (t * 1000 < us now - us start + 1000)
      × (us now - us start < t * 1000 + 1000)
      × ((get_time_tick start now).1 ≡ start))
get_time_tick-near_example =
    get_time_tick-near 10 900000 12 100 (omega arith) (omega arith) (omega arith) (omega arith)

abbrev reading : List Reported
reading = some (abs_x, pos 64) ∷ none ∷ some (abs_z, pos 640) ∷ some (abs_x, pos 128) ∷ []

abbrev at_rest : Vec3
at_rest = record { x = pos 0; y = pos 64; z = pos 0 }

-- The first placement turns by a quarter.
turned_reading :
    placed (some 0) (latest_vec reading at_rest) ≡ record { x = minus_one; y = pos 2; z = pos 10 }
unfolding neg
turned_reading = refl

hw_acc_read_xyzdata_input_ev_lem_example :
    (hw_acc_read_xyzdata_input_ev (some 0) (reports reading ++ some ev_syn ∷ []) at_rest
      ≡ some (pos 0, placed (some 0) (latest_vec reading at_rest), []))
    × (hw_acc_read_xyzdata_input_ev (some 0) (reports reading ++ none ∷ []) at_rest
        ≡ some (minus_one, latest_vec reading at_rest, []))
hw_acc_read_xyzdata_input_ev_lem_example =
    hw_acc_read_xyzdata_input_ev_lem (some 0) reading at_rest [] (omega arith)
