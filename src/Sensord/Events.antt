-- ===== src/Sensord/Events.antt =====
-- sensors/daemon/src/event_handler.c: the frames of the command pipe. What `read` gives is a list, one answer for
-- each call.
pub mod Frames
use vibe_xperia.Prelude.{
  ℕ, zero, suc, ◌+◌, ◌-◌, ◌*◌, ◌^◌, ltb, length, get_or, Bool, true, false, List, [], ◌∷◌, Option,
  none, some, ◌==◌, ◌&&◌, if◌then◌else◌, ℤ, pos, negsuc, minus_one,
}
use vibe_xperia.Sensord.Hw.{Driver}
use vibe_xperia.Sensord.Provider.State.{Ops, World}
use vibe_xperia.Sensord.Channel.{eq_ℤ, channel_on_cmd_received}

abbrev pub Bytes : Type 0
Bytes = List ℕ

-- What one `read` answers: an error, or the bytes that it puts behind the pointer it is given
pub data ReadAnswer : Type 0 where
  failed : ReadAnswer
  got : Bytes → ReadAnswer

-- The buffer after bytes have been put at an offset; what would lie behind its end is left out.
unfoldable pub write_at : ℕ → Bytes → Bytes → Bytes
write_at zero [] buf = buf
write_at zero (b ∷ bs) [] = []
write_at zero (b ∷ bs) (x ∷ buf) = b ∷ write_at zero bs buf
write_at (suc p) bs [] = []
write_at (suc p) bs (x ∷ buf) = x ∷ write_at p bs buf

-- The loop of `readn` with `nleft` bytes to come and `ptr` at an offset of the buffer: what it returns, the
-- buffer, and the answers that are left; `none` while it waits for more. An answer does not have more
-- bytes than were asked for.
unfoldable pub readn_loop :
    ℕ → ℕ → ℕ → Bytes → List ReadAnswer → Option (ℤ × Bytes × List ReadAnswer)
unfolding write_at
readn_loop nbyte zero ptr buf reads = some (pos nbyte, buf, reads)
readn_loop nbyte (suc n) ptr buf [] = none
readn_loop nbyte (suc n) ptr buf (failed ∷ reads) = some (minus_one, buf, reads)
readn_loop nbyte (suc n) ptr buf (got bs ∷ reads) =
    readn_loop nbyte (suc n - length bs) (ptr + length bs) (write_at ptr bs buf) reads

unfoldable pub readn : Bytes → ℕ → List ReadAnswer → Option (ℤ × Bytes × List ReadAnswer)
unfolding readn_loop
readn buf nbyte reads = readn_loop nbyte nbyte 0 buf reads

-- `struct exchange` of a command
pub record Exchange : Type 0 where
  pub magic : ℤ
  pub code : ℤ
  pub cmd : ℤ
  pub value : ℤ

-- An int at an offset of a little-endian machine
abbrev pub word_at : ℕ → Bytes → ℕ
word_at p bs =
    get_or bs p 0
    + 256 * get_or bs (p + 1) 0
    + 65536 * get_or bs (p + 2) 0
    + 16777216 * get_or bs (p + 3) 0

abbrev pub to_int : ℕ → ℤ
to_int n = if ltb n (2 ^ 31) then pos n else negsuc (2 ^ 32 - 1 - n)

-- The members of the struct by the layout of the 32-bit ARM ABI, in which the union with its `int64_t` starts
-- at 8; `sizeof(cmd)` is 56.
unfoldable pub exchange_of : Bytes → Exchange
exchange_of bs = record {
  magic = to_int (word_at 0 bs);
  cmd = to_int (word_at 8 bs);
  code = to_int (word_at 12 bs);
  value = to_int (word_at 16 bs);
}

abbrev pub exchange_size : ℕ
exchange_size = 56

-- CHANNEL_PKT_MAGIC_CMD
abbrev pub magic_cmd : ℤ
magic_cmd = pos 67

module _ {S Dev : Type 0} (driver : Driver Dev) (ops : Ops S) where
  -- What is done with a command
  abbrev pub on_command : Exchange → World S Dev → World S Dev
  on_command cmd w =
      if eq_ℤ magic_cmd cmd.magic
      then (channel_on_cmd_received driver ops w cmd.code cmd.cmd cmd.value).1
      else w

  -- What is done with the result of `readn`
  abbrev pub on_frame : Exchange → World S Dev → ℤ → World S Dev
  on_frame cmd w err = if eq_ℤ (pos exchange_size) err then on_command cmd w else w

  -- `buf` is what the memory of `cmd` holds before it is read.
  unfoldable pub check_cmd_event :
      Bytes → List ReadAnswer → World S Dev → Option (World S Dev × List ReadAnswer)
  unfolding readn exchange_of
  check_cmd_event buf reads w = elim (readn buf exchange_size reads) [
    | none ↦ none
    | some (err, frame, rest) ↦ some (on_frame (exchange_of frame) w err, rest)
  ]
