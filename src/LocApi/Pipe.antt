-- ===== src/LocApi/Pipe.antt =====
-- gps/loc_api/libloc_api_50001/loc_eng_dmn_conn_glue_pipe.c and loc_eng_dmn_conn_glue_msg.c: messages in named
-- pipes. A message begins with its own size.
pub mod Framed
use vibe_xperia.Prelude.{
  ℕ, zero, suc, ◌+◌, ◌-◌, ◌*◌, ◌/◌, ◌%◌, ◌^◌, ◌&&◌, not, Bool, true, false, Option, none, some,
  List, [], ◌∷◌, ◌++◌, ℤ, pos, negsuc, minus_one, pos_part, neg_part, ltb, ltb_ℤ, ◌==◌,
  if◌then◌else◌, length,
}

abbrev pub Bytes : Type 0
Bytes = List ℕ

-- A pipe of the system, by the bytes in it: `write` and `read` with what they return. `read` also gives the
-- bytes that it stores.
pub record PipeCalls : Type 0 where
  pub write : Bytes → Bytes → ℤ × Bytes
  pub read : ℕ → Bytes → ℤ × Bytes × Bytes

abbrev pub take : ℕ → Bytes → Bytes
take zero bs = []
take (suc n) [] = []
take (suc n) (b ∷ bs) = b ∷ take n bs

abbrev pub drop : ℕ → Bytes → Bytes
drop zero bs = bs
drop (suc n) [] = []
drop (suc n) (b ∷ bs) = drop n bs

-- sizeof(size_t) on the device, and its modulus
abbrev pub size_bytes : ℕ
size_bytes = 4

abbrev pub size_mod : ℕ
size_mod = 4294967296

-- A `size_t` in memory
unfoldable pub put_size : ℕ → Bytes
put_size n = n % 256 ∷ n / 256 % 256 ∷ n / 65536 % 256 ∷ n / 16777216 % 256 ∷ []

unfoldable pub get_size : Bytes → ℕ
get_size (a ∷ b ∷ c ∷ d ∷ rest) = a + 256 * b + 65536 * c + 16777216 * d
get_size _ = 0

abbrev is_minus_one : ℤ → Bool
is_minus_one (negsuc zero) = true
is_minus_one _ = false

-- `loc_eng_dmn_conn_glue_pipeget` by what `mkfifo`, `errno == EEXIST` and `open` give
unfoldable pub pipeget : ℤ → Bool → ℤ → ℤ
pipeget made exists opened = if is_minus_one made && not exists then made else opened

module _ (os : PipeCalls) where
  unfoldable pub pipewrite : Bytes → Bytes → ℤ × Bytes
  pipewrite buf pipe = os.write buf pipe

  unfoldable pub piperead : ℕ → Bytes → ℤ × Bytes × Bytes
  piperead sz pipe = os.read sz pipe

  -- Whether a result is the given number of bytes
  abbrev is_count : ℤ → ℕ → Bool
  is_count r n = pos_part r == n && neg_part r == 0

  -- `loc_eng_dmn_conn_glue_msgsnd`: the result, the caller's buffer and the pipe. The size goes to the front
  -- of the buffer.
  unfoldable pub msgsnd : Bytes → ℕ → Bytes → ℤ × Bytes × Bytes
  unfolding put_size pipewrite
  msgsnd buf msgsz pipe =
      let buf' = put_size msgsz ++ drop size_bytes buf in
      let (result, pipe') = pipewrite (take msgsz buf') pipe in
      (if is_count result msgsz then result else minus_one, buf', pipe')

  -- `loc_eng_dmn_conn_glue_msgrcv`: the result, the bytes that are stored from the buffer's front on, and the
  -- pipe. The length of the second read is a `size_t`, so it wraps.
  unfoldable pub msgrcv : ℕ → Bytes → ℤ × Bytes × Bytes
  unfolding get_size piperead
  msgrcv msgbufsz pipe =
      let (result, head, pipe') = piperead size_bytes pipe in
      let msgsz = get_size head in
      let body_size = (msgsz + size_mod - size_bytes) % size_mod in
      let (result', body, pipe'') = piperead body_size pipe' in
      if not (is_count result size_bytes)
      then (minus_one, head, pipe')
      else if ltb msgbufsz msgsz
      then (minus_one, head, pipe')
      else if not (is_count result' body_size)
      then (minus_one, head ++ body, pipe'')
      else (pos msgsz, head ++ body, pipe'')

  -- `loc_eng_dmn_conn_glue_msgflush` with fuel: reads until one gives 0
  unfoldable pub msgflush : ℕ → Bytes → Option (ℤ × Bytes)
  unfolding piperead
  msgflush zero pipe = none
  msgflush (suc fuel) pipe =
      let (len, buf, pipe') = piperead 128 pipe in
      let rest = msgflush fuel pipe' in if is_count len 0 then some (len, pipe') else rest
