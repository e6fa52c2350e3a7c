-- ===== src/Sensord/Events/Frames.antt =====
-- How a frame comes in pieces, and what happens at the end of the pipe.
use vibe_xperia.Prelude.{
  ℕ, zero, suc, ◌+◌, ◌-◌, ◌<◌, ◌≡◌, refl, sym, ap, ◌∙◌, List, [], ◌∷◌, ◌++◌, map, Option, none,
  some, arith, length, length-append, if◌then◌else◌, pos, minus_one,
}
use vibe_xperia.Sensord.Hw.{Driver}
use vibe_xperia.Sensord.Provider.State.{Ops, World}
use vibe_xperia.Sensord.Channel.{eq_ℤ, channel_on_cmd_received}
use vibe_xperia.Sensord.Events.{
  Bytes, ReadAnswer, failed, got, write_at, readn_loop, readn, exchange_of, exchange_size,
  magic_cmd, on_frame, check_cmd_event,
}

-- The bytes of the pieces together
abbrev pub joined : List Bytes → Bytes
joined [] = []
joined (k ∷ ks) = k ++ joined ks

-- Every piece has a byte.
abbrev pub NoneEmpty : List Bytes → Type 0
NoneEmpty [] = Unit
NoneEmpty (k ∷ ks) = (0 < length k) × NoneEmpty ks

write_at-nil : (p : ℕ) (bs : Bytes) → write_at p bs [] ≡ []
unfolding write_at
write_at-nil zero [] = refl
write_at-nil zero (b ∷ bs) = refl
write_at-nil (suc p) bs = refl

write_at_nothing : (p : ℕ) (buf : Bytes) → write_at p [] buf ≡ buf
unfolding write_at
write_at_nothing zero buf = refl
write_at_nothing (suc p) [] = refl
write_at_nothing (suc p) (x ∷ buf) = ap (λ (t : Bytes). x ∷ t) (write_at_nothing p buf)

-- Two pieces, the second behind the first, are written as one.
write_at-append :
    (p : ℕ) (bs cs buf : Bytes)
    → write_at (p + length bs) cs (write_at p bs buf) ≡ write_at p (bs ++ cs) buf
unfolding write_at
write_at-append zero [] cs buf = refl
write_at-append zero (b ∷ bs) cs [] = write_at-nil (0 + suc (length bs)) cs
write_at-append zero (b ∷ bs) cs (x ∷ buf) =
    ap (λ (n : ℕ). write_at n cs (b ∷ write_at zero bs buf))
      (let e : 0 + suc (length bs) ≡ suc (0 + length bs) = omega arith in e)
    ∙ ap (λ (t : Bytes). b ∷ t) (write_at-append zero bs cs buf)
write_at-append (suc p) bs cs [] = write_at-nil (suc p + length bs) cs
write_at-append (suc p) bs cs (x ∷ buf) =
    ap (λ (n : ℕ). write_at n cs (x ∷ write_at p bs buf))
      (let e : suc p + length bs ≡ suc (p + length bs) = omega arith in e)
    ∙ ap (λ (t : Bytes). x ∷ t) (write_at-append p bs cs buf)

write_at_whole : (bs buf : Bytes) → length bs ≡ length buf → write_at 0 bs buf ≡ bs
unfolding write_at
write_at_whole [] [] e = refl
write_at_whole [] (x ∷ buf) e = absurd (omega arith)
write_at_whole (b ∷ bs) [] e = absurd (omega arith)
write_at_whole (b ∷ bs) (x ∷ buf) e =
    ap (λ (t : Bytes). b ∷ t) (write_at_whole bs buf (omega arith))

readn_loop-joined :
    (nbyte n ptr : ℕ) (buf : Bytes) (ks : List Bytes) (rest : List ReadAnswer)
    → NoneEmpty ks
    → length (joined ks) ≡ n
    → readn_loop nbyte n ptr buf (map got ks ++ rest)
      ≡ some (pos nbyte, write_at ptr (joined ks) buf, rest)
unfolding readn_loop
readn_loop-joined nbyte zero ptr buf [] rest p e =
    ap (λ (t : Bytes). some (pos nbyte, t, rest)) (sym (write_at_nothing ptr buf))
readn_loop-joined nbyte (suc n) ptr buf [] rest p e = absurd (omega arith)
readn_loop-joined nbyte zero ptr buf (k ∷ ks) rest (some_bytes, p) e =
    absurd (omega (arith, length-append {0} k (joined ks)))
readn_loop-joined nbyte (suc n) ptr buf (k ∷ ks) rest (some_bytes, p) e =
    readn_loop-joined nbyte (suc n - length k) (ptr + length k) (write_at ptr k buf) ks rest p
      (omega (arith, length-append {0} k (joined ks)))
    ∙ ap (λ (t : Bytes). some (pos nbyte, t, rest)) (write_at-append ptr k (joined ks) buf)

-- However a frame is cut into pieces that are not empty, and whatever the memory held before, it is read whole
-- and no more than it: the command in the bytes of the frame is carried out once, and a frame with another
-- magic changes nothing.
pub check_cmd_event-Pieces :
    {S Dev : Type 0} (driver : Driver Dev) (ops : Ops S) (buf : Bytes) (ks : List Bytes)
    (rest : List ReadAnswer) (w : World S Dev)
    → NoneEmpty ks
    → length (joined ks) ≡ exchange_size
    → length buf ≡ exchange_size
    → check_cmd_event driver ops buf (map got ks ++ rest) w
      ≡ some (
        (let cmd = exchange_of (joined ks) in
            if eq_ℤ magic_cmd cmd.magic
            then (channel_on_cmd_received driver ops w cmd.code cmd.cmd cmd.value).1
            else w),
        rest,
      )
unfolding check_cmd_event readn
check_cmd_event-Pieces driver ops buf ks rest w p e b =
    ap
      (λ r. elim r as (λ _. Option (World _ _ × List ReadAnswer)) [
        | none ↦ none
        | some (err, frame, rest') ↦ some (on_frame driver ops (exchange_of frame) w err, rest')
      ])
      (readn_loop-joined exchange_size exchange_size 0 buf ks rest p e
        ∙ ap (λ (t : Bytes). some (pos exchange_size, t, rest))
            (write_at_whole (joined ks) buf (omega arith)))

abbrev pub ends : ℕ → List ReadAnswer
ends zero = []
ends (suc m) = got [] ∷ ends m

nothing_read :
    (nbyte n : ℕ) (ptr : ℕ) (buf : Bytes) (reads : List ReadAnswer)
    → readn_loop nbyte (suc n) ptr buf (got [] ∷ reads) ≡ readn_loop nbyte (suc n) ptr buf reads
unfolding readn_loop
nothing_read nbyte n ptr buf reads =
    let same : suc n - 0 ≡ suc n = omega arith in
    let here : ptr + 0 ≡ ptr = omega arith in
    ap (λ (k : ℕ). readn_loop nbyte k (ptr + 0) (write_at ptr [] buf) reads) same
    ∙ ap (λ (p : ℕ). readn_loop nbyte (suc n) p (write_at ptr [] buf) reads) here
    ∙ ap (λ (t : Bytes). readn_loop nbyte (suc n) ptr t reads) (write_at_nothing ptr buf)

readn_loop-ends :
    (nbyte n ptr m : ℕ) (buf : Bytes) → readn_loop nbyte (suc n) ptr buf (ends m) ≡ none
unfolding readn_loop
readn_loop-ends nbyte n ptr zero buf = refl
readn_loop-ends nbyte n ptr (suc m) buf =
    nothing_read nbyte n ptr buf (ends m) ∙ readn_loop-ends nbyte n ptr m buf

error_ends :
    (nbyte n ptr m : ℕ) (buf : Bytes) (rest : List ReadAnswer)
    → readn_loop nbyte (suc n) ptr buf (ends m ++ failed ∷ rest) ≡ some (minus_one, buf, rest)
unfolding readn_loop
error_ends nbyte n ptr zero buf rest = refl
error_ends nbyte n ptr (suc m) buf rest =
    nothing_read nbyte n ptr buf (ends m ++ failed ∷ rest) ∙ error_ends nbyte n ptr m buf rest

-- Once the pipe has ended within a frame, so that `read` answers 0, no number of reads ends `readn`; an
-- error ends it with -1.
pub readn_at_end :
    (n m : ℕ) (buf : Bytes) (rest : List ReadAnswer)
    → (readn buf (suc n) (ends m) ≡ none)
      × (readn buf (suc n) (ends m ++ failed ∷ rest) ≡ some (minus_one, buf, rest))
unfolding readn
readn_at_end n m buf rest = (readn_loop-ends (suc n) n 0 m buf, error_ends (suc n) n 0 m buf rest)
