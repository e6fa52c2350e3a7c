-- ===== src/LocApi/Pipe/Framed.antt =====
-- What `loc_eng_dmn_conn_glue_msgsnd` writes is what `loc_eng_dmn_conn_glue_msgrcv` reads.
use native.Mathlib.Nat.{mod-eq_of_lt}
use mathlib.Core.List.{append-nil, append_assoc}
use vibe_xperia.Prelude.{
  ℕ, zero, suc, ◌+◌, ◌-◌, ◌%◌, ◌≤◌, ◌<◌, List, [], ◌∷◌, ◌++◌, ℤ, pos, ◌≡◌, refl, sym, ap, arith,
  ◌∙◌, length, length-append, map,
}
use vibe_xperia.LocApi.Pipe.{
  Bytes, PipeCalls, take, drop, size_bytes, size_mod, put_size, get_size, msgsnd, msgrcv, piperead,
  pipewrite,
}

-- What the code relies on of a pipe: a write of at most `whole` bytes (PIPE_BUF) is done whole, and a read of
-- no more bytes than there are gives that many, the first ones.
pub record IsPipe (os : PipeCalls) (whole : ℕ) : Type 0 where
  pub writes : (b pipe : Bytes) → length b ≤ whole → os.write b pipe ≡ (pos (length b), pipe ++ b)
  pub reads : (b pipe : Bytes) → os.read (length b) (b ++ pipe) ≡ (pos (length b), b, pipe)

pub get_size-put_size : (n : ℕ) (rest : Bytes) → n < size_mod → get_size (put_size n ++ rest) ≡ n
unfolding get_size put_size
get_size-put_size n rest h = omega arith

length-put_size : (n : ℕ) → length (put_size n) ≡ size_bytes
unfolding put_size
length-put_size n = refl

take_all : (bs : Bytes) → take (length bs) bs ≡ bs
take_all [] = refl
take_all (b ∷ bs) = ap (λ (t : Bytes). b ∷ t) (take_all bs)

drop_all : (bs rest : Bytes) → drop (length bs) (bs ++ rest) ≡ rest
drop_all [] rest = refl
drop_all (b ∷ bs) rest = drop_all bs rest

-- A message with its size in front
abbrev pub frame : Bytes → Bytes
frame body = put_size (size_bytes + length body) ++ body

length-frame : (body : Bytes) → length (frame body) ≡ size_bytes + length body
unfolding put_size
length-frame body = length-append (put_size (size_bytes + length body)) body

-- The buffer that a caller sends: room for the size, and the rest of the message
abbrev pub buffer : Bytes → Bytes
buffer body = 0 ∷ 0 ∷ 0 ∷ 0 ∷ body

body_left :
    (l : ℕ) → size_bytes + l < size_mod → (size_bytes + l + size_mod - size_bytes) % size_mod ≡ l
body_left l h = omega arith

-- Messages sent one after the other
unfoldable pub send_all : PipeCalls → List Bytes → Bytes → Bytes
send_all os [] pipe = pipe
send_all os (body ∷ more) pipe =
    send_all os more (msgsnd os (buffer body) (size_bytes + length body) pipe).2

-- Messages received one after the other, with the results
unfoldable pub receive_all : PipeCalls → ℕ → ℕ → Bytes → List (ℤ × Bytes) × Bytes
receive_all os msgbufsz zero pipe = ([], pipe)
receive_all os msgbufsz (suc n) pipe =
    let (result, message, pipe') = msgrcv os msgbufsz pipe in
    let (later, pipe'') = receive_all os msgbufsz n pipe' in ((result, message) ∷ later, pipe'')

-- Each message can be written whole and fits into the receiver's buffer.
unfoldable pub AllFit : ℕ → ℕ → List Bytes → Type 0
AllFit whole msgbufsz [] = Unit
AllFit whole msgbufsz (body ∷ more) =
    (size_bytes + length body ≤ whole)
    × (size_bytes + length body ≤ msgbufsz)
    × (size_bytes + length body < size_mod)
    × AllFit whole msgbufsz more

-- What the receiver gets for a message
abbrev pub received : Bytes → ℤ × Bytes
received body = (pos (size_bytes + length body), frame body)

module _ (os : PipeCalls) (whole : ℕ) (is : IsPipe os whole) where
  pub msgsnd-frame :
      (body pipe : Bytes)
      → size_bytes + length body ≤ whole
      → msgsnd os (buffer body) (size_bytes + length body) pipe
        ≡ (pos (size_bytes + length body), frame body, pipe ++ frame body)
  unfolding msgsnd pipewrite
  msgsnd-frame body pipe h =
      let n = size_bytes + length body in
      let cut : take n (frame body) ≡ frame body =
        ap (λ (k : ℕ). take k (frame body)) (sym (length-frame body)) ∙ take_all (frame body) in
      let wrote : os.write (frame body) pipe ≡ (pos n, pipe ++ frame body) =
        is.writes (frame body) pipe (omega (arith, length-frame body))
        ∙ ap (λ (k : ℕ). (pos k, pipe ++ frame body)) (length-frame body) in
      rw (cut, wrote) (ground arith)

  pub msgrcv-frame :
      (body rest : Bytes) (msgbufsz : ℕ)
      → size_bytes + length body ≤ msgbufsz
      → size_bytes + length body < size_mod
      → msgrcv os msgbufsz (frame body ++ rest) ≡ (pos (size_bytes + length body), frame body, rest)
  unfolding msgrcv piperead put_size
  msgrcv-frame body rest msgbufsz h k =
      let n = size_bytes + length body in
      let size : get_size (put_size n) ≡ n =
        ap get_size (sym (append-nil (put_size n))) ∙ get_size-put_size n [] k in
      let left : (n + size_mod - size_bytes) % size_mod ≡ length body = body_left (length body) k in
      rw
        (
          append_assoc (put_size n) body rest,
          is.reads (put_size n) (body ++ rest),
          size,
          left,
          is.reads body rest,
        )
        (ground arith)

frames : List Bytes → Bytes
frames [] = []
frames (body ∷ more) = frame body ++ frames more

module _ (os : PipeCalls) (whole msgbufsz : ℕ) (is : IsPipe os whole) where
  send_all-frames :
      (bodies : List Bytes) (pipe : Bytes)
      → AllFit whole msgbufsz bodies
      → send_all os bodies pipe ≡ pipe ++ frames bodies
  unfolding send_all frames AllFit
  send_all-frames [] pipe f = sym (append-nil pipe)
  send_all-frames (body ∷ more) pipe (w, b, m, f) =
      ap (λ (r : ℤ × Bytes × Bytes). send_all os more r.2) (msgsnd-frame os whole is body pipe w)
      ∙ send_all-frames more (pipe ++ frame body) f
      ∙ append_assoc pipe (frame body) (frames more)

  receive_all-frames :
      (bodies : List Bytes) (rest : Bytes)
      → AllFit whole msgbufsz bodies
      → receive_all os msgbufsz (length bodies) (frames bodies ++ rest)
        ≡ (map received bodies, rest)
  unfolding receive_all frames AllFit
  receive_all-frames [] rest f = refl
  receive_all-frames (body ∷ more) rest (w, b, m, f) =
      rw
        (
          append_assoc (frame body) (frames more) rest,
          msgrcv-frame os whole is body (frames more ++ rest) msgbufsz b m,
          receive_all-frames more rest f,
        )
        refl

  -- Messages that go into an empty pipe with `msgsnd` come out of it with `msgrcv`, in their order, each with
  -- its size in front and as the result, and nothing is left, where each can be written whole and fits
  -- into the receiver's buffer.
  pub receive_all-send_all :
      (bodies : List Bytes)
      → AllFit whole msgbufsz bodies
      → receive_all os msgbufsz (length bodies) (send_all os bodies []) ≡ (map received bodies, [])
  receive_all-send_all bodies f =
      ap (λ (p : Bytes). receive_all os msgbufsz (length bodies) p)
        (send_all-frames bodies [] f ∙ sym (append-nil (frames bodies)))
      ∙ receive_all-frames bodies [] f

-- A read stores at most as many bytes as it is given room for.
unfoldable pub ReadsWithin : PipeCalls → Type 0
ReadsWithin os = (sz : ℕ) (pipe : Bytes) → length (os.read sz pipe).1 ≤ sz

-- Whatever the pipe holds, a size that is not below its own length never makes `msgrcv` store more than the
-- buffer holds, if the buffer holds at least a size.
pub msgrcv-le :
    (os : PipeCalls) (msgbufsz : ℕ) (pipe : Bytes)
    → ReadsWithin os
    → size_bytes ≤ msgbufsz
    → msgbufsz < size_mod
    → size_bytes ≤ get_size (os.read size_bytes pipe).1
    → length (msgrcv os msgbufsz pipe).1 ≤ msgbufsz
unfolding msgrcv piperead ReadsWithin
msgrcv-le os msgbufsz pipe w b m s =
    let head = (os.read size_bytes pipe).1 in
    let pipe' = (os.read size_bytes pipe).2 in
    let size = (get_size head + size_mod - size_bytes) % size_mod in
    ground (arith, w size_bytes pipe, w size pipe', length-append {0} head (os.read size pipe').1)

-- A size below its own length makes the second read ask for almost the whole range of `size_t`, whatever the
-- buffer holds: all that the pipe then gives is stored.
pub msgrcv_short :
    (os : PipeCalls) (msgbufsz : ℕ) (pipe head pipe' : Bytes)
    → os.read size_bytes pipe ≡ (pos size_bytes, head, pipe')
    → get_size head < size_bytes
    → get_size head ≤ msgbufsz
    → (msgrcv os msgbufsz pipe).1
      ≡ head ++ (os.read (get_size head + size_mod - size_bytes) pipe').1
unfolding msgrcv piperead
msgrcv_short os msgbufsz pipe head pipe' r s b =
    let size = get_size head + size_mod - size_bytes in
    let wraps : size % size_mod ≡ size = mod-eq_of_lt (omega arith) in rw (r, wraps) (ground arith)
