-- ===== src/LocApi/Nmea/Checksum.antt =====
-- The checksum of gps/loc_api/libloc_api_50001/loc_eng_nmea.cpp against a reader of NMEA sentences.
use Prim.Native.Nat.{bit_xor}
use vibe_xperia.Prelude.{
  ℕ, ◌+◌, ◌-◌, ◌*◌, ◌/◌, ◌%◌, ◌^◌, ◌<◌, ◌≤◌, Bool, true, false, ◌&&◌, [], ◌∷◌, ◌++◌, ◌≡◌, ◌≢◌, List,
  zero, suc, refl, ap, sym, ◌∙◌, arith, leb, ◌==◌, if◌then◌else◌, length, length-append,
}
use vibe_xperia.LocApi.Nmea.{Bytes, xor_all, hex_digit, checksum_text, take, room, put_checksum}

-- A reader: the value of a hexadecimal digit, and a sentence with its checksum
pub hex_value : ℕ → ℕ
hex_value c = if leb c 57 then c - 48 else c - 55

reads_digits : ℕ → Bytes → Bool
reads_digits sum (a ∷ b ∷ cr ∷ lf ∷ []) =
    hex_value a * 16 + hex_value b == sum && cr == 13 && lf == 10
reads_digits sum _ = false

-- up to the star the bytes are added up, and the digits behind it must give the sum
pub reads_from : ℕ → Bytes → Bool
reads_from sum [] = false
reads_from sum (c ∷ cs) =
    let rest = reads_from (bit_xor sum c % 256) cs in
    if c == b'*' then reads_digits sum cs else rest

pub is_sentence : Bytes → Bool
is_sentence [] = false
is_sentence (c ∷ cs) = c == b'$' && reads_from 0 cs

-- no star in a text
unfoldable pub NoStar : Bytes → Type 0
NoStar [] = Unit
NoStar (c ∷ cs) = (c ≢ b'*') × NoStar cs

hex_back : (d : ℕ) → d < 16 → hex_value (hex_digit d) ≡ d
unfolding hex_value
hex_back d h = ground arith

reads_checksum : (sum : ℕ) → sum < 256 → reads_from sum (checksum_text sum) ≡ true
unfolding reads_from reads_digits
reads_checksum sum h =
    ground (arith, hex_back (sum / 16) (omega arith), hex_back (sum % 16) (omega arith))

xor_small : (sum c : ℕ) → bit_xor sum c % 256 < 256
xor_small sum c = omega arith

reads_body :
    (body : Bytes) (sum : ℕ)
    → NoStar body
    → sum < 256
    → reads_from sum (body ++ checksum_text (xor_all sum body)) ≡ true
unfolding reads_from xor_all NoStar
reads_body [] sum n h = reads_checksum sum h
reads_body (c ∷ cs) sum (ne, n) h =
    ground (arith, ne, reads_body cs (bit_xor sum c % 256) n (xor_small sum c))

take_all {ℓ} :
    {A : Type ℓ} (n : ℕ) (a b c d e : A)
    → 5 ≤ n
    → take n (a ∷ b ∷ c ∷ d ∷ e ∷ []) ≡ a ∷ b ∷ c ∷ d ∷ e ∷ []
take_all zero a b c d e h = absurd (omega arith)
take_all (suc zero) a b c d e h = absurd (omega arith)
take_all (suc (suc zero)) a b c d e h = absurd (omega arith)
take_all (suc (suc (suc zero))) a b c d e h = absurd (omega arith)
take_all (suc (suc (suc (suc zero)))) a b c d e h = absurd (omega arith)
take_all (suc (suc (suc (suc (suc zero))))) a b c d e h = refl
take_all (suc (suc (suc (suc (suc (suc n)))))) a b c d e h = refl

length-take {ℓ} : {A : Type ℓ} (n : ℕ) (xs : List A) → length (take n xs) ≤ n
length-take zero xs = omega arith
length-take (suc n) [] = omega arith
length-take (suc n) (x ∷ xs) = omega (arith, length-take n xs)

-- where the buffer has room for the checksum and the zero behind it, the text is whole
whole :
    (max_size : ℕ) (body : Bytes)
    → length body + 7 ≤ max_size
    → max_size < 2 ^ 31
    → (put_checksum max_size (b'$' ∷ body)).0 ≡ b'$' ∷ body ++ checksum_text (xor_all 0 body)
unfolding put_checksum
whole max_size body fits small =
    ap (λ (t : Bytes). b'$' ∷ body ++ t)
      (take_all (room max_size (length body) - 1) _ _ _ _ _ (omega arith))

put_checksum-length :
    (max_size : ℕ) (body : Bytes) → (put_checksum max_size (b'$' ∷ body)).1 + 1 ≡ length body + 6
unfolding put_checksum
put_checksum-length max_size body = omega arith

-- A sentence that begins with a dollar and has no star, in a buffer with room for the five characters of the
-- checksum and a zero (`maxSize` at least the length behind the dollar and 7, and an int), is accepted
-- afterwards by a reader that adds up the bytes itself. The length returned is one less than that of the
-- whole sentence.
pub is_sentence-put_checksum :
    (max_size : ℕ) (body : Bytes)
    → NoStar body
    → length body + 7 ≤ max_size
    → max_size < 2 ^ 31
    → (is_sentence (put_checksum max_size (b'$' ∷ body)).0 ≡ true)
      × ((put_checksum max_size (b'$' ∷ body)).1 + 1
          ≡ length (put_checksum max_size (b'$' ∷ body)).0)
unfolding is_sentence
is_sentence-put_checksum max_size body n fits small =
    let e = whole max_size body fits small in
    (
      ap is_sentence e ∙ ground (arith, reads_body body 0 n (omega arith)),
      put_checksum-length max_size body
          ∙ omega (arith, length-append {0} body (checksum_text (xor_all 0 body)))
          ∙ sym (ap length e),
    )

-- Where the checksum does not fit it is cut: the sentence and its zero stay within the buffer, if it has room
-- for the zero behind the sentence itself.
pub put_checksum-within :
    (max_size : ℕ) (body : Bytes)
    → length body + 2 ≤ max_size
    → max_size < 2 ^ 31
    → length (put_checksum max_size (b'$' ∷ body)).0 + 1 ≤ max_size
unfolding put_checksum
put_checksum-within max_size body fits small =
    let text = checksum_text (xor_all 0 body) in
    let n = room max_size (length body) - 1 in
    omega (arith, length-append {0} body (take n text), length-take n text)
