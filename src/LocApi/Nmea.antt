-- ===== src/LocApi/Nmea.antt =====
-- gps/loc_api/libloc_api_50001/loc_eng_nmea.cpp: the NMEA sentences of the satellites in view, and the checksum.
-- A sentence is a list of bytes for the checksum; the satellites' sentences are kept by their fields.
pub mod InView
pub mod Checksum
use Prim.Native.Nat.{bit_xor}
use vibe_xperia.Prelude.{
  ℕ, zero, suc, ◌+◌, ◌-◌, ◌*◌, ◌/◌, ◌%◌, ◌^◌, ◌&&◌, Bool, true, false, Option, none, some, List, [],
  ◌∷◌, ◌++◌, ltb, leb, ◌==◌, if◌then◌else◌, length, count,
}

abbrev pub Bytes : Type 0
Bytes = List ℕ

-- The loop of `loc_eng_nmea_put_checksum` over the characters behind the dollar; a byte each time
unfoldable pub xor_all : ℕ → Bytes → ℕ
xor_all sum [] = sum
xor_all sum (b ∷ bs) = xor_all (bit_xor sum b % 256) bs

-- `%X` of a digit
abbrev pub hex_digit : ℕ → ℕ
hex_digit d = if ltb d 10 then d + 48 else d + 55

-- `*%02X\r\n`
abbrev pub checksum_text : ℕ → Bytes
checksum_text sum = b'*' ∷ hex_digit (sum / 16) ∷ hex_digit (sum % 16) ∷ 13 ∷ 10 ∷ []

abbrev pub take {ℓ} : {A : Type ℓ} → ℕ → List A → List A
take zero xs = []
take (suc n) [] = []
take (suc n) (x ∷ xs) = x ∷ take n xs

-- `maxSize-length-1`, an int, as the `size_t` of 32 bits that `snprintf` takes
abbrev pub room : ℕ → ℕ → ℕ
room max_size len = (max_size + 2 ^ 32 - (len + 1)) % 2 ^ 32

-- `loc_eng_nmea_put_checksum`: the sentence and the length returned. `snprintf` writes at most one character
-- less than its size and returns the length of the whole text. A sentence without its dollar is not passed.
unfoldable pub put_checksum : ℕ → Bytes → Bytes × ℕ
unfolding xor_all
put_checksum max_size [] = ([], 0)
put_checksum max_size (dollar ∷ body) = (
  dollar ∷ body ++ take (room max_size (length body) - 1) (checksum_text (xor_all 0 body)),
  length body + 5,
)

-- The systems that sentences are made for
pub data System : Type 0 where
  gps : System
  glonass : System

-- A satellite: its PRN, the lengths that its numbers take as text, and whether its snr is above 0
pub record Sv : Type 0 where
  pub prn : ℕ
  pub position_len : ℕ
  pub snr_len : ℕ
  pub has_snr : Bool

-- The ranges of PRNs
abbrev pub is_of : System → Sv → Bool
is_of gps sv = leb 1 sv.prn && leb sv.prn 32
is_of glonass sv = leb 65 sv.prn && leb sv.prn 96

-- A sentence that is sent
pub data Sentence : Type 0 where
  in_view : System → ℕ → ℕ → ℕ → List Sv → Sentence
  none_in_view : System → Sentence

-- The characters of a satellite's fields
abbrev pub text_len : Sv → ℕ
text_len sv = sv.position_len + (if sv.has_snr then sv.snr_len else 0)

abbrev with_first : Sv → Option (List Sv × List Sv) → Option (List Sv × List Sv)
with_first sv none = none
with_first sv (some (svs, rest)) = some (sv ∷ svs, rest)

-- The inner loop: `space` is `lengthRemaining` and `left` is 4 - i. The result is the satellites that are written
-- and the list from `svNumber` on, or `none` for the error in formatting.
unfoldable pub fill : System → ℕ → ℕ → List Sv → Option (List Sv × List Sv)
fill system zero space svs = some ([], svs)
fill system (suc left) space [] = some ([], [])
fill system (suc left) space (sv ∷ svs) =
    let skipped = fill system (suc left) space svs in
    let taken = with_first sv (fill system left (space - text_len sv) svs) in
    if is_of system sv then (if leb space (text_len sv) then none else taken) else skipped

abbrev pub nmea_sentence_max_length : ℕ
nmea_sentence_max_length = 200

-- The number of sentences for so many satellites
abbrev pub sentence_count : ℕ → ℕ
sentence_count n = n / 4 + (if n % 4 == 0 then 0 else 1)

-- What is sent for one sentence, and whether its text fits; `head` is the length of its first fields.
abbrev pub sent_one : System → ℕ → List Sv → Option (List Sv × List Sv)
sent_one system head svs =
    if leb nmea_sentence_max_length head
    then none
    else fill system 4 (nmea_sentence_max_length - head) svs

abbrev pub and_then :
    (List Sv → Sentence)
    → (List Sv → List Sentence × Bool)
    → Option (List Sv × List Sv)
    → List Sentence × Bool
and_then sentence next none = ([], false)
and_then sentence next (some (entries, rest)) =
    let (later, ok) = next rest in (sentence entries ∷ later, ok)

-- `head_len` is the length of "$GPGSV,<sentences>,<number>,<total>" and "$GLGSV,...".
module _ (head_len : ℕ → ℕ → ℕ → ℕ) where
  -- The loop over the sentences, by how many are left: what is sent, and false after an error in formatting
  unfoldable pub send_in_view : System → ℕ → ℕ → ℕ → ℕ → List Sv → List Sentence × Bool
  unfolding fill
  send_in_view system sentences total zero number svs = ([], true)
  send_in_view system sentences total (suc left) number svs =
      and_then (in_view system sentences number total)
        (send_in_view system sentences total left (suc number))
        (sent_one system (head_len sentences number total) svs)

  -- The part of `loc_eng_nmea_generate_sv` for one system
  unfoldable pub generate_in_view : System → List Sv → List Sentence × Bool
  unfolding send_in_view
  generate_in_view system svs =
      let n = count (is_of system) svs in
      let some_sent =
        send_in_view system (sentence_count n) (length svs) (sentence_count n) 1 svs in
      if leb n 0 then (none_in_view system ∷ [], true) else some_sent

  -- Both parts; the second is left out after an error in the first.
  unfoldable pub generate_both : List Sv → List Sentence × Bool
  unfolding generate_in_view
  generate_both svs =
      let (first, ok) = generate_in_view gps svs in
      let (second, ok') = generate_in_view glonass svs in
      if ok then (first ++ second, ok') else (first, false)
