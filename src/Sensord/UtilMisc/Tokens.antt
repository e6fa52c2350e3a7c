-- ===== src/Sensord/UtilMisc/Tokens.antt =====
-- `get_token_pairs`: what stands left and right of the first separator.
use vibe_xperia.Prelude.{ℕ, ◌≡◌, refl, List, [], ◌∷◌, ◌++◌, arith}
use vibe_xperia.Sensord.UtilMisc.{get_token_pairs}
use vibe_xperia.Sensord.UtilMisc.Chain.{Fresh}

-- A line that is put together from a key without the separator, the separator and a value splits
-- into that key and that value, whatever the value holds.
pub get_token_pairs-append :
    (key value : List ℕ) (sep : ℕ)
    → Fresh sep key
    → get_token_pairs (key ++ sep ∷ value) sep ≡ (key, value)
unfolding get_token_pairs
get_token_pairs-append [] value sep h = ground arith
get_token_pairs-append (c ∷ cs) value sep h =
    ground (arith, get_token_pairs-append cs value sep h.1)

-- A line without the separator is all key.
pub get_token_pairs_absent :
    (line : List ℕ) (sep : ℕ) → Fresh sep line → get_token_pairs line sep ≡ (line, [])
unfolding get_token_pairs
get_token_pairs_absent [] sep h = refl
get_token_pairs_absent (c ∷ cs) sep h = ground (arith, get_token_pairs_absent cs sep h.1)
