-- ===== src/Sensord/UtilMisc/Tests.antt =====
-- Runs of src/lib/util_misc.c on small inputs.
use vibe_xperia.Prelude.{◌≡◌, refl, [], ◌∷◌, ◌++◌, none, some, arith, pos, negsuc, abs}
use vibe_xperia.Sensord.UtilMisc.{
  euclid, get_max_comm_div, count_bits, get_num_set_bits_u32, get_token_pairs, Memory, update,
}
use vibe_xperia.Sensord.UtilMisc.Arith.{IsGcd, get_max_comm_div-IsGcd}
use vibe_xperia.Sensord.UtilMisc.Tokens.{get_token_pairs-append}

run_max_comm_div : get_max_comm_div (pos 1000) (negsuc 199) ≡ pos 200
unfolding get_max_comm_div euclid
run_max_comm_div = refl

run_num_set_bits : get_num_set_bits_u32 0xf0f0 ≡ 8
unfolding get_num_set_bits_u32 count_bits
run_num_set_bits = refl

get_max_comm_div-IsGcd_example : IsGcd (abs (get_max_comm_div (pos 1000) (negsuc 199))) 1000 200
get_max_comm_div-IsGcd_example = get_max_comm_div-IsGcd (pos 1000) (negsuc 199)

-- The line "a=bc".
get_token_pairs-append_example :
    get_token_pairs ((97 ∷ []) ++ 61 ∷ 98 ∷ 99 ∷ []) 61 ≡ (97 ∷ [], 98 ∷ 99 ∷ [])
get_token_pairs-append_example =
    get_token_pairs-append (97 ∷ []) (98 ∷ 99 ∷ []) 61 (omega arith, tt)

-- Three nodes, 2 and 0 and 1.
abbrev three : Memory
three = update (update (update (λ _. none) 2 (some 0)) 0 (some 1)) 1 none
