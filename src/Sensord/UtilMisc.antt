-- ===== src/Sensord/UtilMisc.antt =====
-- sensors/daemon/src/lib/util_misc.c: the integer helpers, the token splitter and the intrusive
-- singly linked list. A list node is its address; the memory maps an address to the `next` field,
-- and `none` is NULL. `int` arguments are integers in range, so that `-a` does not overflow.
pub mod Arith
pub mod Chain
pub mod Tokens
mod Tests
use vibe_xperia.Prelude.{
  ℕ, zero, suc, ◌-◌, ◌%◌, ◌/◌, ◌+◌, ◌^◌, Bool, true, false, List, [], ◌∷◌, Option, none, some, leb,
  ltb, ◌==◌, if◌then◌else◌, ℤ, pos, negsuc, abs, minus_one,
}

-- `while (1) { mcd = b; r = a % b; if (r) { a = b; b = r; } else break; }`; the fuel is the rounds.
unfoldable pub euclid : ℕ → ℕ → ℕ → ℕ
euclid zero a b = b
euclid (suc f) a b = let rest = euclid f b (a % b) in if a % b == 0 then b else rest

-- The remainder falls below `b` at each round, so `b + 1` rounds are enough. An integer stands for an `int` that
-- is not INT_MIN, of which the code's `-a` is undefined.
unfoldable pub get_max_comm_div : ℤ → ℤ → ℤ
get_max_comm_div a b =
    if abs a == 0
    then b
    else if abs b == 0
    then a
    else if ltb (abs a) (abs b)
    then pos (euclid (suc (abs a)) (abs b) (abs a))
    else pos (euclid (suc (abs b)) (abs a) (abs b))

-- `for (ret = b; ret > 0; ret--) if (0 == a % ret) break;`
unfoldable pub find_div : ℕ → ℕ → ℕ
find_div a zero = zero
find_div a (suc r) = let rest = find_div a r in if a % suc r == 0 then suc r else rest

-- `(int32_t)x` of a `uint32_t`
abbrev pub to_s32 : ℕ → ℤ
to_s32 x = if ltb x (2 ^ 31) then pos x else negsuc (2 ^ 32 - x - 1)

unfoldable pub count_down : ℕ → ℤ → ℤ
count_down a (pos b) = pos (find_div a b)
count_down a (negsuc n) = negsuc n

unfoldable pub get_nearest_divisible_int : ℕ → ℕ → ℤ
unfolding find_div count_down
get_nearest_divisible_int a b =
    if b == 0
    then minus_one
    else if a == 0
    then to_s32 b
    else if leb a b
    then to_s32 a
    else count_down a (to_s32 b)

-- `(1 << i) & n` is the bit `i`; the loop runs `i = 32 - k` to 31.
unfoldable pub count_bits : ℕ → ℕ → ℕ → ℕ
count_bits zero i n = 0
count_bits (suc k) i n = (if (n / 2 ^ i) % 2 == 1 then 1 else 0) + count_bits k (i + 1) n

unfoldable pub get_num_set_bits_u32 : ℕ → ℕ
unfolding count_bits
get_num_set_bits_u32 n = count_bits 32 0 n

-- The characters before the terminator. The first list is `ptoken_l`, the second `ptoken_r`.
unfoldable pub get_token_pairs : List ℕ → ℕ → List ℕ × List ℕ
get_token_pairs [] sep = ([], [])
get_token_pairs (c ∷ cs) sep =
    let (l, r) = get_token_pairs cs sep in if c == sep then ([], cs) else (c ∷ l, r)

abbrev pub Memory : Type 0
Memory = ℕ → Option ℕ

abbrev pub update : Memory → ℕ → Option ℕ → Memory
update m a v j = if j == a then v else m j

unfoldable pub list_init : Memory → ℕ → Memory
list_init m head = update m head none

unfoldable pub list_add_head : Memory → Option ℕ → ℕ → Memory
list_add_head m head new = update m new head

-- The loop to the last node; the fuel bounds the nodes passed.
unfoldable pub last_node : ℕ → Memory → ℕ → ℕ
last_node zero m cur = cur
last_node (suc f) m cur = elim (m cur) [ none ↦ cur | some n ↦ last_node f m n ]

unfoldable pub list_add_rear : ℕ → Memory → ℕ → ℕ → Memory
unfolding last_node
list_add_rear fuel m head new = update (update m (last_node fuel m head) (some new)) new none

-- With the fuel used up the walk answers NULL.
unfoldable pub list_find_node : ℕ → Memory → Option ℕ → ℕ → Option ℕ
list_find_node zero m cur nod = none
list_find_node (suc f) m none nod = none
list_find_node (suc f) m (some c) nod =
    let rest = list_find_node f m (m c) nod in if c == nod then some c else rest

-- `if (NULL != prev) prev->next = cur->next;`
unfoldable pub unlink : Memory → Option ℕ → ℕ → Memory
unlink m none c = m
unlink m (some p) c = update m p (m c)

abbrev is_node : Option ℕ → ℕ → Bool
is_node none c = false
is_node (some h) c = h == c

unfoldable pub del_loop : ℕ → Memory → Option ℕ → Option ℕ → Option ℕ → ℕ → Memory × Option ℕ
unfolding unlink
del_loop zero m head prev cur nod = (m, head)
del_loop (suc f) m head prev none nod = (m, head)
del_loop (suc f) m head prev (some c) nod =
    let rest = del_loop f m head (some c) (m c) nod in
    if c == nod then (unlink m prev c, if is_node head c then m c else head) else rest

-- The memory and the new head of the list.
unfoldable pub list_del_node : ℕ → Memory → Option ℕ → ℕ → Memory × Option ℕ
unfolding del_loop
list_del_node fuel m head nod = del_loop fuel m head none head nod
