-- ===== src/Sensord/UtilMisc/Chain.antt =====
-- The intrusive list: `Chain m p xs` says that the nodes `xs` are linked from the pointer `p`.
use vibe_xperia.Prelude.{
  ℕ, zero, suc, ◌<◌, ◌≡◌, ◌≢◌, refl, sym, ◌∙◌, Bool, true, false, List, [], ◌∷◌, ◌++◌, Option, none,
  some, inl, inr, arith, ◌==◌, if◌then◌else◌, Bool-cases, length,
}
use vibe_xperia.Sensord.UtilMisc.{
  Memory, update, list_add_head, last_node, list_add_rear, list_find_node, is_node, del_loop,
  list_del_node,
}

abbrev pub Chain : Memory → Option ℕ → List ℕ → Type 0
Chain m p [] = p ≡ none
Chain m p (a ∷ xs) = (p ≡ some a) × Chain m (m a) xs

abbrev pub Fresh : ℕ → List ℕ → Type 0
Fresh a [] = Unit {0}
Fresh a (x ∷ xs) = (a ≢ x) × Fresh a xs

abbrev pub Distinct : List ℕ → Type 0
Distinct [] = Unit {0}
Distinct (x ∷ xs) = Fresh x xs × Distinct xs

abbrev pub elem : ℕ → List ℕ → Bool
elem a [] = false
elem a (x ∷ xs) = if x == a then true else elem a xs

-- the list without the first `a`
abbrev pub erase : ℕ → List ℕ → List ℕ
erase a [] = []
erase a (x ∷ xs) = if x == a then xs else x ∷ erase a xs

pub Fresh-of_elem : (a : ℕ) (xs : List ℕ) → elem a xs ≡ false → Fresh a xs
Fresh-of_elem a [] h = tt
Fresh-of_elem a (x ∷ xs) h = ground (arith, Fresh-of_elem a xs)

pub elem_of_Fresh : (a : ℕ) (xs : List ℕ) → Fresh a xs → elem a xs ≡ false
elem_of_Fresh a [] h = refl
elem_of_Fresh a (x ∷ xs) h = ground (arith, elem_of_Fresh a xs)

pub Fresh-erase : (a b : ℕ) (xs : List ℕ) → Fresh a xs → Fresh a (erase b xs)
Fresh-erase a b [] h = tt
Fresh-erase a b (x ∷ xs) h = ground (arith, Fresh-erase a b xs)

pub Distinct-erase : (b : ℕ) (xs : List ℕ) → Distinct xs → Distinct (erase b xs)
Distinct-erase b [] h = tt
Distinct-erase b (x ∷ xs) h = ground (arith, Fresh-erase x b xs, Distinct-erase b xs)

pub elem-erase :
    (a b : ℕ) (xs : List ℕ)
    → Distinct xs
    → elem a (erase b xs) ≡ (if a == b then false else elem a xs)
elem-erase a b [] h = ground arith
elem-erase a b (x ∷ xs) h = ground (arith, elem-erase a b xs h.1, elem_of_Fresh x xs h.0)

-- A write to a node that is not in the chain leaves the chain.
pub Chain-frame :
    (m m' : Memory) (p : Option ℕ) (xs : List ℕ)
    → ((j : ℕ) → elem j xs ≡ true → m' j ≡ m j)
    → Chain m p xs
    → Chain m' p xs
Chain-frame m m' p [] same c = c
Chain-frame m m' p (a ∷ xs) same c = (
  c.0,
  Chain-frame m m' (m' a) xs (λ j e. same j (ground arith)) (rw (same a (ground arith)) c.1),
)

Chain-update :
    (m : Memory) (a : ℕ) (v p : Option ℕ) (xs : List ℕ)
    → Fresh a xs
    → Chain m p xs
    → Chain (update m a v) p xs
Chain-update m a v p xs f c =
    Chain-frame m (update m a v) p xs (λ j e. ground (arith, elem_of_Fresh a xs f)) c

-- `list_add_head` puts a node that is not in the list in front of it.
pub list_add_head-Chain :
    (m : Memory) (p : Option ℕ) (new : ℕ) (xs : List ℕ)
    → Fresh new xs
    → Chain m p xs
    → Chain (list_add_head m p new) (some new) (new ∷ xs)
unfolding list_add_head
list_add_head-Chain m p new xs f c = (refl, ground (arith, Chain-update m new p p xs f c))

-- With fuel for the whole list `list_find_node` answers the node exactly when it is in the list.
pub list_find_node-elem :
    (fuel : ℕ) (m : Memory) (p : Option ℕ) (nod : ℕ) (xs : List ℕ)
    → length xs < fuel
    → Chain m p xs
    → list_find_node fuel m p nod ≡ (if elem nod xs then some nod else none)
unfolding list_find_node
list_find_node-elem zero m p nod xs h c = absurd (omega arith)
list_find_node-elem (suc f) m p nod [] h c = rw c
list_find_node-elem (suc f) m p nod (a ∷ xs) h c =
    rw c.0 (ground (arith, list_find_node-elem f m (m a) nod xs (omega arith) c.1))

-- What the deletion loop has done when it stops, entered at the successor of the node `q`.
record Deleted (m : Memory) (head : Option ℕ) (q nod : ℕ) (ys : List ℕ) (r : Memory × Option ℕ)
    : Type 0 where
  chain : Chain r.0 (r.0 q) (erase nod ys)
  same : (j : ℕ) → (q == j) ≡ false → elem j ys ≡ false → r.0 j ≡ m j
  kept : is_node head nod ≡ false → r.1 ≡ head

del_loop-Deleted :
    (f : ℕ) (m : Memory) (head : Option ℕ) (q nod : ℕ) (ys : List ℕ)
    → length ys < f
    → Fresh q ys
    → Distinct ys
    → Chain m (m q) ys
    → Deleted m head q nod ys (del_loop f m head (some q) (m q) nod)
unfolding del_loop
del_loop-Deleted zero m head q nod ys h fr d c = absurd (omega arith)
del_loop-Deleted (suc f) m head q nod [] h fr d c =
    rw c (record { chain = c; same = λ j _ _. refl; kept = λ _. refl })
del_loop-Deleted (suc f) m head q nod (a ∷ ys) h fr d c = rw c.0 (elim (Bool-cases (a == nod)) [
  | inl hit ↦ rw hit (record {
    chain = ground (arith, Chain-update m q (m a) (m a) ys fr.1 c.1);
    same = λ j ne _. ground arith;
    kept = λ ne. ground arith;
  })
  | inr miss ↦ rw miss (step miss (del_loop-Deleted f m head a nod ys (omega arith) d.0 d.1 c.1))
])
  where
    step :
        {r : Memory × Option ℕ}
        → (a == nod) ≡ false
        → Deleted m head a nod ys r
        → Deleted m head q nod (a ∷ ys) r
    step {r} miss v = record {
      chain = ground (arith, v.same q, elem_of_Fresh q ys fr.1, v.chain);
      same = λ j ne out. ground (arith, v.same j);
      kept = v.kept;
    }

-- Deleting a node of a chain of distinct nodes, with fuel for the whole list, leaves the chain of
-- the other nodes in their order, and no `next` field outside the list is written.
pub list_del_node-Chain :
    (fuel : ℕ) (m : Memory) (p : Option ℕ) (nod : ℕ) (xs : List ℕ)
    → length xs < fuel
    → Distinct xs
    → Chain m p xs
    → let (m', p') = list_del_node fuel m p nod in
      Chain m' p' (erase nod xs) × ((j : ℕ) → elem j xs ≡ false → m' j ≡ m j)
unfolding list_del_node del_loop
list_del_node-Chain zero m p nod xs h d c = absurd (omega arith)
list_del_node-Chain (suc f) m p nod [] h d c = rw c (refl, λ j _. refl)
list_del_node-Chain (suc f) m p nod (a ∷ ys) h d c = rw c.0 (elim (Bool-cases (a == nod)) [
  | inl hit ↦ rw hit (ground (arith, c.1), λ j _. refl)
  | inr miss ↦
      rw miss (step miss (del_loop-Deleted f m (some a) a nod ys (omega arith) d.0 d.1 c.1))
])
  where
    step :
        {r : Memory × Option ℕ}
        → (a == nod) ≡ false
        → Deleted m (some a) a nod ys r
        → Chain r.0 r.1 (a ∷ erase nod ys) × ((j : ℕ) → elem j (a ∷ ys) ≡ false → r.0 j ≡ m j)
    step {r} miss v = ((v.kept miss, v.chain), λ j out. ground (arith, v.same j))

last_node_next :
    (f : ℕ) (m : Memory) (a b : ℕ) → m a ≡ some b → last_node (suc f) m a ≡ last_node f m b
unfolding last_node
last_node_next f m a b e = rw (e, last_node)

last_node_end : (f : ℕ) (m : Memory) (a : ℕ) → m a ≡ none → last_node (suc f) m a ≡ a
unfolding last_node
last_node_end f m a e = rw (e, last_node)

last_node-elem :
    (f : ℕ) (m : Memory) (a : ℕ) (xs : List ℕ)
    → length xs < f
    → Chain m (m a) xs
    → elem (last_node f m a) (a ∷ xs) ≡ true
last_node-elem zero m a xs h c = absurd (omega arith)
last_node-elem (suc f) m a [] h c = ground (arith, last_node_end f m a c)
last_node-elem (suc f) m a (b ∷ xs) h c =
    ground (arith, last_node_next f m a b c.0, last_node-elem f m b xs (omega arith) c.1)

add_last-Chain :
    (f : ℕ) (m : Memory) (a new l : ℕ) (xs : List ℕ)
    → length xs < f
    → Distinct (a ∷ xs)
    → Fresh new (a ∷ xs)
    → Chain m (m a) xs
    → last_node f m a ≡ l
    → let m' = update (update m l (some new)) new none in Chain m' (m' a) (xs ++ new ∷ [])
add_last-Chain zero m a new l xs h d fr c e = absurd (omega arith)
add_last-Chain (suc f) m a new l [] h d fr c e = ground (arith, last_node_end f m a c)
add_last-Chain (suc f) m a new l (b ∷ xs) h d fr c e = (
  ground (
    arith,
    c.0,
    last_node_next f m a b c.0,
    last_node-elem f m b xs (omega arith) c.1,
    elem_of_Fresh a (b ∷ xs) d.0,
  ),
  add_last-Chain f m b new l xs (omega arith) d.1 fr.1 c.1 (sym (last_node_next f m a b c.0) ∙ e),
)

-- `list_add_rear` puts a node that is not in the list behind all of its nodes.
pub list_add_rear-Chain :
    (fuel : ℕ) (m : Memory) (head new : ℕ) (xs : List ℕ)
    → length xs < fuel
    → Distinct (head ∷ xs)
    → Fresh new (head ∷ xs)
    → Chain m (some head) (head ∷ xs)
    → Chain (list_add_rear fuel m head new) (some head) (head ∷ (xs ++ new ∷ []))
unfolding list_add_rear
list_add_rear-Chain fuel m head new xs h d fr c =
    (refl, add_last-Chain fuel m head new _ xs h d fr c.1 refl)
