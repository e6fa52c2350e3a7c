-- ===== src/LocApi/Nmea/InView.antt =====
-- The sentences of the satellites in view of gps/loc_api/libloc_api_50001/loc_eng_nmea.cpp list each satellite of
-- their system once.
use vibe_xperia.Prelude.{
  ℕ, suc, ◌≤◌, true, List, [], ◌∷◌, ◌++◌, ◌⊎◌, ◌≡◌, if◌then◌else◌, length, count,
}
use vibe_xperia.LocApi.Nmea.{
  System, Sv, is_of, Sentence, in_view, none_in_view, text_len, send_in_view,
}

-- The satellites of a system
unfoldable pub those_of : System → List Sv → List Sv
those_of system [] = []
those_of system (sv ∷ svs) =
    if is_of system sv then sv ∷ those_of system svs else those_of system svs

-- The satellites that sentences list
unfoldable pub listed : List Sentence → List Sv
listed [] = []
listed (in_view system sentences number total svs ∷ more) = svs ++ listed more
listed (none_in_view system ∷ more) = listed more

-- The sentences are numbered from a number on, say how many there are, and list four satellites at most.
unfoldable pub Numbered : System → ℕ → ℕ → ℕ → List Sentence → Type 0
Numbered system sentences total number [] = Unit
Numbered system sentences total number (s ∷ more) =
    ((svs : List Sv) × (s ≡ in_view system sentences number total svs) × (length svs ≤ 4))
    × Numbered system sentences total (suc number) more

-- The text of each satellite takes 30 characters at most.
unfoldable pub AllShort : List Sv → Type 0
AllShort [] = Unit
AllShort (sv ∷ svs) = (text_len sv ≤ 30) × AllShort svs

-- What one sentence takes off the list
record Filled (system : System) (left : ℕ) (svs entries rest : List Sv) : Type 0 where
  kept : entries ++ those_of system rest ≡ those_of system svs
  few : length entries ≤ left
  full : (length entries ≡ left) ⊎ (length (those_of system rest) ≡ 0)
  short : AllShort rest

module _ (head_len : ℕ → ℕ → ℕ → ℕ) (heads : (a b c : ℕ) → head_len a b c ≤ 60) (system : System)
    (sentences total : ℕ) where
  -- The loop of so many sentences for satellites that fit into them
  record Sent (left number : ℕ) (svs : List Sv) : Type 0 where
    sent_all : (send_in_view head_len system sentences total left number svs).1 ≡ true
    lists :
        listed (send_in_view head_len system sentences total left number svs).0
        ≡ those_of system svs
    numbered :
        Numbered system sentences total number
          (send_in_view head_len system sentences total left number svs).0
    as_many : length (send_in_view head_len system sentences total left number svs).0 ≡ left

module _ (head_len : ℕ → ℕ → ℕ → ℕ) (heads : (a b c : ℕ) → head_len a b c ≤ 60) (system : System)
    (svs : List Sv) (short : AllShort svs) where
  abbrev n : ℕ
  n = count (is_of system) svs
