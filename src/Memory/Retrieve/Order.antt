-- ===== src/Memory/Retrieve/Order.antt =====
-- The order of the search results of src/city2core/memory.py.
use city.Base.{◌<◌, ◌=?◌, ◌≡◌, ◌⊎◌, true, false, List, [], ◌∷◌}
use city.Memory.Sort.{text_le}
use city.Memory.Retrieve.{Ranked}

-- The order that the search promises: the smaller priority number is first, then the higher score,
-- then the earlier inverted time, then the earlier identifier.
abbrev pub Precedes : Ranked → Ranked → Type 0
Precedes a b =
    (a.priority < b.priority)
    ⊎ ((a.priority ≡ b.priority)
        × ((b.score_units < a.score_units)
            ⊎ ((a.score_units ≡ b.score_units)
                × (((a.inverted_time ≡ b.inverted_time) × (text_le a.memory_id b.memory_id ≡ true))
                    ⊎ (((a.inverted_time =? b.inverted_time) ≡ false)
                        × (text_le a.inverted_time b.inverted_time ≡ true))))))

-- Each entry precedes the next one.
unfoldable pub Ordered : List Ranked → Type 0
Ordered [] = Unit {0}
Ordered (a ∷ []) = Unit {0}
Ordered (a ∷ b ∷ l) = Precedes a b × Ordered (b ∷ l)
