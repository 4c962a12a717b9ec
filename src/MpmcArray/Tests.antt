-- ===== src/MpmcArray/Tests.antt =====
-- The array's theorem at a write behind the end of an array of two.
use lci.Base.{ℕ, List, [], ◌∷◌}

abbrev pair : List ℕ
pair = 4 ∷ 5 ∷ []

abbrev none_yet : ℕ
none_yet = 0

abbrev six : ℕ
six = 6
