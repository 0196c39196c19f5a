-- ===== src/Audit/Tests.antt =====
-- The names that are bound at a concrete call.
use arky_foundation.Common.{codes, ◌≡◌, All, Text, List, [], ◌∷◌, refl}
use arky_foundation.Audit.Evidence.{Binding, bind_names, bound_names}
use arky_foundation.Audit.Symbols.{IsSole, bound_names-IsSole}

abbrev lower : Text → Text
lower s = s

abbrev names : List Text
names = codes "to" ∷ codes "a-b" ∷ codes "a_b" ∷ codes "tool" ∷ []

abbrev start : Binding
start = record { by_symbol = []; collisions = [] }

run : bound_names lower (bind_names lower names start) ≡ (codes "to", codes "to") ∷ []
unfolding bound_names bind_names
run = refl

bound_names-IsSole_example :
    All (IsSole lower names) (bound_names lower (bind_names lower names start))
bound_names-IsSole_example = bound_names-IsSole lower names
