-- ===== src/Dtls/Replay/Tests.antt =====
-- Runs of the window, and the theorems at concrete inputs.
use krabitls_rs.Base.{ℕ, ◌≤◌, ◌≡◌, refl, true, false, List, [], ◌∷◌}
use krabitls_rs.Dtls.Replay.{new, accepts, mark}
use krabitls_rs.Dtls.Replay.Window.{window_of, is_fresh, accepts-window_of}
use krabitls_rs.Dtls.Replay.Once.{admit, delivered, count, delivered_once}

abbrev marked : List ℕ
marked = 102 ∷ 103 ∷ 101 ∷ 100 ∷ []

window_edges :
    (accepts (window_of marked) 100 ≡ false)
    × (accepts (window_of marked) 39 ≡ false)
    × (accepts (window_of marked) 40 ≡ true)
    × (accepts (window_of marked) 104 ≡ true)
unfolding accepts window_of mark new
window_edges = (refl, refl, refl, refl)

replayed : delivered new (5 ∷ 7 ∷ 5 ∷ 6 ∷ 7 ∷ []) ≡ 5 ∷ 7 ∷ 6 ∷ []
unfolding delivered admit accepts mark new
replayed = refl

accepts-window_of_example : accepts (window_of marked) 40 ≡ is_fresh marked 40
accepts-window_of_example = accepts-window_of marked 40

delivered_once_example : count 5 (delivered new (5 ∷ 7 ∷ 5 ∷ [])) ≤ 1
delivered_once_example = delivered_once 5 (5 ∷ 7 ∷ 5 ∷ [])
