-- ===== src/Logs/Tests.antt =====
-- The log history at concrete entries (api/logs.rs).
use snx_edge.Common.{ℕ, ◌≡◌, refl, List, [], ◌∷◌, some}
use snx_edge.Logs.{LogBuffer, new, push, walk, push_all, last_n}
use snx_edge.Logs.History.{last_n-push_all}

abbrev three : LogBuffer ℕ
three = record { entries = []; capacity = 3; write_pos = 0; count = 0 }

abbrev five_entries : List ℕ
five_entries = 11 ∷ 12 ∷ 13 ∷ 14 ∷ 15 ∷ []

new-three : new 3 ≡ some three
unfolding new
new-three = refl

last_n-push_all_example : last_n 2 (push_all five_entries three) ≡ some (14 ∷ 15 ∷ [])
last_n-push_all_example = last_n-push_all 3 2 three five_entries new-three

test-last_n-run : last_n 2 (push_all five_entries three) ≡ some (14 ∷ 15 ∷ [])
unfolding last_n push_all push walk
test-last_n-run = refl

test-last_n-more : last_n 9 (push_all five_entries three) ≡ some (13 ∷ 14 ∷ 15 ∷ [])
unfolding last_n push_all push walk
test-last_n-more = refl
