-- ===== src/Barrier/Tests.antt =====
-- Runs of the barrier.
use boost_task.Prelude.{◌≡◌, refl, true, false, none, some, length}
use boost_task.Barrier.{Barrier, construct, wait, waits, resumes}
use boost_task.Barrier.Round.{idle, round_lem}

construct-zero : construct 0 ≡ none
unfolding construct
construct-zero = refl

construct-three : construct 3 ≡ some (idle 2 true 0)
unfolding construct
construct-three = refl

round_lem_example :
    let gathered : Barrier = waits 2 (idle 2 true 0) in
    (length gathered.asleep ≡ 2)
    × ((wait gathered).0 ≡ some true)
    × (resumes 2 (wait gathered).1 ≡ idle 2 false 2)
round_lem_example = round_lem 2 true 0
