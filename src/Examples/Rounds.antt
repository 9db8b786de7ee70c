-- ===== src/Examples/Rounds.antt =====
-- The poll loop, over a small state.
use pentameter.Prelude.{ℕ, ◌+◌, ◌≡◌, refl, leb, if◌then◌else◌}
use pentameter.IntelliCenter.Result.{Error, Result, ok, err, read_failed, poll}
use pentameter.IntelliCenter.Engine.Session.{poll_loop}
use pentameter.IntelliCenter.Engine.Poll.{Failed, poll_loop-err}

-- The state counts the polls; the first two succeed, and the later ones fail.
abbrev two_good : ℕ → Result (Unit {0}) × ℕ
two_good s = if leb 2 s then (err read_failed, s + 1) else (ok tt, s + 1)

abbrev unchanged : ℕ → ℕ
unchanged s = s

poll_loop-err_example :
    (r : ℕ) × (d : Error) × (two_good r ≡ (err d, 5))
    × Failed two_good unchanged 2 r
    × (poll read_failed ≡ poll d)
unfolding poll_loop
poll_loop-err_example = poll_loop-err two_good unchanged 10 0 refl
