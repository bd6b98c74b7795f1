-- ===== src/Server/Time.antt =====
-- The addition of times for the timer.
use Prim.Native.Nat.{◌*◌}
use advanced_embedded_softwa.Base.{◌+◌, ◌≤◌, ◌<◌, ◌≡◌, arith, ltb, not, ◌==◌}
use advanced_embedded_softwa.Server.{Timespec, second, timespec_add}

-- The sum of two normal times is the right time, and it is normal unless its parts of a second make
-- up just one: then `tv_nsec` is the whole 1000000000, which a normal time does not have, and at most
-- that in any case.
pub timespec_add_lem :
    (a b : Timespec)
    → a.tv_nsec < second
    → b.tv_nsec < second
    → ((timespec_add a b).tv_sec * second + (timespec_add a b).tv_nsec
        ≡ (a.tv_sec * second + a.tv_nsec) + (b.tv_sec * second + b.tv_nsec))
      × (ltb (timespec_add a b).tv_nsec second ≡ not (a.tv_nsec + b.tv_nsec == second))
      × ((timespec_add a b).tv_nsec ≤ second)
unfolding timespec_add
timespec_add_lem a b p q = (ground arith, ground arith, ground arith)
