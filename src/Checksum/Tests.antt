-- ===== src/Checksum/Tests.antt =====
-- Runs of the weak checksum, and its theorems at concrete windows.
use grsync.Base.{◌+◌, ◌*◌, ◌≡◌, refl, arith, codes}
use grsync.Checksum.{new_weak_checksum, sum, roll}
use grsync.Checksum.Roll.{roll-new_weak_checksum}

sum_of_abc : sum (new_weak_checksum (codes "abc")) ≡ 294 + 586 * 65536
unfolding sum new_weak_checksum
sum_of_abc = refl

roll-new_weak_checksum_example :
    roll (new_weak_checksum (codes "abc")) b'a' b'd' ≡ new_weak_checksum (codes "bcd")
roll-new_weak_checksum_example = roll-new_weak_checksum b'a' (codes "bc") b'd' (omega arith)
