-- ===== src/Sender/Tests.antt =====
-- Runs of the append delta, and its theorem at concrete files.
use grsync.Base.{◌≡◌, refl, [], ◌∷◌, codes, ok, err, panic}
use grsync.Base.Int.{pos, negsuc}
use grsync.Delta.{copy_op, data_op}
use grsync.Sender.{append_tail_ops, source_shrank}

tail_of_new :
    append_tail_ops (pos 3) (codes "abcde") ≡ ok (copy_op (pos 0) ∷ data_op (codes "de") ∷ [])
unfolding append_tail_ops
tail_of_new = refl

tail_of_shrunk : append_tail_ops (pos 3) (codes "ab") ≡ err source_shrank
unfolding append_tail_ops
tail_of_shrunk = refl

tail_of_negative : append_tail_ops (negsuc 0) (codes "ab") ≡ panic
unfolding append_tail_ops
tail_of_negative = refl
