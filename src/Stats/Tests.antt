-- ===== src/Stats/Tests.antt =====
-- Printed numbers and summaries, and the theorem at a concrete number.
use grsync.Base.{◌≡◌, refl, arith, some, codes, Bytes, ◌++◌}
use grsync.Base.Int.{pos, negsuc}
use grsync.Base.Numbers.{atoi}
use grsync.Stats.{comma_int, type_breakdown}
use grsync.Stats.Printed.{without_commas}
use grsync.Stats.Grouped.{sign, IsGrouped, comma_int-IsGrouped}

comma_large : comma_int (pos 1_234_567) ≡ codes "1,234,567"
unfolding comma_int
comma_large = refl

comma_negative : comma_int (negsuc 122_999) ≡ codes "-123,000"
unfolding comma_int
comma_negative = refl

breakdown_run : type_breakdown (pos 3) (pos 0) (pos 1) ≡ codes " (reg: 3, link: 1)"
unfolding type_breakdown
breakdown_run = refl

comma_int-IsGrouped_example :
    ((body : Bytes) × (comma_int (negsuc 1_234_566) ≡ sign (negsuc 1_234_566) ++ body)
      × IsGrouped body)
    × (atoi (without_commas (comma_int (negsuc 1_234_566))) ≡ some (negsuc 1_234_566))
comma_int-IsGrouped_example = comma_int-IsGrouped (negsuc 1_234_566) (omega arith)
