-- ===== src/Stats.antt =====
-- internal/pipeline/stats.go: the sums of a receiver's statistics, and their summary. The two
-- numbers with decimal places are floats in the source; their texts are arguments.
pub mod Printed
pub mod Grouped
mod Tests
use grsync.Base.{
  String, ℕ, zero, suc, ◌+◌, ◌/◌, ◌%◌, Bool, true, false, not, ◌&&◌, List, [], ◌∷◌, ◌++◌, Bytes,
  codes, length, ltb, ◌==◌, if◌then◌else◌,
}
use grsync.Base.Int.{ℤ, pos, negsuc, add_int, lt_int}

-- Without the time that has passed.
pub record Stats : Type 0 where
  pub regular_files : ℤ
  pub directories : ℤ
  pub symlinks : ℤ
  pub created_regular_files : ℤ
  pub created_directories : ℤ
  pub created_symlinks : ℤ
  pub regular_files_transferred : ℤ
  pub total_file_size : ℤ
  pub total_transferred_file_size : ℤ
  pub literal_data : ℤ
  pub matched_data : ℤ
  pub bytes_sent : ℤ
  pub bytes_received : ℤ

unfoldable pub num_files : Stats → ℤ
unfolding add_int
num_files s = add_int (add_int s.regular_files s.directories) s.symlinks

unfoldable pub num_created_files : Stats → ℤ
unfolding add_int
num_created_files s =
    add_int (add_int s.created_regular_files s.created_directories) s.created_symlinks

-- The decimal digits of a number, before those that have been found; a round takes a digit.
unfoldable pub format_loop : ℕ → ℕ → Bytes → Bytes
format_loop zero n digits = digits
format_loop (suc f) n digits = elim (ltb n 10) [
  | true ↦ (b'0' + n) ∷ digits
  | false ↦ format_loop f (n / 10) ((b'0' + n % 10) ∷ digits)
]

unfoldable pub format_nat : ℕ → Bytes
unfolding format_loop
format_nat n = format_loop (suc n) n []

-- `strconv.FormatInt`
unfoldable pub format_int : ℤ → Bytes
unfolding format_nat
format_int (pos n) = format_nat n
format_int (negsuc n) = b'-' ∷ format_nat (n + 1)

-- The loop of `commaInt`: a comma goes before each digit but the first one that begins a group of
-- three.
unfoldable pub comma_loop : Bool → Bytes → Bytes
comma_loop first [] = []
comma_loop first (c ∷ digits) =
    let rest = c ∷ comma_loop false digits in
    if not first && ((length digits + 1) % 3 == 0) then b',' ∷ rest else rest

unfoldable pub comma_int : ℤ → Bytes
unfolding comma_loop format_nat
comma_int (pos n) = comma_loop true (format_nat n)
comma_int (negsuc n) = b'-' ∷ comma_loop true (format_nat (n + 1))

abbrev pub count_part : Bytes → ℤ → List Bytes → List Bytes
count_part label n parts = if lt_int (pos 0) n then (label ++ format_int n) ∷ parts else parts

-- `strings.Join` at ", ".
unfoldable pub join_parts : List Bytes → Bytes
join_parts [] = []
join_parts (part ∷ []) = part
join_parts (part ∷ next ∷ parts) = part ++ codes ", " ++ join_parts (next ∷ parts)

unfoldable pub parens : List Bytes → Bytes
unfolding join_parts
parens [] = []
parens (part ∷ parts) = codes " (" ++ join_parts (part ∷ parts) ++ codes ")"

unfoldable pub type_breakdown : ℤ → ℤ → ℤ → Bytes
unfolding parens lt_int format_int
type_breakdown reg dir link = parens (
    count_part (codes "reg: ") reg
      (count_part (codes "dir: ") dir (count_part (codes "link: ") link [])))

abbrev pub stats_line : String → Bytes → Bytes
stats_line label value = codes label ++ value ++ (b'\n' ∷ [])

unfoldable pub format_stats : Stats → Bool → Bytes → Bytes → Bytes
unfolding num_files num_created_files comma_int type_breakdown lt_int
format_stats s dry_run bytes_per_second speedup =
    (b'\n' ∷ [])
    ++ stats_line "Number of files: "
        (comma_int (num_files s) ++ type_breakdown s.regular_files s.directories s.symlinks)
    ++ (if lt_int (pos 0) (num_created_files s)
        then stats_line "Number of created files: " (
            comma_int (num_created_files s)
            ++ type_breakdown s.created_regular_files s.created_directories s.created_symlinks)
        else [])
    ++ stats_line "Number of regular files transferred: " (comma_int s.regular_files_transferred)
    ++ stats_line "Total file size: " (comma_int s.total_file_size ++ codes " bytes")
    ++ stats_line "Total transferred file size: "
        (comma_int s.total_transferred_file_size ++ codes " bytes")
    ++ stats_line "Literal data: " (comma_int s.literal_data ++ codes " bytes")
    ++ stats_line "Matched data: " (comma_int s.matched_data ++ codes " bytes")
    ++ stats_line "Total bytes sent: " (comma_int s.bytes_sent)
    ++ stats_line "Total bytes received: " (comma_int s.bytes_received)
    ++ (b'\n' ∷ [])
    ++ stats_line "sent " (
        comma_int s.bytes_sent
        ++ codes " bytes  received "
        ++ comma_int s.bytes_received
        ++ codes " bytes  "
        ++ bytes_per_second
        ++ codes " bytes/sec")
    ++ stats_line "total size is " (
        comma_int s.total_file_size
        ++ codes "  speedup is "
        ++ speedup
        ++ (if dry_run then codes " (DRY RUN)" else []))
