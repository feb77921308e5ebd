-- ===== src/Filter.antt =====
-- internal/sync/filter.go: filter rules, how they are compiled and matched. The lines of a pattern
-- file, as bufio.Scanner reads them, are a parameter.
pub mod Segments
pub mod Names
pub mod Compiled
pub mod Order
mod Tests
use grsync.Base.{ℕ, zero, suc, Bool, true, false, not, ◌&&◌, ◌||◌, Option, none, some}
use grsync.Base.{
  List, [], ◌∷◌, ◌++◌, Bytes, codes, drop, ◌==◌, if◌then◌else◌, same_bytes, split_on, has_prefix,
}
use grsync.Base.{contains_byte, trim_space, ends_with, drop_last, Result, ok, err, panic, ◌>>=◌}
use grsync.Glob.{path_match, after_some}

-- `RuleKind`, a string; `unsupported` is any other one.
pub data RuleKind : Type 0 where
  rule_include rule_exclude rule_filter rule_exclude_from rule_include_from unsupported : RuleKind

pub record RawRule : Type 0 where
  pub kind : RuleKind
  pub pattern : Bytes

pub data Action : Type 0 where
  include exclude : Action

pub record Rule : Type 0 where
  pub action : Action
  pub pattern : Bytes
  pub anchored : Bool
  pub dir_only : Bool

abbrev pub deep : Bytes
deep = b'*' ∷ b'*' ∷ []

-- Below a `**`, `after_some` tries the rest of the pattern at the path and at each of its tails.
unfoldable pub match_segments : List Bytes → List Bytes → Bool
unfolding after_some same_bytes
match_segments [] [] = true
match_segments [] (x ∷ path) = false
match_segments (p ∷ pattern) path =
    let below = match_segments pattern in
    if same_bytes p deep
    then after_some (λ _. true) below path
    else (elim path [ [] ↦ false | x ∷ rest ↦ path_match p x && below rest ])

-- The loop over the depths at which an unanchored pattern may start.
unfoldable pub match_any_depth : List Bytes → List Bytes → Bool
unfolding match_segments
match_any_depth pattern [] = match_segments pattern []
match_any_depth pattern (x ∷ path) =
    if match_segments pattern (x ∷ path) then true else match_any_depth pattern path

unfoldable pub matches : Rule → Bytes → Bool → Bool
unfolding match_any_depth split_on
matches r entry_path is_dir =
    if r.dir_only && not is_dir
    then false
    else if r.anchored
    then match_segments (split_on b'/' r.pattern) (split_on b'/' entry_path)
    else match_any_depth (split_on b'/' r.pattern) (split_on b'/' entry_path)

pub data FilterError : Type 0 where
  empty_segment unsupported_syntax nested_merge unsupported_kind : Bytes → FilterError
  file_error : Bytes → FilterError

unfoldable pub has_empty : List Bytes → Bool
has_empty [] = false
has_empty ([] ∷ segs) = true
has_empty ((c ∷ seg) ∷ segs) = has_empty segs

-- `strings.Contains(pattern, "**")`
unfoldable pub contains_deep : Bytes → Bool
contains_deep [] = false
contains_deep (c ∷ s) = has_prefix (c ∷ s) deep || contains_deep s

-- Behind the leading slash, whose presence is `leading`.
unfoldable pub compile_tail : Action → Bool → Bytes → Result FilterError Rule
unfolding has_empty contains_deep split_on ends_with drop_last contains_byte has_prefix
compile_tail action leading pattern =
    let dir_only = ends_with pattern b'/' in
    let body = if dir_only then drop_last pattern else pattern in
    if has_empty (split_on b'/' body)
    then err (empty_segment body)
    else ok (record {
      action = action;
      pattern = body;
      anchored = leading || contains_byte body b'/' || contains_deep body;
      dir_only = dir_only;
    })

unfoldable pub compile_pattern : Action → Bytes → Result FilterError Rule
unfolding compile_tail
compile_pattern action [] = compile_tail action false []
compile_pattern action (c ∷ pattern) =
    if c == b'/' then compile_tail action true pattern else compile_tail action false (c ∷ pattern)

-- A parsed line: a rule or the file of a merge.
pub data FilterLine : Type 0 where
  rule_line : Rule → FilterLine
  merge_line : Bytes → FilterLine

unfoldable pub as_rule : Result FilterError Rule → Result FilterError FilterLine
as_rule (ok r) = ok (rule_line r)
as_rule (err e) = err e
as_rule panic = panic

unfoldable pub parse_filter_line : Bytes → Result FilterError FilterLine
unfolding compile_pattern as_rule has_prefix trim_space
parse_filter_line line =
    if has_prefix line (codes "+ ")
    then as_rule (compile_pattern include (trim_space (drop 2 line)))
    else if has_prefix line (codes "- ")
    then as_rule (compile_pattern exclude (trim_space (drop 2 line)))
    else if has_prefix line (codes "include ")
    then as_rule (compile_pattern include (trim_space (drop 8 line)))
    else if has_prefix line (codes "exclude ")
    then as_rule (compile_pattern exclude (trim_space (drop 8 line)))
    else if has_prefix line (codes "merge ")
    then ok (merge_line (trim_space (drop 6 line)))
    else err (unsupported_syntax line)

-- The patterns among the lines of a file.
unfoldable pub pattern_lines : List Bytes → List Bytes
unfolding trim_space
pattern_lines [] = []
pattern_lines (line ∷ lines) =
    let rest = pattern_lines lines in
    elim (trim_space line) [
      | [] ↦ rest
      | c ∷ text ↦ if (c == b'#') || (c == b';') then rest else (c ∷ text) ∷ rest
    ]

unfoldable pub compile_all : Action → List Bytes → Result FilterError (List Rule)
unfolding compile_pattern
compile_all action [] = ok []
compile_all action (p ∷ patterns) = do
  r ← compile_pattern action p
  rules ← compile_all action patterns
  ok (r ∷ rules)

-- The lines of a merge file.
unfoldable pub merge_lines : List Bytes → Result FilterError (List Rule)
unfolding parse_filter_line
merge_lines [] = ok []
merge_lines (line ∷ lines) = do
  parsed ← parse_filter_line line
  r ← elim parsed as (λ _. Result FilterError Rule) [
    | rule_line r ↦ ok r
    | merge_line f ↦ err (nested_merge line)
  ]
  rules ← merge_lines lines
  ok (r ∷ rules)

module _ (scan : Bytes → Option (List Bytes)) where
  unfoldable pub read_pattern_file : Bytes → Result FilterError (List Bytes)
  unfolding pattern_lines
  read_pattern_file path = elim (scan path) [
    | none ↦ err (file_error path)
    | some lines ↦ ok (pattern_lines lines)
  ]

  unfoldable pub expand_merge_file : Bytes → Result FilterError (List Rule)
  unfolding read_pattern_file merge_lines
  expand_merge_file path = do lines ← read_pattern_file path; merge_lines lines

  -- The rules that one flag stands for.
  unfoldable pub compile_rule : RuleKind → Bytes → Result FilterError (List Rule)
  unfolding expand_merge_file compile_all
  compile_rule rule_include pattern = do r ← compile_pattern include pattern; ok (r ∷ [])
  compile_rule rule_exclude pattern = do r ← compile_pattern exclude pattern; ok (r ∷ [])
  compile_rule rule_filter pattern = do
    parsed ← parse_filter_line (trim_space pattern)
    elim parsed [ rule_line r ↦ ok (r ∷ []) | merge_line f ↦ expand_merge_file f ]
  compile_rule rule_exclude_from pattern = do
    patterns ← read_pattern_file pattern
    compile_all exclude patterns
  compile_rule rule_include_from pattern = do
    patterns ← read_pattern_file pattern
    compile_all include patterns
  compile_rule unsupported pattern = err (unsupported_kind pattern)

  unfoldable pub compile_rules : List RawRule → Result FilterError (List Rule)
  unfolding compile_rule
  compile_rules [] = ok []
  compile_rules (raw ∷ rest) = do
    rules ← compile_rule raw.kind raw.pattern
    more ← compile_rules rest
    ok (rules ++ more)

-- The fields of a file entry that filtering reads are its path and whether it is a directory.
unfoldable pub included : List Rule → Bytes → Bool → Bool
unfolding matches
included [] entry_path is_dir = true
included (r ∷ rules) entry_path is_dir =
    if matches r entry_path is_dir
    then (elim r.action [ include ↦ true | exclude ↦ false ])
    else included rules entry_path is_dir

unfoldable pub filter_entries : List (Bytes × Bool) → List Rule → List (Bytes × Bool)
unfolding included
filter_entries [] rules = []
filter_entries ((path, is_dir) ∷ entries) rules =
    let kept = filter_entries entries rules in
    if included rules path is_dir then (path, is_dir) ∷ kept else kept
