-- ===== src/Filter/Tests.antt =====
-- Runs of the filter, and its theorems at concrete rules.
use grsync.Base.{◌≡◌, ◌↔◌, refl, true, false, Option, some, List, [], ◌∷◌, Bytes, codes, ok, err}
use grsync.Glob.{path_match}
use grsync.Filter.{
  RawRule, Rule, rule_include, rule_filter, rule_exclude_from, include, exclude, empty_segment,
  compile_pattern, compile_rules, matches, match_segments, included,
}
use grsync.Filter.Segments.{SegmentsMatch, match_segments_iff}

abbrev logs : Rule
logs = record { action = exclude; pattern = codes "*.log"; anchored = false; dir_only = false }

abbrev builds : Rule
builds = record { action = exclude; pattern = codes "a/**/build"; anchored = true; dir_only = true }

abbrev files : Bytes → Option (List Bytes)
files path = some (codes " # text" ∷ codes "*.log " ∷ [] ∷ [])

compile_logs : compile_pattern exclude (codes "*.log") ≡ ok logs
unfolding compile_pattern
compile_logs = refl

compile_builds : compile_pattern exclude (codes "/a/**/build/") ≡ ok builds
unfolding compile_pattern
compile_builds = refl

compile_empty : compile_pattern exclude (codes "a//b") ≡ err (empty_segment (codes "a//b"))
unfolding compile_pattern
compile_empty = refl

match_builds : matches builds (codes "a/x/y/build") true ≡ true
unfolding matches path_match
match_builds = refl

abbrev command_line : List RawRule
command_line =
    record { kind = rule_include; pattern = codes "keep.log" }
    ∷ record { kind = rule_exclude_from; pattern = codes "f" }
    ∷ record { kind = rule_filter; pattern = codes "- /a/**/build/" }
    ∷ []

abbrev keeps : Rule
keeps = record { action = include; pattern = codes "keep.log"; anchored = false; dir_only = false }

compile_run : compile_rules files command_line ≡ ok (keeps ∷ logs ∷ builds ∷ [])
unfolding compile_rules
compile_run = refl

first_wins : included (keeps ∷ logs ∷ []) (codes "d/keep.log") false ≡ true
unfolding included path_match
first_wins = refl

match_segments_iff_example :
    (match_segments (codes "a" ∷ codes "**" ∷ []) (codes "a" ∷ codes "b" ∷ []) ≡ true)
    ↔ SegmentsMatch (codes "a" ∷ codes "**" ∷ []) (codes "a" ∷ codes "b" ∷ [])
match_segments_iff_example =
    match_segments_iff (codes "a" ∷ codes "**" ∷ []) (codes "a" ∷ codes "b" ∷ [])
