-- ===== src/Daemon/Greeting/Tests.antt =====
-- Runs of the greeting, and its theorems at a concrete configuration.
use grsync.Base.{
  quoted, ◌≡◌, refl, arith, contains_byte, ends_with, false, none, some, [], ◌∷◌, ◌++◌, codes, ok,
  err, has_prefix, same_bytes,
}
use grsync.Base.Int.{pos}
use grsync.Daemon.Lines.{write_line}
use grsync.Daemon.Config.{Module, module_defaults, Config, find_module}
use grsync.Daemon.Greeting.{
  bad_prefix, unknown_module, module_list_requested, greeting_line, exit_line, parse_greeting,
  select_module, serve_greeting, dial_greeting, module_lines,
}
use grsync.Daemon.Greeting.Selection.{
  sent, serve_greeting-dial_greeting, read_module_list-write_module_list,
}

abbrev pub_module : Module
pub_module = record module_defaults {
  name = codes "pub";
  path = codes "/srv";
  comment = codes "all";
}

abbrev two_modules : Config
two_modules =
    record module_defaults { name = codes "zoo"; path = codes "/zoo" }
    ∷ pub_module
    ∷ record module_defaults { name = codes "secret"; path = codes "/s"; list = false }
    ∷ []

parse_greeting_old : parse_greeting (codes "@RSYNCD: 29") ≡ ok (pos 29, pos 0)
unfolding parse_greeting
parse_greeting_old = refl

parse_greeting_other : parse_greeting (codes "220 ready") ≡ err (bad_prefix (codes "220 ready"))
unfolding parse_greeting
parse_greeting_other = refl

select_unknown : select_module two_modules (codes "none") (record { input = []; output = [] }) ≡ (
  err (unknown_module (codes "none")),
  record { input = []; output = sent (codes "@ERROR: Unknown module \"none\"" ∷ []) },
)
unfolding select_module sent write_line quoted
select_unknown = refl

module_lines_run :
    module_lines two_modules
    ≡ (codes "pub" ++ (b'\t' ∷ codes "all")) ∷ (codes "zoo" ++ (b'\t' ∷ [])) ∷ []
unfolding module_lines
module_lines_run = refl

serve_greeting-dial_greeting_example :
    (dial_greeting
        (codes "pub")
        (record { input = sent (greeting_line ∷ []) ++ codes "x"; output = [] })
      ≡ (ok none, record { input = codes "x"; output = sent (greeting_line ∷ codes "pub" ∷ []) }))
    × (serve_greeting two_modules
          (record { input = sent (greeting_line ∷ codes "pub" ∷ []) ++ codes "y"; output = [] })
        ≡ (ok pub_module, record { input = codes "y"; output = sent (greeting_line ∷ []) }))
unfolding find_module contains_byte ends_with same_bytes
serve_greeting-dial_greeting_example =
    serve_greeting-dial_greeting two_modules pub_module (codes "pub") (codes "y") (codes "x") refl
      (record { one_line = refl; no_return = refl; short = omega arith }) refl (λ e. cc e)

read_module_list-write_module_list_example :
    (dial_greeting [] (record {
      input = sent (greeting_line ∷ (module_lines two_modules ++ (exit_line ∷ []))) ++ [];
      output = [];
    })
      ≡ (
        ok (some (module_lines two_modules)),
        record { input = []; output = sent (greeting_line ∷ codes "#list" ∷ []) },
      ))
    × (serve_greeting two_modules
          (record { input = sent (greeting_line ∷ codes "#list" ∷ []) ++ []; output = [] })
        ≡ (
          err module_list_requested,
          record {
            input = [];
            output = sent (greeting_line ∷ (module_lines two_modules ++ (exit_line ∷ [])));
          },
        ))
unfolding module_lines contains_byte ends_with same_bytes has_prefix
read_module_list-write_module_list_example = read_module_list-write_module_list two_modules [] [] (
  record {
    is_line = record { one_line = refl; no_return = refl; short = omega arith };
    not_exit = refl;
    not_error = refl;
  },
  (
    record {
      is_line = record { one_line = refl; no_return = refl; short = omega arith };
      not_exit = refl;
      not_error = refl;
    },
    tt,
  ),
)
