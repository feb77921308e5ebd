-- ===== src/Transport/Rsh/Tests.antt =====
-- Runs of the command line, and its theorem at concrete arguments.
use grsync.Base.{◌≡◌, refl, true, false, [], ◌∷◌, codes, contains_byte}
use grsync.Transport.Rsh.{split_rsh_command, build_rsh_command}
use grsync.Transport.Rsh.Quoted.{quote_fields, split_rsh_command-quote_fields}

split_run :
    split_rsh_command (codes "ssh -i 'my key'\t-p\"22\" ")
    ≡ codes "ssh" ∷ codes "-i" ∷ codes "my key" ∷ codes "-p22" ∷ []
unfolding split_rsh_command
split_run = refl

build_run :
    build_rsh_command
      (codes "/usr/bin/ssh -v")
      (codes "u")
      (codes "h")
      (codes "grsync" ∷ [])
      false
      true
    ≡ codes "/usr/bin/ssh" ∷ codes "-v" ∷ codes "-6" ∷ codes "u@h" ∷ codes "grsync" ∷ []
unfolding build_rsh_command
build_run = refl

build_default :
    build_rsh_command [] [] (codes "h") (codes "grsync" ∷ []) false false
    ≡ codes "ssh" ∷ codes "h" ∷ codes "grsync" ∷ []
unfolding build_rsh_command
build_default = refl

split_rsh_command-quote_fields_example :
    split_rsh_command (quote_fields (codes "ssh" ∷ codes "my key" ∷ []))
    ≡ codes "ssh" ∷ codes "my key" ∷ []
unfolding contains_byte
split_rsh_command-quote_fields_example =
    split_rsh_command-quote_fields (codes "ssh" ∷ codes "my key" ∷ [])
      (((λ e. cc), refl), (((λ e. cc), refl), tt))
