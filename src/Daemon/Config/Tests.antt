-- ===== src/Daemon/Config/Tests.antt =====
-- Runs of the configuration parser, and its theorem at a concrete file.
use grsync.Base.{◌≡◌, ◌≢◌, refl, false, List, [], ◌∷◌, Bytes, All, codes, ok, err}
use grsync.Base.Int.{pos}
use grsync.Daemon.Config.{Module, module_defaults, Config, duplicate, no_path, parse_config}
use grsync.Daemon.Config.Valid.{IsDistinct, parse_config-IsDistinct}

abbrev text : List Bytes
text =
    codes "# all modules"
    ∷ codes "Read Only = no"
    ∷ codes "max connections = 4"
    ∷ codes " [ pub ] "
    ∷ codes "path = /srv/\\"
    ∷ codes "pub"
    ∷ codes "auth users = ann, bob"
    ∷ codes "[home]"
    ∷ codes "path=/home"
    ∷ codes "read only = Yes"
    ∷ []

abbrev parsed : Config
parsed =
    record module_defaults { name = codes "home"; path = codes "/home"; max_connections = pos 4 }
    ∷ record module_defaults {
      name = codes "pub";
      path = codes "/srv/pub";
      read_only = false;
      auth_users = codes "ann" ∷ codes "bob" ∷ [];
      max_connections = pos 4;
    }
    ∷ []

parse_run : parse_config text ≡ ok parsed
unfolding parse_config
parse_run = refl

parse_twice : parse_config (codes "[a]" ∷ codes "path=x" ∷ codes "[a]" ∷ []) ≡ err (duplicate 3)
unfolding parse_config
parse_twice = refl

parse_no_path : parse_config (codes "[a]" ∷ []) ≡ err (no_path (codes "a"))
unfolding parse_config
parse_no_path = refl

parse_config-IsDistinct_example : IsDistinct parsed × All (λ (m : Module). m.path ≢ []) parsed
parse_config-IsDistinct_example = parse_config-IsDistinct text parsed parse_run
