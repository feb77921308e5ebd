-- ===== src/Transport/Rsh.antt =====
-- internal/transport/rsh.go: the remote-shell command line.
pub mod Quoted
mod Tests
use grsync.Base.{ℕ, Bool, true, false, not, ◌&&◌, ◌||◌}
use grsync.Base.{List, [], ◌∷◌, ◌++◌, Bytes, codes, ◌==◌, if◌then◌else◌, same_bytes, contains_byte}

-- The variables of the loop of `splitRSHCommand`; `in_quote` is 0 outside quotes.
pub record SplitState : Type 0 where
  pub fields : List Bytes
  pub current : Bytes
  pub in_quote : ℕ

unfoldable pub flush : SplitState → List Bytes
flush st = elim st.current [ [] ↦ st.fields | c ∷ text ↦ st.fields ++ ((c ∷ text) ∷ []) ]

-- One round of the loop.
unfoldable pub split_step : SplitState → ℕ → SplitState
unfolding flush
split_step st c =
    if not (st.in_quote == 0)
    then (if c == st.in_quote
        then record { fields = st.fields; current = st.current; in_quote = 0 }
        else record {
          fields = st.fields;
          current = st.current ++ (c ∷ []);
          in_quote = st.in_quote;
        })
    else if (c == b'\'') || (c == b'"')
    then record { fields = st.fields; current = st.current; in_quote = c }
    else if (c == b' ') || (c == b'\t')
    then record { fields = flush st; current = []; in_quote = 0 }
    else record { fields = st.fields; current = st.current ++ (c ∷ []); in_quote = 0 }

unfoldable pub split_loop : SplitState → Bytes → SplitState
unfolding split_step
split_loop st [] = st
split_loop st (c ∷ s) = split_loop (split_step st c) s

unfoldable pub split_rsh_command : Bytes → List Bytes
unfolding split_loop flush
split_rsh_command s = flush (split_loop (record { fields = []; current = []; in_quote = 0 }) s)

-- What stands behind the last slash or backslash, `seen` being the text since the one before.
unfoldable pub base_loop : Bytes → Bytes → Bytes
base_loop seen [] = seen
base_loop seen (c ∷ s) =
    if (c == b'/') || (c == b'\\') then base_loop [] s else base_loop (seen ++ (c ∷ [])) s

-- The program is `ssh` or `ssh.exe`, in any directory.
unfoldable pub ssh_address_family_flag : Bytes → Bool → Bool → Bytes
unfolding base_loop same_bytes
ssh_address_family_flag program ipv4 ipv6 =
    let base = base_loop [] program in
    if not ipv4 && not ipv6
    then []
    else if not (same_bytes base (codes "ssh") || same_bytes base (codes "ssh.exe"))
    then []
    else if ipv4
    then codes "-4"
    else codes "-6"

abbrev pub default_rsh : Bytes
default_rsh = codes "ssh"

unfoldable pub rsh_target : Bytes → Bytes → Bytes
rsh_target [] host = host
rsh_target (c ∷ user) host = (c ∷ user) ++ (b'@' ∷ host)

-- The command for a program and its arguments.
unfoldable pub rsh_argv : Bytes → List Bytes → Bytes → List Bytes → Bool → Bool → List Bytes
unfolding ssh_address_family_flag
rsh_argv program arguments target remote_args ipv4 ipv6 =
    elim (ssh_address_family_flag program ipv4 ipv6) [
      | [] ↦ (program ∷ arguments) ++ (target ∷ remote_args)
      | c ∷ flag ↦ (program ∷ arguments) ++ ((c ∷ flag) ∷ target ∷ remote_args)
    ]

unfoldable pub build_rsh_command : Bytes → Bytes → Bytes → List Bytes → Bool → Bool → List Bytes
unfolding split_rsh_command rsh_argv rsh_target
build_rsh_command rsh user host remote_args ipv4 ipv6 = elim (split_rsh_command rsh) [
  | [] ↦ rsh_argv default_rsh [] (rsh_target user host) remote_args ipv4 ipv6
  | program ∷ arguments ↦ rsh_argv program arguments (rsh_target user host) remote_args ipv4 ipv6
]
