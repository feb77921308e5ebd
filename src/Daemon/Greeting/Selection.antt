-- ===== src/Daemon/Greeting/Selection.antt =====
-- The choice of a module and the list of modules, with both sides of the connection.
use grsync.Base.{
  ℕ, zero, suc, ◌+◌, ◌≤◌, ◌<◌, ◌≡◌, ◌≢◌, refl, sym, ap, ◌∙◌, arith, Bool, true, false, inl, inr,
  Bool-cases, Option, none, some,
}
use grsync.Base.{
  List, [], ◌∷◌, ◌++◌, append_assoc, append-nil, All, Bytes, codes, length, length-append,
  same_bytes, has_prefix, if◌then◌else◌, Result, ok, err,
}
use grsync.Conn.{Conn, Io, pure, throw, resume}
use grsync.Daemon.Lines.{write_line, read_line}
use grsync.Daemon.Lines.Framed.{IsLine, read_line_next}
use grsync.Daemon.Config.{Module, Config, find_module}
use grsync.Daemon.Greeting.{
  GreetingError, reading, server_error, module_list_requested, greeting_line, exit_line,
  read_greeting, module_lines, write_lines, write_module_list, select_module, serve_greeting,
  list_loop, read_module_list, dial_greeting,
}

-- Lines as they are sent.
unfoldable pub sent : List Bytes → Bytes
sent [] = []
sent (line ∷ lines) = line ++ (b'\n' ∷ sent lines)

read_greeting-greeting_line :
    (rest out : Bytes)
    → read_greeting (record { input = greeting_line ++ (b'\n' ∷ rest); output = out })
      ≡ (ok (grsync.Base.Int.pos 31, grsync.Base.Int.pos 0), record { input = rest; output = out })
unfolding read_greeting read_line
read_greeting-greeting_line rest out = refl

select_module-find_module :
    (config : Config) (m : Module) (name : Bytes)
    → find_module name config ≡ some m
    → same_bytes name (codes "#list") ≡ false
    → (conn : Conn) → select_module config name conn ≡ (ok m, conn)
unfolding select_module
select_module-find_module config m name found other conn = rw (other, found) refl

-- A server that reads a greeting and a request goes on to the choice of the module.
serve_greeting-sent :
    (config : Config) (name request : Bytes)
    → IsLine name
    → serve_greeting config
        (record { input = greeting_line ++ (b'\n' ∷ (name ++ (b'\n' ∷ request))); output = [] })
      ≡ select_module config name
          (record { input = request; output = greeting_line ++ (b'\n' ∷ []) })
unfolding serve_greeting read_greeting write_line read_line
serve_greeting-sent config name request line =
    read_line_next reading (select_module config) name request (greeting_line ++ (b'\n' ∷ [])) line

-- A client that names a module of the server's file gets past the greeting, and the server serves
-- that module: the server reads what the client has sent, the client what the server has sent, and
-- each leaves what follows. The name is one line and not "#list".
pub serve_greeting-dial_greeting :
    (config : Config) (m : Module) (name request reply : Bytes)
    → find_module name config ≡ some m
    → IsLine name
    → same_bytes name (codes "#list") ≡ false
    → name ≢ []
    → let hello = sent (greeting_line ∷ []) in
      let asked = sent (greeting_line ∷ name ∷ []) in
      (dial_greeting name (record { input = hello ++ reply; output = [] })
        ≡ (ok none, record { input = reply; output = asked }))
      × (serve_greeting config (record { input = asked ++ request; output = [] })
          ≡ (ok m, record { input = request; output = hello }))
unfolding sent dial_greeting serve_greeting read_greeting read_line write_line
serve_greeting-dial_greeting config m [] request reply found line other named = absurd (named refl)
serve_greeting-dial_greeting config m (c ∷ name) request reply found line other named = (
  refl,
  (rw (append_assoc name (b'\n' ∷ []) request) (
      serve_greeting-sent config (c ∷ name) request line
      ∙ select_module-find_module config m (c ∷ name) found other
          (record { input = request; output = greeting_line ++ (b'\n' ∷ []) }))),
)

-- A line of a list: neither its end nor an error.
pub record IsListLine (line : Bytes) : Type 0 where
  pub is_line : IsLine line
  pub not_exit : same_bytes line exit_line ≡ false
  pub not_error : has_prefix line (codes "@ERROR") ≡ false

write_lines-sent :
    (lines : List Bytes) (input out : Bytes)
    → write_lines lines (record { input = input; output = out })
      ≡ (ok tt, record { input = input; output = out ++ sent lines })
unfolding write_lines sent write_line
write_lines-sent [] input out = rw (append-nil out) refl
write_lines-sent (line ∷ lines) input out =
    write_lines-sent lines input (out ++ (line ++ (b'\n' ∷ [])))
    ∙ ap (λ (o : Bytes). (ok tt, record { input = input; output = o }))
        (append_assoc out (line ++ (b'\n' ∷ [])) (sent lines)
          ∙ ap (λ (o : Bytes). out ++ o) (append_assoc line (b'\n' ∷ []) (sent lines)))

-- A round of the loop, behind its line.
unfoldable list_step : ℕ → List Bytes → Bytes → Io GreetingError (List Bytes)
unfolding list_loop
list_step f lines line = elim (same_bytes line exit_line) [
  | true ↦ pure lines
  | false ↦
      if has_prefix line (codes "@ERROR")
      then throw (server_error line)
      else list_loop f (lines ++ (line ∷ []))
]

list_step-list_loop :
    (f : ℕ) (before : List Bytes) (line : Bytes) (c : Conn)
    → IsListLine line
    → list_step f before line c ≡ list_loop f (before ++ (line ∷ [])) c
unfolding list_step
list_step-list_loop f before line c h = rw (h.not_exit, h.not_error, list_step) refl

list_exit :
    (f : ℕ) (before : List Bytes) (rest out : Bytes)
    → list_loop (suc f) before (record { input = exit_line ++ (b'\n' ∷ rest); output = out })
      ≡ (ok (before ++ []), record { input = rest; output = out })
unfolding list_loop read_line same_bytes
list_exit f before rest out = rw (append-nil before) refl

list_loop-sent :
    (f : ℕ) (lines before : List Bytes) (rest out : Bytes)
    → All IsListLine lines
    → length lines < f
    → list_loop f before (record { input = sent (lines ++ (exit_line ∷ [])) ++ rest; output = out })
      ≡ (ok (before ++ lines), record { input = rest; output = out })
unfolding list_loop sent list_step
list_loop-sent zero lines before rest out all h = absurd (omega arith)
list_loop-sent (suc f) [] before rest out all h = list_exit f before rest out
list_loop-sent (suc f) (line ∷ lines) before rest out (this, all) h =
    rw (append_assoc line (b'\n' ∷ sent (lines ++ (exit_line ∷ []))) rest) (
      read_line_next reading (list_step f before) line (sent (lines ++ (exit_line ∷ [])) ++ rest)
        out this.is_line
      ∙ list_step-list_loop f before line
          (record { input = sent (lines ++ (exit_line ∷ [])) ++ rest; output = out }) this
      ∙ list_loop-sent f lines (before ++ (line ∷ [])) rest out all (omega arith)
      ∙ ap (λ (l : List Bytes). (ok l, record { input = rest; output = out }))
          (append_assoc before (line ∷ []) lines))

sent-append : (xs ys : List Bytes) → sent (xs ++ ys) ≡ sent xs ++ sent ys
unfolding sent
sent-append [] ys = refl
sent-append (x ∷ xs) ys =
    ap (λ (t : Bytes). x ++ (b'\n' ∷ t)) (sent-append xs ys)
    ∙ sym (append_assoc x (b'\n' ∷ sent xs) (sent ys))

length-sent : (lines : List Bytes) → length lines ≤ length (sent lines)
unfolding sent
length-sent [] = omega arith
length-sent (line ∷ lines) =
    omega (arith, length-sent lines, length-append line (b'\n' ∷ sent lines))

-- A client that asks for the list of modules reads the lines of the server's listable modules, in
-- their order, and the server ends with the error that says so: the server reads what the client
-- has sent, the client what the server has sent. No line of the list may hold a line break, pass
-- 8192 bytes, end in a carriage return, be the line "@RSYNCD: EXIT" or begin with "@ERROR".
pub read_module_list-write_module_list :
    (config : Config) (request reply : Bytes)
    → All IsListLine (module_lines config)
    → let asked = sent (greeting_line ∷ codes "#list" ∷ []) in
      let listed = sent (greeting_line ∷ (module_lines config ++ (exit_line ∷ []))) in
      (dial_greeting [] (record { input = listed ++ reply; output = [] })
        ≡ (ok (some (module_lines config)), record { input = reply; output = asked }))
      × (serve_greeting config (record { input = asked ++ request; output = [] })
          ≡ (err module_list_requested, record { input = request; output = listed }))
unfolding sent dial_greeting read_module_list serve_greeting read_greeting read_line write_line
    select_module write_module_list same_bytes
read_module_list-write_module_list config request reply all =
    let lines = module_lines config in
    let wire = sent (lines ++ (exit_line ∷ [])) in
    (
      ap (λ (p : Result GreetingError (List Bytes) × Conn). resume p.0 (λ l. pure (some l)) p.1)
          (list_loop-sent (length (wire ++ reply)) lines [] reply
            (sent (greeting_line ∷ codes "#list" ∷ [])) all
            (omega (
              arith,
              length-sent (lines ++ (exit_line ∷ [])),
              length-append lines (exit_line ∷ []),
              length-append wire reply,
            ))),
      (rw
          (
            write_lines-sent lines request (greeting_line ++ (b'\n' ∷ [])),
            sent-append lines (exit_line ∷ []),
          )
          refl),
    )
