-- ===== src/Daemon/Session/Guarded.antt =====
-- Modules that are read-only.
use grsync.Base.{◌≡◌, refl, Bool, true, inl, inr, Bool-cases, List, [], ◌∷◌, Bytes, same_bytes}
use grsync.Conn.{Conn, Io, wrap_result, resume_congr}
use grsync.Daemon.Lines.{read_line}
use grsync.Daemon.Config.{Module, fields}
use grsync.Filter.{Rule}
use grsync.Daemon.Session.{
  direction_get, direction_put, reading, serve_get, serve_direction, serve_module,
}

module _ {T : Type 0} (sender : List Rule → Io T (Unit {0}))
    (receiver other : Bool → Io T (Unit {0})) where
  serve_direction_guarded :
      (m : Module) (line : Bytes) (options : List Bytes) (c : Conn)
      → m.read_only ≡ true
      → serve_direction sender receiver m line options c
        ≡ serve_direction sender other m line options c
  unfolding serve_direction serve_get
  serve_direction_guarded m line [] c h = refl
  serve_direction_guarded m line (direction ∷ options) c h =
      elim (Bool-cases (same_bytes direction direction_put)) [
        | inl put ↦ rw (h, put) refl
        | inr get ↦ elim (Bool-cases (same_bytes direction direction_get)) [
          | inl e ↦ rw (h, get, e) refl
          | inr e ↦ rw (h, get, e) refl
        ]
      ]

  -- A request for a module that is read-only never reaches the receiver: whatever the client sends,
  -- the result, what is read and what is written are the same for any two receivers.
  pub serve_module_read_only :
      (m : Module) (c : Conn)
      → m.read_only ≡ true
      → serve_module sender receiver m c ≡ serve_module sender other m c
  unfolding serve_module
  serve_module_read_only m c h =
      resume_congr (wrap_result reading (read_line c).0)
        (λ (line : Bytes). serve_direction sender receiver m line (fields line))
        (λ (line : Bytes). serve_direction sender other m line (fields line)) (read_line c).1
        (λ line. serve_direction_guarded m line (fields line) (read_line c).1 h)
