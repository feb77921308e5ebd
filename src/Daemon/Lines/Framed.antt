-- ===== src/Daemon/Lines/Framed.antt =====
-- Lines that are written and read.
use grsync.Base.{
  ℕ, ◌+◌, ◌≤◌, ◌≡◌, refl, sym, ap, ◌∙◌, arith, false, inl, inr, Bool-cases, [], ◌∷◌, ◌++◌, Bytes,
  Result, length, length-append, append_assoc, append-nil, leb, ◌==◌, contains_byte, ends_with, ok,
}
use grsync.Conn.{Conn, Io, ◌>>=◌, resume, wrap_result, wrap_err}
use mathlib.Core.List.{reverse, reverse-cons, reverse-reverse}
use grsync.Daemon.Lines.{
  max_line_length, LineError, read_loop, drop_returns, trim_returns, read_line,
}

-- A line with its end.
abbrev pub line_of : Bytes → Bytes
line_of s = s ++ (b'\n' ∷ [])

-- A text that is read back as it was written.
pub record IsLine (s : Bytes) : Type 0 where
  pub one_line : contains_byte s b'\n' ≡ false
  pub no_return : ends_with s b'\r' ≡ false
  pub short : length s ≤ max_line_length

read_loop-append :
    (s buf rest : Bytes)
    → contains_byte s b'\n' ≡ false
    → length buf + length s ≤ max_line_length
    → read_loop (s ++ (b'\n' ∷ rest)) buf ≡ (ok (buf ++ s), rest)
unfolding read_loop contains_byte
read_loop-append [] buf rest lacks h = rw (append-nil buf) refl
read_loop-append (b ∷ s) buf rest lacks h = elim (Bool-cases (b == b'\n')) [
  | inl break ↦ absurd (cc (rw (break, contains_byte) at lacks))
  | inr more ↦
      let room : leb max_line_length (length buf) ≡ false = ground arith in
      let longer = length-append buf (b ∷ []) in
      rw (more, room, read_loop)
        (read_loop-append s (buf ++ (b ∷ [])) rest (rw (more, contains_byte) at lacks) (omega arith)
          ∙ ap (λ (t : Bytes). (ok t, rest)) (append_assoc buf (b ∷ []) s))
]

ends_with-snoc : (s : Bytes) (c b : ℕ) → ends_with (s ++ (c ∷ [])) b ≡ (c == b)
unfolding ends_with
ends_with-snoc [] c b = refl
ends_with-snoc (d ∷ []) c b = refl
ends_with-snoc (d ∷ e ∷ s) c b = ends_with-snoc (e ∷ s) c b

drop_returns-noop : (r : Bytes) → ends_with (reverse r) b'\r' ≡ false → drop_returns r ≡ r
unfolding drop_returns
drop_returns-noop [] h = refl
drop_returns-noop (c ∷ r) h =
    let last = ends_with-snoc (reverse r) c b'\r' in
    rw (sym last ∙ (rw (reverse-cons c r) at h)) refl

trim_returns-noop : (s : Bytes) → ends_with s b'\r' ≡ false → trim_returns s ≡ s
unfolding trim_returns
trim_returns-noop s h =
    ap reverse (drop_returns-noop (reverse s) (rw (reverse-reverse s) h)) ∙ reverse-reverse s

-- A line that is written is read back, and what follows it is left: a line of at most 8192 bytes
-- without line break that does not end in a carriage return.
pub read_line-write_line :
    (s rest out : Bytes)
    → IsLine s
    → read_line (record { input = s ++ (b'\n' ∷ rest); output = out })
      ≡ (ok s, record { input = rest; output = out })
unfolding read_line
read_line-write_line s rest out h =
    rw
      (
        read_loop-append s [] rest h.one_line (omega (arith, h.short)),
        trim_returns-noop s h.no_return,
      )
      refl

-- What follows a line that is read.
pub read_line_next :
    {E B : Type 0} (g : LineError → E) (f : Bytes → Io E B) (s rest out : Bytes)
    → IsLine s
    → (wrap_err g read_line >>= f) (record { input = s ++ (b'\n' ∷ rest); output = out })
      ≡ f s (record { input = rest; output = out })
read_line_next g f s rest out h =
    ap (λ (p : Result LineError Bytes × Conn). resume (wrap_result g p.0) f p.1)
      (read_line-write_line s rest out h)
