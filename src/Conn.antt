-- ===== src/Conn.antt =====
-- A connection as a program sees it: the bytes that are still to be read, and those that it has
-- written. An action may fail, and keeps what was read and written before it failed. A reader is at
-- its end when `input` is empty; a writer does not fail.
use grsync.Base.{ℕ, ◌≡◌, refl, arith, [], ◌++◌, Bytes, length, take, drop, ltb, if◌then◌else◌}
use grsync.Base.{Result, ok, err, panic, length-append, take-append_exact, drop-append_exact}

pub record Conn : Type 0 where
  pub input : Bytes
  pub output : Bytes

abbrev pub Io : Type 0 → Type 0 → Type 0
Io E A = Conn → Result E A × Conn

abbrev pub pure : {E A : Type 0} → A → Io E A
pure a c = (ok a, c)

abbrev pub throw : {E A : Type 0} → E → Io E A
throw e c = (err e, c)

abbrev pub crash : {E A : Type 0} → Io E A
crash c = (panic, c)

-- What follows an action that ended with the given result.
abbrev pub resume : {E A B : Type 0} → Result E A → (A → Io E B) → Io E B
resume (ok a) f c = f a c
resume (err e) f c = (err e, c)
resume panic f c = (panic, c)

infixl 5 ◌>>=◌ ◌>>◌
abbrev pub ◌>>=◌ : {E A B : Type 0} → Io E A → (A → Io E B) → Io E B
◌>>=◌ m f c = let (r, c') = m c in resume r f c'

abbrev pub ◌>>◌ : {E B : Type 0} → Io E (Unit {0}) → Io E B → Io E B
m >> k = m >>= λ _. k

unfoldable pub write : {E : Type 0} → Bytes → Io E (Unit {0})
write bytes c = (ok tt, record c { output = c.output ++ bytes })

-- Go's `io.ReadFull` into a buffer of `n` bytes: fewer than `n` bytes are read and are an error.
unfoldable pub read_full : {E : Type 0} → ℕ → E → Io E Bytes
read_full n eof c =
    if ltb (length c.input) n
    then (err eof, record c { input = [] })
    else (ok (take n c.input), record c { input = drop n c.input })

-- A read of exactly what stands at the front.
pub read_full-append :
    {E : Type 0} (front rest out : Bytes) (eof : E)
    → read_full (length front) eof (record { input = front ++ rest; output = out })
      ≡ (ok front, record { input = rest; output = out })
unfolding read_full
read_full-append front rest out eof =
    ground
      (arith, length-append front rest, take-append_exact front rest, drop-append_exact front rest)

-- `fmt.Errorf("...: %w", err)`: the error of a part, under the name of the whole.
abbrev pub wrap_result : {E F A : Type 0} → (E → F) → Result E A → Result F A
wrap_result g (ok a) = ok a
wrap_result g (err e) = err (g e)
wrap_result g panic = panic

abbrev pub wrap_err : {E F A : Type 0} → (E → F) → Io E A → Io F A
wrap_err g m c = let (r, c') = m c in (wrap_result g r, c')

-- Inversion of a sequence that succeeds.
pub next-ok :
    {E A B : Type 0} (m : Io E A) (f : A → Io E B) (c c' : Conn) (b : B)
    → (m >>= f) c ≡ (ok b, c')
    → (a : A) × ((m c).0 ≡ ok a) × (f a (m c).1 ≡ (ok b, c'))
next-ok {E} {A} {B} m f c c' b h = resume-ok (m c).0 (m c).1 h
  where
    resume-ok :
        (r : Result E A) (c1 : Conn)
        → resume r f c1 ≡ (ok b, c')
        → (a : A) × (r ≡ ok a) × (f a c1 ≡ (ok b, c'))
    resume-ok (ok a) c1 h = (a, refl, h)
    resume-ok (err e) c1 h = absurd (cc h)
    resume-ok panic c1 h = absurd (cc h)

pub wrap_result-ok :
    {E F A : Type 0} (g : E → F) (r : Result E A) (a : A) → wrap_result g r ≡ ok a → r ≡ ok a
wrap_result-ok g (ok b) a h = cc
wrap_result-ok g (err e) a h = absurd (cc h)
wrap_result-ok g panic a h = absurd (cc h)

pub resume_congr :
    {E A B : Type 0} (r : Result E A) (f g : A → Io E B) (c : Conn)
    → ((a : A) → f a c ≡ g a c)
    → resume r f c ≡ resume r g c
resume_congr (ok a) f g c same = same a
resume_congr (err e) f g c same = refl
resume_congr panic f g c same = refl
