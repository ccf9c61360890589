-- ===== src/Base/Reader.antt =====
-- Reading from an io.Reader. The reader is the bytes that it still delivers and the error `stop`
-- that it gives after them: `io.EOF`, or that of a broken connection.
use Prim.Native.Nat.{ℕ}
use mathlib.Core.Path.{◌≡◌}
use mathlib.Core.List.{List, [], ◌∷◌, ◌++◌}
use native.Mathlib.Omega.{arith}
use ptbridge.Base.Tests.{leb, if◌then◌else◌}
use ptbridge.Base.Lists.{length, take, drop, length-append, take-append, drop-append}
use ptbridge.Base.Results.{Result, ok, err}

-- The errors of package io; `failed` is any error of the connection itself, by a number.
pub data IoError : Type 0 where
  eof unexpected_eof closed_pipe : IoError
  failed : ℕ → IoError

-- `if err == io.EOF { err = io.ErrUnexpectedEOF }`
abbrev pub unexpected : IoError → IoError
unexpected eof = unexpected_eof
unexpected unexpected_eof = unexpected_eof
unexpected closed_pipe = closed_pipe
unexpected (failed n) = failed n

-- r.Read(b[:]) into one byte
unfoldable pub read_byte : IoError → List ℕ → Result IoError (ℕ × List ℕ)
read_byte stop [] = err stop
read_byte stop (b ∷ rest) = ok (b, rest)

-- io.ReadFull of a buffer of n bytes: a read that began and met `io.EOF` is unexpected.
unfoldable pub read_full : IoError → ℕ → List ℕ → Result IoError (List ℕ × List ℕ)
read_full stop n src =
    if leb n (length src)
    then ok (take n src, drop n src)
    else if leb (length src) 0
    then err stop
    else err (unexpected stop)

-- io.CopyN(io.Discard, r, n)
unfoldable pub discard : IoError → ℕ → List ℕ → Result IoError (Unit {0} × List ℕ)
discard stop n src = if leb n (length src) then ok (tt, drop n src) else err stop

pub read_full-append :
    (stop : IoError) (p rest : List ℕ) → read_full stop (length p) (p ++ rest) ≡ ok (p, rest)
unfolding read_full
read_full-append stop p rest =
    ground (arith, length-append p rest, take-append p rest, drop-append p rest)

pub discard-append :
    (stop : IoError) (p rest : List ℕ) → discard stop (length p) (p ++ rest) ≡ ok (tt, rest)
unfolding discard
discard-append stop p rest = ground (arith, length-append p rest, drop-append p rest)
