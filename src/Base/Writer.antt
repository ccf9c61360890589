-- ===== src/Base/Writer.antt =====
-- Writing to an io.Writer. The writer is the bytes that it took and the number that it still takes:
-- a Write past that takes what fits and fails.
use Prim.Native.Nat.{ℕ, ◌+◌, ◌-◌, ◌≤◌}
use mathlib.Core.Path.{◌≡◌}
use mathlib.Core.List.{List, ◌++◌}
use mathlib.Core.Bool.{Bool, true, false}
use native.Mathlib.Omega.{arith}
use ptbridge.Base.Tests.{leb, if◌then◌else◌}
use ptbridge.Base.Lists.{length, take, length-append, length-take}

pub record Sink : Type 0 where
  pub written : List ℕ
  pub room : ℕ

-- What Write returns: the number of bytes taken, and whether it failed.
pub record Wrote : Type 0 where
  pub count : ℕ
  pub failed : Bool
  pub sink : Sink

unfoldable pub write : List ℕ → Sink → Wrote
write p s =
    if leb (length p) s.room
    then record {
      count = length p;
      failed = false;
      sink = record { written = s.written ++ p; room = s.room - length p };
    }
    else record {
      count = s.room;
      failed = true;
      sink = record { written = s.written ++ take s.room p; room = 0 };
    }

-- The count is what the writer took, and a Write that does not fail takes all.
pub write_count :
    (p : List ℕ) (s : Sink)
    → (length (write p s).sink.written ≡ length s.written + (write p s).count)
      × ((write p s).sink.room + (write p s).count ≡ s.room)
unfolding write
write_count p s = ground (
  arith,
  length-append s.written p,
  length-append s.written (take s.room p),
  length-take s.room p,
)

pub write_fits :
    (p : List ℕ) (s : Sink)
    → length p ≤ s.room
    → write p s ≡ record {
      count = length p;
      failed = false;
      sink = record { written = s.written ++ p; room = s.room - length p };
    }
unfolding write
write_fits p s h = ground arith
