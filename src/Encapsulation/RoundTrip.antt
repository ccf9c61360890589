-- ===== src/Encapsulation/RoundTrip.antt =====
-- What WritePadding and WriteData write, ReadData reads back.
use ptbridge.Base.{
  ℕ, ◌+◌, ◌^◌, ◌≤◌, ◌<◌, ◌≡◌, refl, ap, none, List, [], ◌++◌, append-nil, append_assoc, arith,
  length, ok, pos, IoError, Sink,
}
use ptbridge.Encapsulation.{read_data, Report, write_data, write_padding}
use ptbridge.Encapsulation.Format.{Padding, padded, data_chunk, ArePaddings}
use ptbridge.Encapsulation.Prefix.{shortest, shortest-capacity}
use ptbridge.Encapsulation.Read.{read_data-data_chunk}
use ptbridge.Encapsulation.Write.{encoded_size, write_data_fits}
use ptbridge.Encapsulation.WritePadding.{padded-append, padding_report, write_padding_fits}

-- On an empty writer with room, WritePadding of `n` writes `n` bytes without an error, and they are padding chunks;
-- WriteData of a chunk `p` below 2 ^ 20 bytes behind them does not fail either; and from all that was written and
-- whatever follows ReadData returns `p` and leaves what follows.
pub read_data-write_data :
    (stop : IoError) (room n : ℕ) (p rest : List ℕ)
    → length p < 2 ^ 20
    → n + encoded_size (length p) ≤ room
    → (r : Report) × (ps : List Padding) × (write_padding
          (record { written = []; room = room })
          (pos n)
        ≡ ok r)
      × (r.failure ≡ none)
      × ArePaddings ps
      × (r.sink.written ≡ padded ps [])
      × (length r.sink.written ≡ n)
      × ((write_data r.sink p).failure ≡ none)
      × (read_data stop ((write_data r.sink p).sink.written ++ rest) ≡ ok (p, rest))
read_data-write_data stop room n p rest small fits =
    finish (write_padding_fits (record { written = []; room = room }) n (omega arith))
  where
    start : Sink
    start = record { written = []; room = room }

    finish :
        (ps : List Padding) × ArePaddings ps
          × (length (padded ps []) ≡ n)
          × (write_padding start (pos n) ≡ ok (padding_report n 0 start ps))
        → (r : Report) × (ps : List Padding) × (write_padding start (pos n) ≡ ok r)
          × (r.failure ≡ none)
          × ArePaddings ps
          × (r.sink.written ≡ padded ps [])
          × (length r.sink.written ≡ n)
          × ((write_data r.sink p).failure ≡ none)
          × (read_data stop ((write_data r.sink p).sink.written ++ rest) ≡ ok (p, rest))
    finish (ps, pads, size, wrote) =
        let r = padding_report n 0 start ps in
        let done = write_data_fits r.sink p small (omega arith) in
        let stream : (padded ps [] ++ data_chunk (shortest (length p)) p []) ++ rest
            ≡ padded ps (data_chunk (shortest (length p)) p rest) =
          simp (padded-append, append_assoc, append-nil) in
        (
          r,
          ps,
          wrote,
          refl,
          pads,
          refl,
          size,
          ap (λ (w : Report). w.failure) done,
          rw (done, stream)
              (read_data-data_chunk stop ps (shortest (length p)) p rest pads
                (shortest-capacity (length p) small)),
        )
