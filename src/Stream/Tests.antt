-- ===== src/Stream/Tests.antt =====
-- The stream header of a concrete target.
use ptbridge.Base.{
  ℕ, ◌^◌, ◌%◌, ◌≡◌, sym, ap, List, [], ◌∷◌, ◌++◌, length, Option, some, none, ok, eof, text, arith,
}
use ptbridge.Socks5
use ptbridge.Socks5.{Net, Ip, v4, v6, Conn}
use ptbridge.Socks5.Accepts.{from}
use ptbridge.Stream.{stream_client_dial, write_target, read_target}
use ptbridge.Stream.Target.{IsNet, canonical_host, to, read_target-write_target}

-- Every text is parsed as one address, whose text is "1".
abbrev net : Net
net = record { ip_string = λ b. 49 ∷ []; parse_ip = λ h. some (v4 (1 ∷ 0 ∷ 0 ∷ 1 ∷ [])) }

ip_of : Option Ip → List ℕ
ip_of none = []
ip_of (some (v4 b)) = b
ip_of (some (v6 b)) = b

IsNet-net : IsNet net
unfolding ip_of
IsNet-net = record {
  size4 = λ h b e. ap length (sym (ap ip_of e));
  size16 = λ h b e. absurd (some-v4≢v6 e);
  canonical = λ h a e. e;
}
  where
    some-v4≢v6 : {b c : List ℕ} → some (v4 b) ≡ some (v6 c) → ⊥
    some-v4≢v6 e = cc

abbrev target : Socks5.Target
target = record { network = text "tcp"; host = 49 ∷ []; port = 65537 }

read_target-write_target_example :
    (c : Conn) × (write_target net stream_client_dial target
        (to eof [] (record { written = []; room = 20 }))
      ≡ ok c)
    × (read_target net (from eof c.out (c.out.written ++ (5 ∷ [])))
        ≡ ok (
          stream_client_dial,
          record {
            network = text "tcp";
            host = canonical_host net (49 ∷ []);
            port = 65537 % 2 ^ 16;
          },
          from eof c.out (5 ∷ []),
        ))
read_target-write_target_example =
    read_target-write_target net eof 20 stream_client_dial target (5 ∷ []) IsNet-net
      (λ e. omega arith) (omega arith) (omega arith)
