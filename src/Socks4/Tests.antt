-- ===== src/Socks4/Tests.antt =====
-- A dial at a concrete address.
use ptbridge.Base.{
  ◌≡◌, ◌==◌, ◌||◌, true, refl, [], ◌∷◌, ◌++◌, some, ok, err, if◌then◌else◌, eof, Sink, text, ◌=ˢ◌,
  arith,
}
use ptbridge.Socks5.{v4}
use ptbridge.Socks5.Wire.{sent}
use ptbridge.Socks5.Accepts.{from}
use ptbridge.Socks4.{Names, rejected, granted, reply_version, dial}
use ptbridge.Socks4.Dial.{connect4, dial_lem}

-- Every address is 1.2.3.4 with the port 80.
abbrev names : Names
names = record {
  split_host_port = λ s. some (text "1.2.3.4", text "80");
  parse_ip = λ s. some (v4 (1 ∷ 2 ∷ 3 ∷ 4 ∷ []));
  parse_port = λ s. some 80;
}

abbrev out : Sink
out = record { written = []; room = 50 }

tcp_dials : (text "tcp" =ˢ text "tcp" || text "tcp" =ˢ text "tcp4") ≡ true
unfolding ◌=ˢ◌
tcp_dials = refl

dial_lem_example :
    dial names
      (text "u")
      (some (from eof out (reply_version ∷ 0x5a ∷ ((1 ∷ 2 ∷ 3 ∷ 4 ∷ 5 ∷ 6 ∷ []) ++ (9 ∷ [])))))
      (text "tcp")
      (text "1.2.3.4:80")
    ≡ (if 0x5a == granted
        then ok (from eof (sent (connect4 0 80 (1 ∷ 2 ∷ 3 ∷ 4 ∷ []) (text "u")) out) (9 ∷ []))
        else err (rejected 0x5a))
dial_lem_example =
    dial_lem names (text "u") (text "tcp") (text "1.2.3.4:80") (text "1.2.3.4") (text "80")
      (1 ∷ 2 ∷ 3 ∷ 4 ∷ []) 0 80 0x5a (1 ∷ 2 ∷ 3 ∷ 4 ∷ 5 ∷ 6 ∷ []) (9 ∷ []) eof out tcp_dials refl
      refl refl (omega arith) (omega arith) (omega arith) refl
