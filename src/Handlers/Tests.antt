-- ===== src/Handlers/Tests.antt =====
-- The handlers at concrete outcomes of their calls.
use ptbridge.Base.{true, false, none}
use ptbridge.Handlers.{remote, ClientCalls}

abbrev calls : ClientCalls
calls = record {
  handshake = true;
  url = true;
  from_url = false;
  socks5 = true;
  parse_args = true;
  dial = λ b. none;
  reply = true;
  first = remote;
}
