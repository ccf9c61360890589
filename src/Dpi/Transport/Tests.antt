-- ===== src/Dpi/Transport/Tests.antt =====
-- The transport at concrete inputs.
use ptbridge.Base.{◌-◌, ◌^◌, [], ◌++◌, text}
use ptbridge.Dpi.Toy.{nonce}
use ptbridge.Dpi.Transport.{HttpResponse, Transport}

abbrev transport : Transport
transport = record {
  base_url = text "https://h";
  scheme = text "https";
  host = text "h";
  conn_id_gen = 2 ^ 32 - 1;
  random = nonce ++ nonce;
  sent = [];
}

abbrev moved : HttpResponse
moved = record { status = 302; location = text "/x"; body = [] }

abbrev granted : HttpResponse
granted = record { status = 200; location = []; body = text "{\"status\":\"ok\"}" }
