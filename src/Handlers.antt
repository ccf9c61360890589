-- ===== src/Handlers.antt =====
-- The goroutines that serve one accepted connection: obfs/server and obfs/client, main/snowflake.go, and
-- snowflake/common/standalone. A handler is what it does, in order, given what the calls that it makes return.
-- `client` is the accepted connection and `remote` the one that the handler opens. Of the two goroutines of a copy
-- loop, `first` is the connection into which the one copies that ends first; a loop in which neither ends is not represented.
-- CopyLoop returns at the first end: `late` says whether its other goroutine ends at all, which the handlers do not
-- wait for, so that its events are put last.
pub mod Closed
mod Tests
use ptbridge.Base.{
  ℕ, Bool, true, false, Option, none, some, List, [], ◌∷◌, ◌++◌, if◌then◌else◌, failed,
}

pub data Peer : Type 0 where
  client remote : Peer

-- `ends q` is the end of io.Copy into `q`, and `dials obfuscated` a dial of the outgoing connection, through the
-- obfuscating proxy or without it.
pub data Event : Type 0 where
  accepts opens closes : Peer → Event
  replies : ℕ → Event
  dials : Bool → Event
  ends : Peer → Event
  panics : Event

abbrev pub other : Peer → Peer
other client = remote
other remote = client

-- A goroutine of copyLoop, with its deferred closes, of which the last is the first to run.
abbrev pub copied : Peer → List Event
copied q = ends q ∷ closes (other q) ∷ closes q ∷ []

-- copyLoop of obfs/client and obfs/server, which waits for both goroutines; the first to end closes both connections, which
-- ends the other's io.Copy.
unfoldable pub copy_loop : Peer → List Event
copy_loop first = copied first ++ copied (other first)

-- CopyLoop of standalone up to its return, which the end of one goroutine is enough for
unfoldable pub copy_until : Peer → List Event
copy_until first = ends first ∷ closes first ∷ []

-- its other goroutine
unfoldable pub copy_rest : (first : Peer) (late : Bool) → List Event
copy_rest first true = copy_until (other first)
copy_rest first false = []

-- Reply codes of obfs4's socks5 package.
abbrev pub reply_succeeded : ℕ
reply_succeeded = 0

abbrev pub reply_general_failure : ℕ
reply_general_failure = 1

-- obfs/server serverHandler; the deferred closes are at the end.
unfoldable pub server_handler : (first : Peer) (wrapped dialed : Bool) → List Event
server_handler first false dialed = accepts client ∷ closes client ∷ []
server_handler first true false = accepts client ∷ dials false ∷ closes client ∷ []
server_handler first true true =
    accepts client
    ∷ dials false
    ∷ opens remote
    ∷ (copy_loop first ++ (closes remote ∷ closes client ∷ []))

-- The calls of obfs/client clientHandler: the handshake, FromURL and SOCKS5 of package proxy, ParseArgs, the dial,
-- whose error gives a reply code, and the last reply. `url` says whether middleDialerUrl is given: FromURL reads
-- a nil URL, which is a panic, and the deferred close runs. A nil dialer dials without the proxy it should go through.
pub record ClientCalls : Type 0 where
  pub handshake : Bool
  pub url : Bool
  pub from_url : Bool
  pub socks5 : Bool
  pub parse_args : Bool
  pub dial : Bool → Option ℕ
  pub reply : Bool
  pub first : Peer

-- The end of clientHandler, from the remote connection on.
abbrev pub client_relay : Peer → Bool → List Event
client_relay first replied =
    opens remote
    ∷ replies reply_succeeded
    ∷ (if replied
        then copy_loop first ++ (closes remote ∷ closes client ∷ [])
        else closes remote ∷ closes client ∷ [])

abbrev pub client_dialed : Peer → Bool → Option ℕ → List Event
client_dialed first replied none = client_relay first replied
client_dialed first replied (some code) = replies code ∷ closes client ∷ []

-- The dial through the middle dialer. After an error of FromURL or SOCKS5 the handler replies and goes on: with no
-- proxy to go through, or with no dialer at all, whose use is a panic.
abbrev pub internal_by : (from_url socks5 : Bool) → ClientCalls → List Event
internal_by true true c = dials true ∷ client_dialed c.first c.reply (c.dial true)
internal_by true false c = replies reply_general_failure ∷ panics ∷ closes client ∷ []
internal_by false true c =
    replies reply_general_failure ∷ dials false ∷ client_dialed c.first c.reply (c.dial false)
internal_by false false c =
    replies reply_general_failure ∷ replies reply_general_failure ∷ panics ∷ closes client ∷ []

abbrev pub factory_by : (parse_args : Bool) → ClientCalls → List Event
factory_by true c = dials true ∷ client_dialed c.first c.reply (c.dial true)
factory_by false c = replies reply_general_failure ∷ closes client ∷ []

-- clientHandler after the handshake, by isInternal.
abbrev pub handler_by : Bool → ClientCalls → List Event
handler_by true c = if c.url then internal_by c.from_url c.socks5 c else panics ∷ closes client ∷ []
handler_by false c = factory_by c.parse_args c

unfoldable pub client_handler : Bool → ClientCalls → List Event
client_handler is_internal c =
    accepts client ∷ (if c.handshake then handler_by is_internal c else closes client ∷ [])

-- main/snowflake.go: the goroutine of serveSnowflakeSOCKS
unfoldable pub snowflake_exit :
    (first : Peer) (late : Bool) (handshake dialed replied : Bool) → List Event
snowflake_exit first late false dialed replied = accepts client ∷ closes client ∷ []
snowflake_exit first late true false replied =
    accepts client ∷ dials false ∷ replies reply_general_failure ∷ closes client ∷ []
snowflake_exit first late true true false =
    accepts client
    ∷ dials false
    ∷ opens remote
    ∷ replies reply_succeeded
    ∷ closes remote
    ∷ closes client
    ∷ []
snowflake_exit first late true true true =
    accepts client
    ∷ dials false
    ∷ opens remote
    ∷ replies reply_succeeded
    ∷ (copy_until first ++ (closes remote ∷ copy_rest first late))

-- OpenClientDial and OpenForward: a stream that is opened, and closed if its header cannot be written.
unfoldable pub open_stream : (opened written : Bool) → List Event × Bool
open_stream false written = ([], false)
open_stream true false = (opens remote ∷ closes remote ∷ [], false)
open_stream true true = (opens remote ∷ [], true)

-- handleLocalSocks
unfoldable pub handle_local_socks :
    (first : Peer) (late : Bool) (handshake opened written replied : Bool) → List Event
handle_local_socks first late handshake opened written replied =
    let (stream, is_open) = open_stream opened written in
    let relay =
      replies reply_succeeded
      ∷ (if replied
          then copy_until first ++ copy_rest first late
          else closes remote ∷ closes client ∷ []) in
    let failed : List Event = replies reply_general_failure ∷ closes client ∷ [] in
    accepts client
    ∷ (if handshake then stream ++ (if is_open then relay else failed) else closes client ∷ [])

-- CopyLoop between two connections whose closes are deferred
abbrev pub relay_by : (first : Peer) (late : Bool) → List Event
relay_by first late = copy_until first ++ (closes remote ∷ closes client ∷ copy_rest first late)

-- handleForward
unfoldable pub handle_forward : (first : Peer) (late : Bool) (opened written : Bool) → List Event
handle_forward first late opened written =
    let (stream, is_open) = open_stream opened written in
    accepts client ∷ (stream ++ (if is_open then relay_by first late else closes client ∷ []))

-- What a stream of the peer asks for, and what handleInboundStream does with it; the stream is the accepted connection.
pub data StreamRequest : Type 0 where
  bad_target client_dial server_dial forward unknown : StreamRequest

abbrev pub dial_remote : (first : Peer) (late : Bool) → Bool → List Event
dial_remote first late true = dials false ∷ opens remote ∷ relay_by first late
dial_remote first late false = dials false ∷ closes client ∷ []

-- handleInboundStream, where `forwards` says whether ServerForwardSocks is set.
unfoldable pub handle_inbound_stream :
    (first : Peer) (late : Bool) (forwards dialed : Bool) → StreamRequest → List Event
handle_inbound_stream first late forwards dialed bad_target = accepts client ∷ closes client ∷ []
handle_inbound_stream first late forwards dialed client_dial =
    accepts client ∷ dial_remote first late dialed
handle_inbound_stream first late forwards dialed server_dial = accepts client ∷ closes client ∷ []
handle_inbound_stream first late forwards dialed forward =
    accepts client ∷ (if forwards then dial_remote first late dialed else closes client ∷ [])
handle_inbound_stream first late forwards dialed unknown = accepts client ∷ closes client ∷ []
