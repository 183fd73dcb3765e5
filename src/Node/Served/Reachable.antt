-- ===== src/Node/Served/Reachable.antt =====
-- The states that a node in memory comes to, by calls from the network and from its own program.
use ratnet.Prelude.{ℕ, Bool, ◌≡◌, List, ◌++◌, Bytes}
use ratnet.Go.{returned}
use ratnet.Api.{Msg, OutboxMsg}
use ratnet.Outbox.{flush, msgs_since}
use ratnet.Outbox.Since.{eligible, messages, msgs_since_resumes}
use ratnet.Outbox.Rising.{flush-IsRising}
use ratnet.Streams.{assemble}
use ratnet.Wire.Value.{PubKey, KeyCodec}
use ratnet.Wire.Calls.{RemoteCall}
use ratnet.Router.Route.{Settings}
use ratnet.Rpc.{public_rpc}
use ratnet.Rpc.Admin.{admin_rpc}
use ratnet.Node.{Crypto, World}
use ratnet.Node.Sending.{send_msg, forward}
use ratnet.Node.Receiving.{handle, on_store}
use ratnet.Node.Keeps.{MailClosed, send_msg-Keeps, forward-Keeps}
use ratnet.Node.Keeps.Receiving.{handle-Keeps, on_store-Keeps}
use ratnet.Node.Served.{State, on_node, served}
use ratnet.Node.Served.Keeps.{public_rpc-Keeps, admin_rpc-Keeps}
use ratnet.Node.Served.WellFormed.{
  Ticking, Past, WellFormed, WellFormed-MailClosed, WellFormed-TablesClosed,
}

module _ {Priv Ecc Rsa : Type 0} (crypto : Crypto (PubKey Ecc Rsa) Priv) (world : World)
    (codec : KeyCodec Ecc Rsa) (is_nil : PubKey Ecc Rsa → Bool) (generate : ℕ → Priv)
    (r : Settings) where
  abbrev St : Type 0
  St = State crypto world codec is_nil generate r

  abbrev flushed : ℕ → St → St
  flushed c (recent, n) = (recent, record n { outbox = flush c n.outbox })

  -- What happens to a node: a call from a transport, in admin mode or not; a message that its own
  -- program sends; a message that a policy or router lets it handle or forward; a flush of the
  -- outbox; and the debouncer's function.
  pub data Step : St → St → Type 0 where
    public_call :
        (byte_limit : ℕ) (call : RemoteCall Ecc Rsa) (s : St)
        → Step s (public_rpc (served crypto world codec is_nil generate r) byte_limit call s).1
    admin_call :
        (byte_limit : ℕ) (call : RemoteCall Ecc Rsa) (s : St)
        → Step s (admin_rpc (served crypto world codec is_nil generate r) byte_limit call s).1
    sends : (m : Msg (PubKey Ecc Rsa)) (s : St) → Step s (on_node (send_msg crypto world m) s).1
    handles : (m : Msg (PubKey Ecc Rsa)) (s : St) → Step s (on_node (handle crypto m) s).1
    forwards : (m : Msg (PubKey Ecc Rsa)) (s : St) → Step s (on_node (forward crypto world m) s).1
    flushes : (c : ℕ) (s : St) → Step s (flushed c s)
    assembles :
        (started : Bool) (s : St) → Step s (on_node (on_store crypto (assemble started)) s).1

  pub data Reach (s : St) : St → Type 0 where
    here : Reach s s
    next : {t u : St} → Reach s t → Step t u → Reach s u

  module _ (ticking : Ticking world) where
    mail : MailClosed {Pub = PubKey Ecc Rsa} {Priv = Priv} world (WellFormed world)
    mail = WellFormed-MailClosed world ticking

    Step-WellFormed : {s t : St} → Step s t → WellFormed world s.1 → WellFormed world t.1
    unfolding on_node
    Step-WellFormed (public_call byte_limit call s) w =
        public_rpc-Keeps crypto world codec is_nil generate r (WellFormed world) mail byte_limit
          call s w
    Step-WellFormed (admin_call byte_limit call s) w =
        admin_rpc-Keeps crypto world codec is_nil generate r (WellFormed world) mail
          (WellFormed-TablesClosed world ticking crypto) byte_limit call s w
    Step-WellFormed (sends m s) w = send_msg-Keeps crypto world (WellFormed world) mail m s.1 w
    Step-WellFormed (handles m s) w = handle-Keeps crypto world (WellFormed world) mail m s.1 w
    Step-WellFormed (forwards m s) w = forward-Keeps crypto world (WellFormed world) mail m s.1 w
    Step-WellFormed (flushes c (recent, n)) (tables, (rises, past)) =
        (tables, flush-IsRising (Past world n.ticks) c n.outbox rises past)
    Step-WellFormed (assembles started s) w =
        on_store-Keeps crypto world (WellFormed world) mail (assemble started) s.1 w

    pub Reach-WellFormed : {s t : St} → WellFormed world s.1 → Reach s t → WellFormed world t.1
    Reach-WellFormed w here = w
    Reach-WellFormed w (next past step) = Step-WellFormed step (Reach-WellFormed w past)

    -- In every state that a node whose clock goes on can come to from a well-formed one: what
    -- MsgsSince returns is the first of the messages after the given time on the channels asked for,
    -- and what it leaves out is what a call with the returned time finds.
    pub Reach-resumes :
        {s t : St} (last max_bytes time : ℕ) (names msgs : List Bytes)
        → WellFormed world s.1
        → Reach s t
        → msgs_since t.1.outbox last max_bytes names ≡ returned (msgs, time)
        → (sent : List OutboxMsg) × (msgs ≡ messages sent)
          × (eligible last names t.1.outbox ≡ sent ++ eligible time names t.1.outbox)
    Reach-resumes {s} {t} last max_bytes time names msgs w past e =
        let formed = Reach-WellFormed w past in
        msgs_since_resumes t.1.outbox last max_bytes time names msgs formed.1.0 e
