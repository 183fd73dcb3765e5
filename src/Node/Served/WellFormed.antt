-- ===== src/Node/Served/WellFormed.antt =====
-- The invariant of the node in memory: its tables, and the time stamps of its outbox.
use ratnet.Prelude.{
  ℕ, suc, ◌<◌, refl, sym, subst, List, [], ◌∷◌, All, All-append, bytes_eq, IsKeyed, insert-IsKeyed,
  delete-IsKeyed, arith,
}
use ratnet.Api.{OutboxMsg}
use ratnet.Outbox.{append}
use ratnet.Outbox.Since.{IsRising}
use ratnet.Outbox.Rising.{append-IsRising}
use ratnet.Node.{Crypto, World, Node}
use ratnet.Node.Admin.{channel_of}
use ratnet.Node.Keeps.{MailClosed}
use ratnet.Node.Served.Keeps.{TablesClosed}

-- A clock that goes on between two looks at it.
abbrev pub Ticking : World → Type 0
Ticking world = (t : ℕ) → world.now t < world.now (suc t)

abbrev pub Past : World → ℕ → OutboxMsg → Type 0
Past world t m = m.time_stamp < world.now t

-- The names in the tables are the keys, each once.
abbrev pub TablesFormed : {Pub Priv : Type 0} → Node Pub Priv → Type 0
TablesFormed n =
    IsKeyed (λ c. c.name) n.contacts
    × IsKeyed (λ c. c.name) n.channels
    × IsKeyed (λ p. p.name) n.profiles
    × IsKeyed (λ p. p.name) n.peers

-- The outbox holds messages of the past, and their time stamps rise.
abbrev pub MailFormed : {Pub Priv : Type 0} → World → Node Pub Priv → Type 0
MailFormed world n = IsRising n.outbox × All (Past world n.ticks) n.outbox

abbrev pub WellFormed : {Pub Priv : Type 0} → World → Node Pub Priv → Type 0
WellFormed world n = TablesFormed n × MailFormed world n

module _ (world : World) (ticking : Ticking world) where
  Past-later : (t : ℕ) (ms : List OutboxMsg) → All (Past world t) ms → All (Past world (suc t)) ms
  Past-later t [] a = tt
  Past-later t (m ∷ ms) (am, a) = (omega (arith, ticking t), Past-later t ms a)

  pub WellFormed-MailClosed :
      {Pub Priv : Type 0} → MailClosed {Pub = Pub} {Priv = Priv} world (WellFormed world)
  unfolding append
  WellFormed-MailClosed = record {
    store_closed = λ n store w. w;
    tick_closed = λ n (tables, (rises, past)). (tables, (rises, Past-later n.ticks n.outbox past));
    queue_closed = λ n mail e (tables, (rises, past)). (
      tables,
      (
        append-IsRising n.outbox mail rises
            (subst (λ t. All (λ m. m.time_stamp < t) n.outbox) (sym e) past),
        All-append (Past world (suc n.ticks)) n.outbox (mail ∷ [])
            (Past-later n.ticks n.outbox past) (omega (arith, e, ticking n.ticks), tt),
      ),
    );
  }

  pub WellFormed-TablesClosed :
      {Pub Priv : Type 0} (crypto : Crypto Pub Priv) → TablesClosed crypto (WellFormed world)
  unfolding channel_of
  WellFormed-TablesClosed crypto = record {
    contact_in = λ n name key ((cs, hs, ps, qs), mail).
        ((insert-IsKeyed (λ c. c.name) name _ n.contacts refl cs, hs, ps, qs), mail);
    contact_out = λ n name ((cs, hs, ps, qs), mail).
        ((delete-IsKeyed (λ c. c.name) name n.contacts cs, hs, ps, qs), mail);
    channel_in = λ n name pk ((cs, hs, ps, qs), mail).
        let ch = channel_of crypto name pk in
        ((cs, insert-IsKeyed (λ c. c.name) name ch n.channels refl hs, ps, qs), mail);
    channel_out = λ n name ((cs, hs, ps, qs), mail).
        ((cs, delete-IsKeyed (λ c. c.name) name n.channels hs, ps, qs), mail);
    profile_in = λ n p ((cs, hs, ps, qs), (rises, past)). (
      (cs, hs, insert-IsKeyed (λ p. p.name) p.name p n.profiles refl ps, qs),
      (rises, Past-later n.ticks n.outbox past),
    );
    profile_out = λ n name ((cs, hs, ps, qs), mail).
        ((cs, hs, delete-IsKeyed (λ p. p.name) name n.profiles ps, qs), mail);
    peer_in = λ n p ((cs, hs, ps, qs), mail).
        ((cs, hs, ps, insert-IsKeyed (λ p. p.name) p.name p n.peers refl qs), mail);
    peer_out = λ n name ((cs, hs, ps, qs), mail).
        ((cs, hs, ps, delete-IsKeyed (λ p. p.name) name n.peers qs), mail);
    key_loaded = λ n pk w. w;
  }
