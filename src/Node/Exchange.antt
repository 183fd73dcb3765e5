-- ===== src/Node/Exchange.antt =====
-- One poll: what a node's `Pickup` gives is what another node's `Dropoff` routes.
use ratnet.Prelude.{
  ℕ, suc, ◌≤◌, ◌≡◌, ap, ◌∙◌, true, false, some, List, ◌∷◌, length, ltb, le→ltb, Bytes,
}
use ratnet.Go.{returned}
use ratnet.Wire.Read.{ok}
use ratnet.Wire.Parse.Structs.{Fits}
use ratnet.Wire.Value.{Bundle, KeyCodec, KeyCodecLaws}
use ratnet.Wire.Calls.{bytes_bytes_to_bytes, bytes_bytes_from_bytes}
use ratnet.Wire.Calls.ReadsBack.{bytes_bytes_reads_back}
use ratnet.Outbox.{msgs_since}
use ratnet.Router.Recent.{RecentBuffer}
use ratnet.Router.Route.{Settings}
use ratnet.Node.{Opened, Crypto, World, Node}
use ratnet.Node.Receiving.{route_all, route_read, dropoff_opened, dropoff, bundle_of, pack, pickup}

module _ {Pub Priv Ecc Rsa : Type 0} (crypto : Crypto Pub Priv) (world : World)
    (codec : KeyCodec Ecc Rsa) where
  -- A bundle that opens to the print of messages.
  dropoff_lem :
      (r : Settings) (bundle : Bundle) (ms : List Bytes) (recent : RecentBuffer) (b : Node Pub Priv)
      → 1 ≤ length bundle.payload
      → crypto.decrypt b.routing_key bundle.payload
        ≡ record { tag_ok = true; clear = some (bytes_bytes_to_bytes codec ms) }
      → bytes_bytes_from_bytes codec (bytes_bytes_to_bytes codec ms) ≡ ok ms
      → dropoff crypto world codec r bundle (recent, b) ≡ route_all crypto world r ms (recent, b)
  unfolding dropoff
  dropoff_lem r bundle ms recent b h dec back =
      let some_bytes : ltb (length bundle.payload) 1 ≡ false = le→ltb _ _ h in
      rw some_bytes (
        ap (λ (o : Opened). dropoff_opened crypto world codec r o.tag_ok o.clear (recent, b)) dec
        ∙ ap (λ o. route_read crypto world r o (recent, b)) back)

  -- Where the outbox of `a` has messages `m ∷ ms` to give, and what it encrypts for the peer is not
  -- empty and opens at `b` to the same bytes: `Pickup` at `a` returns that cipher text and the time up
  -- to which it gave, and `Dropoff` of it at `b` routes just those messages, in that order. The key
  -- library reads its own prints, and the print of the messages fits in memory.
  pub pickup-dropoff :
      (r : Settings) (rpub : Pub) (last max_bytes t : ℕ) (names : List Bytes) (a b : Node Pub Priv)
      → (recent : RecentBuffer) (m : Bytes) (ms : List Bytes) (cipher : Bytes) → KeyCodecLaws codec
      → msgs_since a.outbox last max_bytes names ≡ returned (m ∷ ms, t)
      → Fits (bytes_bytes_to_bytes codec (m ∷ ms))
      → crypto.encrypt a.ticks a.routing_key (bytes_bytes_to_bytes codec (m ∷ ms)) (some rpub)
        ≡ some cipher
      → 1 ≤ length cipher
      → crypto.decrypt b.routing_key cipher
        ≡ record { tag_ok = true; clear = some (bytes_bytes_to_bytes codec (m ∷ ms)) }
      → ((pickup crypto world codec rpub last max_bytes names a).0
          ≡ returned (record { payload = cipher; time = t }))
        × (dropoff crypto world codec r (record { payload = cipher; time = t }) (recent, b)
            ≡ route_all crypto world r (m ∷ ms) (recent, b))
  unfolding pickup
  pickup-dropoff r rpub last max_bytes t names a b recent m ms cipher laws given fits enc some_bytes
        dec =
      let asked : Node Pub Priv = record a { ticks = suc a.ticks } in
      (
        ap (λ o. (pack crypto world codec rpub o a).0) given
            ∙ ap (λ o. (bundle_of crypto world codec t o asked).0) enc,
        dropoff_lem r (record { payload = cipher; time = t }) (m ∷ ms) recent b some_bytes dec
            (bytes_bytes_reads_back codec laws (m ∷ ms) fits),
      )
