-- ===== src/Router/Route/Header.antt =====
-- What stands in front of a message in transit: printed by `SendMsg` and `Forward`, read by `Route`.
use ratnet.Prelude.{
  ℕ, ◌+◌, ◌-◌, ◌*◌, ◌/◌, ◌%◌, ◌<◌, ◌≡◌, refl, ◌∙◌, Bool, true, false, ◌&&◌, [], ◌∷◌, ◌++◌, length,
  length-append, take-append, drop-append, leb, if◌then◌else◌, Bytes, none, arith, suc,
}
use ratnet.Go.{returned}
use ratnet.Api.{Msg, flags_of, name_prefix, rx_sum}
use ratnet.Router.Route.{flag_set, msg_of, parse_channel, parse}

-- The flags come apart again.
flag_set-flags_of :
    (x y z : Bool)
    → (flag_set (flags_of x y z) 4 ≡ x)
      × (flag_set (flags_of x y z) 2 ≡ y)
      × (flag_set (flags_of x y z) 1 ≡ z)
unfolding flag_set flags_of
flag_set-flags_of false false false = (refl, refl, refl)
flag_set-flags_of false false true = (refl, refl, refl)
flag_set-flags_of false true false = (refl, refl, refl)
flag_set-flags_of false true true = (refl, refl, refl)
flag_set-flags_of true false false = (refl, refl, refl)
flag_set-flags_of true false true = (refl, refl, refl)
flag_set-flags_of true true false = (refl, refl, refl)
flag_set-flags_of true true true = (refl, refl, refl)

-- What `Route` reads of a message.
abbrev pub read_msg : {Pub : Type 0} → Msg Pub → Bytes → Msg Pub
read_msg m content = record {
  name = if m.is_chan then m.name else [];
  content = content;
  is_chan = m.is_chan;
  pub_key = none;
  chunked = m.chunked;
  stream_header = m.stream_header;
}

parse_channel_lem :
    {Pub : Type 0} (flags : ℕ) (name content : Bytes)
    → length name < 65533
    → parse_channel {Pub = Pub} flags
        ((length name % 65536 / 256) ∷ (length name % 256) ∷ (name ++ content))
      ≡ returned (record { msg = msg_of flags true name content; idx = 3 + length name })
unfolding parse_channel
parse_channel_lem flags name content h =
    let n = length name in
    let whole : 256 * (n % 65536 / 256) + n % 256 ≡ n = omega (arith, h) in
    let end : (3 + n) % 65536 ≡ 3 + n = omega (arith, h) in
    let from : 3 + n - 3 ≡ n = omega arith in
    let fits : (leb 3 (3 + n) && leb (3 + n) (3 + length (name ++ content))) ≡ true =
      ground (arith, length-append name content) in
    rw (whole, end, fits, from, take-append name content, drop-append name content)

parse_chan :
    {Pub : Type 0} (flags : ℕ) (rest : Bytes)
    → flag_set flags 4 ≡ true
    → parse {Pub = Pub} (flags ∷ rest) ≡ parse_channel flags rest
unfolding parse
parse_chan flags rest h = rw h

parse_fields :
    {Pub : Type 0} (x y z : Bool) (name content : Bytes)
    → (x ≡ true → length name < 65533)
    → parse {Pub = Pub} (flags_of x y z ∷ (name_prefix x name ++ content))
      ≡ returned (record {
        msg = record {
          name = if x then name else [];
          content = content;
          is_chan = x;
          pub_key = none;
          chunked = y;
          stream_header = z;
        };
        idx = suc (length (name_prefix x name));
      })
unfolding parse name_prefix msg_of
parse_fields {Pub} true y z name content h =
    let (chan, part, head) = flag_set-flags_of true y z in
    let e : 3 + length name ≡ suc (suc (suc (length name))) = omega arith in
    let rest = name_prefix true name ++ content in
    let read = parse_channel_lem {Pub = Pub} (flags_of true y z) name content (h refl) in
    parse_chan (flags_of true y z) rest chan ∙ read ∙ rw (part, head, e)
parse_fields false y z name content h =
    let (chan, part, head) = flag_set-flags_of false y z in rw (chan, part, head)

-- The header of every message is read back, with the content behind it and where it begins. A
-- channel's name is shorter than 65533 bytes.
pub parse-rx_sum :
    {Pub : Type 0} (m : Msg Pub) (content : Bytes)
    → (m.is_chan ≡ true → length m.name < 65533)
    → parse {Pub = Pub} (rx_sum m ++ content)
      ≡ returned (record { msg = read_msg m content; idx = length (rx_sum m) })
unfolding rx_sum
parse-rx_sum m content h = parse_fields m.is_chan m.chunked m.stream_header m.name content h
