-- ===== src/Wire/Value.antt =====
-- The values that cross the wire: what `interface{}` holds in api/remoting.go, and the structs of
-- api/node.go that it serializes. `Ecc` and `Rsa` are the key types of the bencrypt library.
use ratnet.Prelude.{ℕ, ◌≡◌, Bool, Option, some, List, Bytes}

pub record Contact : Type 0 where
  pub name : Bytes
  pub pubkey : Bytes

pub record Channel : Type 0 where
  pub name : Bytes
  pub pubkey : Bytes

pub record Profile : Type 0 where
  pub name : Bytes
  pub enabled : Bool
  pub pubkey : Bytes

pub record Peer : Type 0 where
  pub name : Bytes
  pub enabled : Bool
  pub uri : Bytes
  pub group : Bytes

-- `time` is the bit pattern of an int64.
pub record Bundle : Type 0 where
  pub payload : Bytes
  pub time : ℕ

-- A `bc.PubKey`: one of the two key types that `serialize` tells apart.
pub data PubKey (Ecc Rsa : Type 0) : Type 0 where
  ecc : Ecc → PubKey Ecc Rsa
  rsa : Rsa → PubKey Ecc Rsa

-- An int64 is its bit pattern. `unlisted` stands for every type that `serialize` has no case for.
mutual
  pub data Value (Ecc Rsa : Type 0) : Type 0 where
    nil : Value Ecc Rsa
    int64 : ℕ → Value Ecc Rsa
    uint64 : ℕ → Value Ecc Rsa
    string : Bytes → Value Ecc Rsa
    bytes : Bytes → Value Ecc Rsa
    bytes_bytes : List Bytes → Value Ecc Rsa
    array : Values Ecc Rsa → Value Ecc Rsa
    pub_key : PubKey Ecc Rsa → Value Ecc Rsa
    contact : Contact → Value Ecc Rsa
    contacts : List Contact → Value Ecc Rsa
    channel : Channel → Value Ecc Rsa
    channels : List Channel → Value Ecc Rsa
    profile : Profile → Value Ecc Rsa
    profiles : List Profile → Value Ecc Rsa
    peer : Peer → Value Ecc Rsa
    peers : List Peer → Value Ecc Rsa
    bundle : Bundle → Value Ecc Rsa
    unlisted : Value Ecc Rsa

  pub data Values (Ecc Rsa : Type 0) : Type 0 where
    end : Values Ecc Rsa
    item : Value Ecc Rsa → Values Ecc Rsa → Values Ecc Rsa

-- What the serializer uses of the bencrypt library; `from_bytes` answers `none` for an error.
pub record KeyCodec (Ecc Rsa : Type 0) : Type 0 where
  pub ecc_to_bytes : Ecc → Bytes
  pub ecc_from_bytes : Bytes → Option Ecc
  pub rsa_to_bytes : Rsa → Bytes
  pub rsa_from_bytes : Bytes → Option Rsa

-- A key is read back from its own bytes.
pub record KeyCodecLaws {Ecc Rsa : Type 0} (codec : KeyCodec Ecc Rsa) : Type 0 where
  pub ecc_reads_back : (k : Ecc) → codec.ecc_from_bytes (codec.ecc_to_bytes k) ≡ some k
  pub rsa_reads_back : (k : Rsa) → codec.rsa_from_bytes (codec.rsa_to_bytes k) ≡ some k
