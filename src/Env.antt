-- ===== src/Env.antt =====
-- What the services take from elsewhere: the configuration that is read once at startup, and the
-- libraries and remote services whose code is not in the repository. `Numbers` is the arithmetic of
-- IEEE 754 doubles, with the conversions of a number from and to base units.
use tende.Base.{ℕ, Bool, List, Option, Text, [], false, true, ℤ, ◌∷◌}
use tende.Schema.{Number, SaleRow}

-- An empty text stands for a setting that is not made (server/src/config.ts).
pub record Config : Type 0 where
  pub vault : Text
  pub consumer : Text
  pub escrow_address : Text
  pub treasury_address : Text
  pub treasury_token_za : Text
  pub treasury_token_zw : Text
  pub fx_api_key : Text
  pub fx_cache_ttl_ms : ℕ
  pub rp_id : Text
  pub origins : List Text
  pub public_api_base : Text

pub record Numbers : Type 0 where
  pub literal : ℕ → Number
  pub mul : Number → Number → Number
  pub div : Number → Number → Number
  pub sub : Number → Number → Number
  pub lt : Number → Number → Bool
  pub le : Number → Number → Bool
  pub is_finite : Number → Bool
  -- `Number(ethers.formatUnits(units, decimals))`
  pub of_units : ℕ → ℕ → Number
  -- `BigInt(Math.round(x))` and its kin for an `x` that is not negative; none where `x` is not
  -- finite, so that `BigInt` throws
  pub round : Number → Option ℕ
  pub floor : Number → Option ℕ
  -- `Number(text)`, `x.toFixed(d)`, `Math.round`, `Math.ceil`, `Number.isInteger`
  pub parse : Text → Number
  pub to_fixed : Number → ℕ → Text
  pub math_round : Number → Number
  pub math_ceil : Number → Number
  pub is_integer : Number → Bool

-- The answer of a rate provider: a rate, an answer without one, or a failed request.
pub data Fetched : Type 0 where
  found : Number → Fetched
  absent failed : Fetched

-- The parts of a passkey assertion that the checks read; none where the text does not parse.
pub record ClientData : Type 0 where
  pub kind : Text
  pub challenge : Text
  pub origin : Text

pub record AuthenticatorData : Type 0 where
  pub rp_id_hash : Text
  pub flags : ℕ
  -- none where the data is too short to hold it
  pub sign_count : Option ℕ

-- The parts of a fulfilment service's answer that are read: whether the HTTP status says success, the
-- status and the body as texts, and the fields `success` and `status` where the body is JSON.
pub record FulfilmentReply : Type 0 where
  pub http_ok : Bool
  pub status_code : Text
  pub body : Text
  pub success : Option Bool
  pub status : Option Text

-- A request that fails or takes too long has a message.
pub data FulfilmentAnswer : Type 0 where
  answered : FulfilmentReply → FulfilmentAnswer
  unreachable : Text → FulfilmentAnswer

pub record Env : Type 0 where
  pub config : Config
  pub numbers : Numbers
  -- `ethers.parseUnits`, which throws on what is no decimal of that many places
  pub parse_units : Text → ℕ → Option ℤ
  -- the ABI encoding of a withdrawal's wallets, gross, fee and net units, basis points and name; none
  -- where a wallet is no address
  pub encode_intent : Text → Text → ℕ → ℕ → ℕ → ℕ → Text → Option Text
  -- `ethers.getAddress`, which throws on a wrong checksum
  pub get_address : Text → Option Text
  -- what a NUMERIC column with two places gives back for a text; none where it is no number
  pub numeric_2 : Text → Option Text
  -- what a NUMERIC column with eight places gives back for a whole number
  pub numeric_8 : ℕ → Text
  -- the UTC day of a time, as YYYYMMDD, and `randomBytes`, in hexadecimal, at a time
  pub iso_day : ℕ → Text
  pub random_hex : ℕ → ℕ → Text
  -- whether `a.localeCompare(b)` is negative
  pub locale_lt : Text → Text → Bool
  -- `ethers.formatUnits`
  pub format_units : ℕ → ℕ → Text
  -- the answer of a product's fulfilment service, at a time and an address, to a sale
  pub fulfil : ℕ → Text → SaleRow → FulfilmentAnswer
  -- keccak-256 or SHA-256, in hexadecimal
  pub hash : Text → Text
  -- the provider for Zimbabwean pairs, and the one for the others, at a time
  pub fetch_zimrate : ℕ → Text → Text → Fetched
  pub fetch_majors : ℕ → Text → Text → Fetched
  pub parse_client_data : Text → Option ClientData
  pub parse_authenticator_data : Text → AuthenticatorData
  -- a signature of given data under a point of P-256; none where the key or the signature is malformed
  pub verify_signature : ℕ → ℕ → Text → Text → Option Bool
  -- the signer that a signature of a message recovers to; none where it is malformed
  pub recover : Text → Text → Option Text

abbrev pub is_empty : Text → Bool
is_empty [] = true
is_empty (c ∷ s) = false
