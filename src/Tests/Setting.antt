-- ===== src/Tests/Setting.antt =====
-- A small world: one consumer with a passkey, one escrow claim, a prepared withdrawal, and a vault
-- with some rand and dollars. The functions of the environment are stand-ins that compute.
use tende.Base.{
  pos, ℕ, Text, [], codes, ltb, none, some, text_eq, true, ◌*◌, ◌-◌, ◌/◌, ◌^◌, ◌∷◌, leb, length,
}
use tende.Schema.{
  Number, double, CredentialRow, KycLevelRow, ConsumerRow, PendingClaim, ClaimStatus,
  PendingWithdrawal,
}
use tende.Vault.{Pool, Vault}
use tende.World.{World, Net, Chain, Store, Memory}
use tende.Env.{Env, Config, Numbers, absent, answered}
use tende.Currency.{usdc, zar}

abbrev pub alice : Text
alice = codes "0xaa"

abbrev pub escrow : Text
escrow = codes "0xee"

abbrev pub treasury : Text
treasury = codes "0xffffffffffffffffffffffffffffffffffffffff"

abbrev pub usdc_token : Text
usdc_token = codes "0x01"

abbrev pub config : Config
config = record {
  vault = codes "0x02";
  consumer = codes "0x03";
  escrow_address = escrow;
  treasury_address = treasury;
  treasury_token_za = codes "0x04";
  treasury_token_zw = codes "0x05";
  fx_api_key = [];
  fx_cache_ttl_ms = 1000;
  rp_id = codes "id";
  origins = codes "app" ∷ [];
  public_api_base = codes "api/";
}

abbrev bits : Number → ℕ
bits (double n) = n

-- Whole numbers stand for the doubles here.
abbrev numbers : Numbers
numbers = record {
  literal = double;
  mul = λ a b. double (bits a * bits b);
  div = λ a b. double (bits a / bits b);
  sub = λ a b. double (bits a - bits b);
  lt = λ a b. ltb (bits a) (bits b);
  le = λ x y. leb (bits x) (bits y);
  is_finite = λ _. true;
  of_units = λ n d. double (n / 10 ^ d);
  round = λ a. some (bits a);
  floor = λ a. some (bits a);
  parse = λ s. double 100;
  to_fixed = λ a d. codes "100";
  math_round = λ a. a;
  math_ceil = λ a. a;
  is_integer = λ a. true;
}

abbrev pub env : Env
env = record {
  config = config;
  numbers = numbers;
  parse_units = λ s d. some (pos 100);
  encode_intent = λ from to gross fee net bps name. some name;
  get_address = some;
  numeric_2 = some;
  numeric_8 = λ n. codes "15000.00000000";
  iso_day = λ t. [];
  random_hex = λ t n. [];
  locale_lt = λ a b. ltb (length a) (length b);
  format_units = λ n d. codes "1";
  fulfil = λ t url sale. answered (record {
    http_ok = true;
    status_code = codes "200";
    body = [];
    success = some true;
    status = none;
  });
  hash = λ s. s;
  fetch_zimrate = λ t from to. absent;
  fetch_majors = λ t from to. absent;
  parse_client_data =
      λ s. some (record { kind = codes "webauthn.get"; challenge = s; origin = codes "app" });
  parse_authenticator_data =
      λ s. record { rp_id_hash = codes "id"; flags = 1; sign_count = some 7 };
  verify_signature = λ x y d s. some (text_eq s (codes "good"));
  recover = λ message s. some s;
}

abbrev pub level : KycLevelRow
level = record {
  level_id = 1;
  level_name = codes "basic";
  max_single_tx = some 500;
  max_daily_send = some 1000;
  max_monthly_spend = some 5000;
}

abbrev consumer : ConsumerRow
consumer = record {
  consumer_id = codes "a";
  wallet_address = some alice;
  kyc_level_id = 1;
  country_code = codes "ZA";
}

abbrev credential : CredentialRow
credential = record {
  credential_id = codes "k";
  wallet_address = alice;
  pub_key_x = 3;
  pub_key_y = 4;
  sign_count = 6;
}

abbrev claim : PendingClaim
claim = record {
  id = 1;
  secret_hash = codes "s";
  sender_wallet = alice;
  recipient_phone = codes "27";
  amount = 40;
  currency = zar;
  status = ClaimStatus.pending;
  escrow_tx = [];
  release_tx = none;
  claimed_by = none;
  expires_at = 2000;
}

abbrev pub prepared : PendingWithdrawal
prepared = record {
  withdrawal_id = 9;
  consumer_id = codes "a";
  from_wallet = alice;
  to_address = codes "0xbb";
  gross_units = 100;
  fee_units = 2;
  net_units = 98;
  fee_bps = 150;
  challenge = codes "c";
  amount_limit_units = 18;
  beneficiary = record {
    full_name = codes "Bo";
    id_number = none;
    phone = none;
    country = none;
    relationship = none;
  };
  expiry = 1500;
}

abbrev pub rand_pool : Pool
rand_pool = record {
  shares = (alice, 60) ∷ (escrow, 40) ∷ [];
  total_shares = 100;
  total_assets = 101;
}

abbrev pub dollar_pool : Pool
dollar_pool = record { shares = (alice, 200) ∷ []; total_shares = 200; total_assets = 200 }

abbrev pub vault : Vault
vault = record {
  pools = (zar, rand_pool) ∷ (usdc, dollar_pool) ∷ [];
  token_currency = (usdc_token, usdc) ∷ [];
  holdings = (usdc_token, 150) ∷ [];
}

abbrev chain : Chain
chain = record {
  vault = vault;
  primary_tokens = (usdc, usdc_token) ∷ [];
  usdc_token = usdc_token;
  trusted = [];
  registered = [];
  sent = 0;
}

abbrev store : Store
store = record {
  consumers = consumer ∷ [];
  merchants = [];
  kyc_levels = level ∷ [];
  credentials = credential ∷ [];
  countries = [];
  stablecoins = [];
  app_config = (codes "revenue.withdrawal_fee_bps", codes "200") ∷ [];
  fx_overrides = [];
  spend_events = [];
  withdrawals = [];
  deposit_references = [];
  claims = claim ∷ [];
  sales = [];
  change_vouchers = [];
  stores = [];
  members = [];
  products = [];
  accepted_currencies = [];
  settlement_requests = [];
  settlement_configs = [];
  offramps = [];
  conversions = [];
  next_id = 10;
}

abbrev memory : Memory
memory = record {
  revenue = none;
  rates = [];
  challenges = (codes "c", 1500) ∷ [];
  nonces = (alice, (codes "m", 1500)) ∷ [];
  pending = prepared ∷ [];
  tasks = [];
}

abbrev pub net : Net
net = record { outcomes = []; now = 1000; elapses = 5 ∷ [] }

abbrev pub world : World
world = record { chain = chain; store = store; memory = memory; net = net }
