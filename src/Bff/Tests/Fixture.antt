-- ===== src/Bff/Tests/Fixture.antt =====
-- A server and a backend to run: a cipher that hides nothing, a fixed clock, and tokens whose payload
-- is read as an expiry time.
use Prim.Native.Char.{Char, code}
use fernbank.Base.{
  ℕ, zero, suc, ◌≡◌, refl, ap, true, false, List, [], ◌∷◌, String, Option, none, some, eqb,
  if◌then◌else◌, ◌==◌,
}
use fernbank.Base.Int.{pos}
use fernbank.Bff.Configuration.{Config}
use fernbank.Bff.Crypto.{Crypto, Byte, ParsedPayload}
use fernbank.Bff.Crypto.RoundTrip.{CryptoLaws}
use fernbank.Bff.Session.Cookies.{CookieLaws}
use fernbank.Bff.Http.{
  HttpRequest, HttpReply, HeaderValue, SessionPayload, JwtClaims, CacheEntry, throws, plain,
  Request,
}
use fernbank.Bff.World.{Env, Shared, World}

abbrev bytes : String → List Byte
bytes String.[] = []
bytes (String.◌∷◌ c s) = c ∷ bytes s

abbrev text : List Byte → String
text [] = String.[]
text (c ∷ cs) = String.◌∷◌ c (text cs)

bytes-text : (cs : List Byte) → bytes (text cs) ≡ cs
bytes-text [] = refl
bytes-text (c ∷ cs) = ap (λ t. c ∷ t) (bytes-text cs)

text-bytes : (s : String) → text (bytes s) ≡ s
text-bytes String.[] = refl
text-bytes (String.◌∷◌ c s) = ap (String.◌∷◌ c) (text-bytes s)

-- Each character of the id behind a mark, then another mark, then the token.
abbrev dot : Char
dot = "."

abbrev mark : Char
mark = "x"

abbrev write_payload : String → String → List Byte
write_payload String.[] token = dot ∷ bytes token
write_payload (String.◌∷◌ c s) token = mark ∷ c ∷ write_payload s token

abbrev onto_id : Char → Option (String × String) → Option (String × String)
onto_id c none = none
onto_id c (some (id, token)) = some (String.◌∷◌ c id, token)

abbrev read_payload : List Byte → Option (String × String)
read_payload [] = none
read_payload (m ∷ []) = if eqb (code m) b'.' then some (String.[], String.[]) else none
read_payload (m ∷ c ∷ cs) =
    let more = onto_id c (read_payload cs) in
    if eqb (code m) b'.' then some (String.[], text (c ∷ cs)) else more

read-write_payload : (id token : String) → read_payload (write_payload id token) ≡ some (id, token)
read-write_payload String.[] String.[] = refl
read-write_payload String.[] (String.◌∷◌ c s) =
    ap (λ t. some (String.[], String.◌∷◌ c t)) (text-bytes s)
read-write_payload (String.◌∷◌ c id) token = ap (onto_id c) (read-write_payload id token)

abbrev as_parsed : Option (String × String) → Option ParsedPayload
as_parsed none = none
as_parsed (some (id, token)) = some (record { session_id = some id; refresh_token = some token })

abbrev zeros : ℕ → List Byte
zeros n = elim n [ zero ↦ [] | suc (n → rest) ↦ dot ∷ rest ]

abbrev pub open_crypto : Crypto
open_crypto = record {
  encode_base64url = text;
  decode_base64url = bytes;
  decode_base64 = bytes;
  seal = λ key iv plaintext. (plaintext, zeros 16);
  open_sealed = λ key iv auth_tag ciphertext. some ciphertext;
  stringify = λ p. write_payload p.session_id p.refresh_token;
  parse = λ cs. as_parsed (read_payload cs);
}

pub open_crypto-CryptoLaws : CryptoLaws open_crypto
open_crypto-CryptoLaws = record {
  base64url_back = bytes-text;
  tag_length = λ key iv plaintext. refl;
  opens = λ key iv plaintext. refl;
  json_back = λ p. ap as_parsed (read-write_payload p.session_id p.refresh_token);
}

abbrev pub iv : List Byte
iv = zeros 12

abbrev config : Config
config = record {
  port = pos 4000;
  backend_internal_base_url = "http://backend";
  cors_allowed_origins = [];
  session_encryption_key = "";
  session_cookie_domain = none;
  access_token_refresh_skew_ms = pos 30000;
  notification_poll_interval_ms = pos 5000;
  internal_service_key = none;
}

-- A token's payload is "late" or anything else.
abbrev claims : String → Option JwtClaims
claims segment =
    if segment == "late"
    then some (record { exp = some (pos 1000) })
    else some (record { exp = some (pos 10) })

-- The server over a backend.
abbrev pub server : (Shared → HttpRequest → Option HttpReply × Shared) → Env
server exchange = record {
  config = config;
  is_production = true;
  exchange = exchange;
  await_promise = λ s p. (throws (plain "not awaited"), s);
  uuid = λ n. if eqb n 0 then "id-0" else "id-n";
  random_bytes = λ k n. "random";
  read_claims = claims;
  crypto = open_crypto;
  key = [];
  random_iv = λ n. iv;
  parse_problem = λ body. none;
  axios_problem = λ body. none;
  parse_token_pair = λ body. record { access_token = body; refresh_token = "refresh-2" };
}

pub server-CookieLaws :
    (exchange : Shared → HttpRequest → Option HttpReply × Shared) → CookieLaws (server exchange)
server-CookieLaws exchange = record { crypto = open_crypto-CryptoLaws; iv = λ n. refl }

abbrev pub reply : ℕ → String → Option HttpReply
reply status body = some (record { status = status; headers = []; body = body })

-- A backend that refreshes every token and answers every other request with a status.
abbrev pub answers : ℕ → Shared → HttpRequest → Option HttpReply × Shared
answers status s r = (
  if r.url == "http://backend/api/v1/auth/refresh" then reply 200 "h.late.s" else reply status "",
  s,
)

abbrev pub entry : CacheEntry
entry = record { access_token = "h.soon.s"; refresh_token = "refresh-1"; expires_at = pos 10000 }

-- A session whose access token is about to expire.
abbrev pub shared_state : Shared
shared_state = record {
  cache = ("id-1", entry) ∷ [];
  refresh_locks = [];
  next_promise = 0;
  attempt_count = 0;
  drawn = 0;
  now = pos 5000;
}

abbrev pub world : World
world = record {
  shared = shared_state;
  response = record {
    status = 200;
    headers = [];
    cookie_writes = [];
    headers_sent = false;
    body = none;
  };
  sent = [];
}

abbrev pub session : SessionPayload
session = record { session_id = "id-1"; refresh_token = "refresh-0" }

abbrev pub browser_request : Request
browser_request = record {
  method = "POST";
  path = "/api/v1/transfers";
  headers = ("x-csrf-token", HeaderValue.one "t") ∷ [];
  cookies = ("fernbank_bff_csrf", "t") ∷ [];
  query = [];
  body = some (("amount", "1.00") ∷ []);
  ip = some "10.0.0.1";
  fernbank_session = some session;
}
