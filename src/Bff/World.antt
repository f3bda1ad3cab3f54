-- ===== src/Bff/World.antt =====
-- What every handler of the server runs on. The services are singletons in one process, so their
-- state is one record, `Shared`. A handler gives up control at each `await`: it hands `Shared` to
-- the environment, an arbitrary function, and takes back what that made of it, so a theorem for
-- every environment holds whatever other requests, timers and the backend do in the meantime.
-- The environment also stands for what Node.js and the packages provide.
pub mod Rules
use fernbank.Base.{ℕ, suc, List, ◌∷◌, String, Option, Bool}
use fernbank.Base.Dict.{Dict}
use fernbank.Base.Int.{ℤ}
use fernbank.Bff.Configuration.{Config}
use fernbank.Bff.Crypto.{Crypto, Byte}
use fernbank.Bff.Http.{
  HttpRequest, HttpReply, Response, CacheEntry, TokenPair, JwtClaims, ProblemDetailBody, Result, ok,
  throws, Exception,
}

-- `cache` and `refresh_locks` are AccessTokenCacheService's; a promise is a number. `drawn` counts
-- the random values drawn so far, and `now` is what `Date.now()` reads.
pub record Shared : Type 0 where
  pub cache : Dict CacheEntry
  pub refresh_locks : Dict ℕ
  pub next_promise : ℕ
  pub attempt_count : ℕ
  pub drawn : ℕ
  pub now : ℤ

pub record Env : Type 0 where
  pub config : Config
  pub is_production : Bool
  -- A request over the network and its reply, or none if there was no reply.
  pub exchange : Shared → HttpRequest → Option HttpReply × Shared
  -- Waiting for a promise that another request made.
  pub await_promise : Shared → ℕ → Result CacheEntry × Shared
  -- The n-th random value, as `randomUUID()` and as `randomBytes(k)` in base64url.
  pub uuid : ℕ → String
  pub random_bytes : ℕ → ℕ → String
  -- The base64url and JSON decoding of a token's payload, none where that throws.
  pub read_claims : String → Option JwtClaims
  -- The session cookie's cipher, its key, and the n-th `randomBytes(12)`.
  pub crypto : Crypto
  pub key : List Byte
  pub random_iv : ℕ → List Byte
  -- `JSON.parse` of an error body, none where it throws or gives null; and axios's own reading.
  pub parse_problem : String → Option ProblemDetailBody
  pub axios_problem : String → Option ProblemDetailBody
  -- axios's reading of the reply to a refresh.
  pub parse_token_pair : String → TokenPair

-- `sent` lists the requests that the handler has made, newest first.
pub record World : Type 0 where
  pub shared : Shared
  pub response : Response
  pub sent : List HttpRequest

abbrev pub M : Type 0 → Type 0
M A = World → Result A × World

abbrev pub bind_result : {A B : Type 0} → (A → M B) → Result A × World → Result B × World
bind_result f (ok a, w) = f a w
bind_result f (throws e, w) = (throws e, w)

infixl 5 ◌>>=◌ ◌>>◌
abbrev pub ◌>>=◌ : {A B : Type 0} → M A → (A → M B) → M B
◌>>=◌ m f w = bind_result f (m w)

abbrev pub ◌>>◌ : {B : Type 0} → M (Unit {0}) → M B → M B
m >> k = m >>= λ _. k

abbrev pub pure : {A : Type 0} → A → M A
pure a w = (ok a, w)

abbrev pub throw : {A : Type 0} → Exception → M A
throw e w = (throws e, w)

abbrev pub catch_result : {A : Type 0} → (Exception → M A) → Result A × World → Result A × World
catch_result f (ok a, w) = (ok a, w)
catch_result f (throws e, w) = f e w

-- `try { m } catch (e) { f(e) }`.
abbrev pub catch : {A : Type 0} → M A → (Exception → M A) → M A
catch m f w = catch_result f (m w)

abbrev pub shared : M Shared
shared w = (ok w.shared, w)

abbrev pub modify : (Shared → Shared) → M (Unit {0})
modify f w = (ok tt, record w { shared = f w.shared })

abbrev pub respond : (Response → Response) → M (Unit {0})
respond f w = (ok tt, record w { response = f w.response })

-- A fresh random value.
abbrev pub draw : {A : Type 0} → (ℕ → A) → M A
draw f w =
    (ok (f w.shared.drawn), record w { shared = record w.shared { drawn = suc w.shared.drawn } })

-- `await http.request(…)`.
abbrev pub exchanged :
    World → HttpRequest → Option HttpReply × Shared → Result (Option HttpReply) × World
exchanged w r (reply, s) = (ok reply, record w { shared = s; sent = r ∷ w.sent })

unfoldable pub request : Env → HttpRequest → M (Option HttpReply)
request env r w = exchanged w r (env.exchange w.shared r)

abbrev pub awaited : World → Result CacheEntry × Shared → Result CacheEntry × World
awaited w (outcome, s) = (outcome, record w { shared = s })

-- `await promise`, for a promise of another request.
unfoldable pub await_other : Env → ℕ → M CacheEntry
await_other env p w = awaited w (env.await_promise w.shared p)
