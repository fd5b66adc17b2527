-- ===== src/Research/Fetcher.antt =====
-- packages/research/src/fetcher.ts: reading a page. `new URL`, `isIP`, the resolver, the transport
-- and the decoding of a body are parameters; the message of an error is left out. Header values and
-- host names are ASCII, and a deadline that passes shows as a transport or a body that fails.
pub mod Loop
pub mod Permits
pub mod Containment
use open_blog_agent.Prelude.{
  ◌⊎◌, inl, inr, ℕ, zero, suc, ◌+◌, String, Bool, true, false, ◌&&◌, ◌||◌, not, ◌==◌, Option, none,
  some, List, [], ◌∷◌, ◌++◌, if◌then◌else◌, leb, ltb, nat_eq, all, any, length, map,
}
use open_blog_agent.Research.Codes.{Codes, before, codes, lower, codes_eq, trim_start, trim_end}
use open_blog_agent.Research.Addresses.{is_private_address, drop_open, drop_close}

pub data FetchErrorCode : Type 0 where
  fetch_blocked fetch_timeout fetch_too_large fetch_http_error fetch_unsupported_type
        fetch_network :
      FetchErrorCode

-- A `FetchError` by its code, or any other error.
pub data Failure : Type 0 where
  failed : FetchErrorCode → Failure
  other : Failure

pub data Fetch (A : Type 0) : Type 0 where
  got : A → Fetch A
  threw : Failure → Fetch A

-- A parsed URL.
pub record Url : Type 0 where
  pub text : String
  pub protocol : String
  pub username : String
  pub password : String
  pub hostname : Codes

-- A response: the headers that are read, the chunks of its body, and whether the body fails after
-- them. `content_length` is that header where it is a finite number.
pub record Response : Type 0 where
  pub status : ℕ
  pub location : Option String
  pub content_type : Option Codes
  pub content_encoding : Option Codes
  pub content_length : Option ℕ
  pub chunks : List (List ℕ)
  pub broken : Bool

pub record FetchedContent : Type 0 where
  pub url : String
  pub final_url : String
  pub status : ℕ
  pub content_type : Codes
  pub size : ℕ
  pub body : String

pub record FetchOptions : Type 0 where
  pub max_bytes : ℕ
  pub max_redirects : ℕ
  pub allow_private : Bool
  pub allowed_hosts : List Codes

-- What is outside, by the number of calls made before; none is an error.
pub record FetchPorts : Type 0 where
  pub new_url : String → Option Url → Option Url
  pub is_ip : Codes → ℕ
  pub resolver : ℕ → Codes → Option (List Codes)
  pub transport : ℕ → Url → Codes → Option Response
  pub decode : List ℕ → Codes → String
  pub timed_out : ℕ → Bool

-- A request that was sent: the URL and the address that it was connected to.
pub record Hop : Type 0 where
  pub url : Url
  pub address : Codes

pub record Net : Type 0 where
  pub calls : ℕ
  pub hops : List Hop

abbrev pub redirect_statuses : List ℕ
redirect_statuses = 301 ∷ 302 ∷ 303 ∷ 307 ∷ 308 ∷ []

abbrev pub allowed_types : List String
allowed_types =
    "text/html" ∷ "application/xhtml+xml" ∷ "text/xml" ∷ "application/xml" ∷ "application/rss+xml"
    ∷ "application/atom+xml" ∷ "text/plain" ∷ []

unfoldable pub is_allowed_type : Codes → Bool
is_allowed_type type = any (λ t. codes_eq type (codes t)) allowed_types

-- `contentTypeHeader.split(";")[0].trim().toLowerCase()`
unfoldable pub media_type : Codes → Codes
media_type header = map lower (trim_end (trim_start (before b';' header)))

-- `encoding && encoding !== "identity"`
unfoldable pub is_encoded : Option Codes → Bool
is_encoded none = false
is_encoded (some value) =
    let encoding = map lower (trim_end (trim_start value)) in
    ltb 0 (length encoding) && not (codes_eq encoding (codes "identity"))

abbrev pub is_too_long : ℕ → Option ℕ → Bool
is_too_long most none = false
is_too_long most (some declared) = ltb most declared

abbrev pub header : Option Codes → Codes
header none = []
header (some value) = value

-- `readBody` behind the chunks read so far
unfoldable pub read_body : ℕ → List ℕ → List (List ℕ) → Bool → Fetch (List ℕ)
read_body most so_far [] broken = if broken then threw other else got so_far
read_body most so_far (chunk ∷ chunks) broken =
    let rest = read_body most (so_far ++ chunk) chunks broken in
    if ltb most (length so_far + length chunk) then threw (failed fetch_too_large) else rest

module _ (o : FetchOptions) (p : FetchPorts) where
  unfoldable pub check_url : Url → Fetch Url
  check_url url =
      if not (url.protocol == "http:") && not (url.protocol == "https:")
      then threw (failed fetch_blocked)
      else if not (url.username == "") || not (url.password == "")
      then threw (failed fetch_blocked)
      else got url

  -- `parse`; a text that is no URL is blocked
  unfoldable pub parse : String → Fetch Url
  unfolding check_url
  parse value = elim (p.new_url value none) [
    | none ↦ threw (failed fetch_blocked)
    | some url ↦ check_url url
  ]

  -- `parse(new URL(location, current).toString())`
  unfoldable pub redirected : String → Url → Fetch Url
  unfolding parse
  redirected location current = elim (p.new_url location (some current)) [
    | none ↦ threw other
    | some url ↦ parse url.text
  ]

  abbrev pub bare_host : Url → Codes
  bare_host url = map lower (drop_close (drop_open url.hostname))

  unfoldable pub host_allowed : Codes → Bool
  host_allowed host = nat_eq (length o.allowed_hosts) 0 || any (codes_eq host) o.allowed_hosts

  -- the addresses of a host, and the first one if all of them may be used
  unfoldable pub choose_address : List Codes → Fetch Codes
  choose_address [] = threw (failed fetch_network)
  choose_address (a ∷ more) =
      if not o.allow_private && any (is_private_address p.is_ip) (a ∷ more)
      then threw (failed fetch_blocked)
      else got a

  abbrev pub looked_up : Option (List Codes) → Fetch Codes
  looked_up none = threw (failed fetch_network)
  looked_up (some addresses) = choose_address addresses

  unfoldable pub resolved : ℕ → Codes → Fetch Codes
  unfolding choose_address
  resolved calls host =
      if nat_eq (p.is_ip host) 0
      then looked_up (p.resolver calls host)
      else choose_address (host ∷ [])

  unfoldable pub check : ℕ → Url → Fetch Codes
  unfolding host_allowed resolved
  check calls url =
      if host_allowed (bare_host url)
      then resolved calls (bare_host url)
      else threw (failed fetch_blocked)
