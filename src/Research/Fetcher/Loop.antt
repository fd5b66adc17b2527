-- ===== src/Research/Fetcher/Loop.antt =====
-- The loop over redirects of packages/research/src/fetcher.ts, and `fetch`.
use open_blog_agent.Prelude.{
  ◌⊎◌, inl, inr, ℕ, zero, suc, String, Bool, true, false, ◌||◌, not, ◌==◌, Option, none, some, [],
  ◌∷◌, ◌++◌, if◌then◌else◌, leb, ltb, nat_eq, any, length,
}
use open_blog_agent.Research.Codes.{Codes}
use open_blog_agent.Research.Fetcher.{
  FetchErrorCode, fetch_timeout, fetch_too_large, fetch_http_error, fetch_unsupported_type,
  fetch_network, Failure, failed, other, Fetch, got, threw, Url, Response, FetchedContent,
  FetchOptions, FetchPorts, Net, redirect_statuses, is_allowed_type, media_type, is_encoded,
  is_too_long, header, read_body, parse, redirected, check,
}

module _ (o : FetchOptions) (p : FetchPorts) where
  -- a response that is no redirect
  unfoldable pub receive : String → Url → Response → Fetch FetchedContent
  unfolding is_allowed_type media_type is_encoded read_body
  receive start current r =
      let type = media_type (header r.content_type) in
      if ltb r.status 200 || leb 300 r.status
      then threw (failed fetch_http_error)
      else if not (is_allowed_type type)
      then threw (failed fetch_unsupported_type)
      else if is_encoded r.content_encoding
      then threw (failed fetch_unsupported_type)
      else if is_too_long o.max_bytes r.content_length
      then threw (failed fetch_too_large)
      else elim (read_body o.max_bytes [] r.chunks r.broken) [
        | threw e ↦ threw e
        | got body ↦ got (record {
          url = start;
          final_url = current.text;
          status = r.status;
          content_type = type;
          size = length body;
          body = p.decode body (header r.content_type);
        })
      ]

  abbrev pub connected : Url → Codes → Net → Net
  connected url address n = record {
    calls = suc (suc n.calls);
    hops = n.hops ++ (record { url = url; address = address }) ∷ [];
  }

  abbrev pub is_location : Option String → Option String
  is_location none = none
  is_location (some text) = if text == "" then none else some text

  abbrev pub next : Fetch Url → Fetch FetchedContent ⊎ Url
  next (threw e) = inl (threw e)
  next (got url) = inr url

  -- a redirect; `more` says whether another one may be followed
  unfoldable pub redirect : Bool → Option String → Url → Fetch FetchedContent ⊎ Url
  unfolding redirected
  redirect more none current = inl (threw (failed fetch_http_error))
  redirect false (some location) current = inl (threw (failed fetch_http_error))
  redirect true (some location) current = next (redirected o p location current)

  -- the end of the loop, or the URL of the next hop
  unfoldable pub answered : Bool → String → Url → Response → Fetch FetchedContent ⊎ Url
  unfolding receive redirect
  answered more start current r =
      if any (nat_eq r.status) redirect_statuses
      then redirect more (is_location r.location) current
      else inl (receive start current r)

  -- what the transport gives, if anything
  unfoldable pub replied : Bool → String → Url → Option Response → Fetch FetchedContent ⊎ Url
  unfolding answered
  replied more start current none = inl (threw other)
  replied more start current (some r) = answered more start current r

  -- one hop, once the address is known
  unfoldable pub sent : Bool → String → Url → Net → Fetch Codes → (Fetch FetchedContent ⊎ Url) × Net
  unfolding replied
  sent more start current n (threw e) = (inl (threw e), record n { calls = suc n.calls })
  sent more start current n (got address) = (
    replied more start current (p.transport (suc n.calls) current address),
    connected current address n,
  )

  unfoldable pub hop : Bool → String → Url → Net → (Fetch FetchedContent ⊎ Url) × Net
  unfolding check sent
  hop more start current n = sent more start current n (check o p n.calls current)

  abbrev pub onward :
      (Url → Net → Fetch FetchedContent × Net)
      → Fetch FetchedContent ⊎ Url
      → Net
      → Fetch FetchedContent × Net
  onward go_on (inl end) n = (end, n)
  onward go_on (inr url) n = go_on url n

  -- The loop of `follow`, where `left` more redirects may be followed: where none may, a hop ends.
  unfoldable pub follow_from : ℕ → String → Url → Net → Fetch FetchedContent × Net
  unfolding hop
  follow_from zero start current n =
      let h = hop false start current n in
      onward (λ url m. (threw (failed fetch_http_error), m)) h.0 h.1
  follow_from (suc left) start current n =
      let h = hop true start current n in onward (λ url m. follow_from left start url m) h.0 h.1

  unfoldable pub follow_parsed : String → Fetch Url → Net → Fetch FetchedContent × Net
  unfolding follow_from
  follow_parsed start (threw e) n = (threw e, n)
  follow_parsed start (got url) n = follow_from o.max_redirects start url n

  unfoldable pub follow : String → Net → Fetch FetchedContent × Net
  unfolding follow_parsed parse
  follow start n = follow_parsed start (parse o p start) n

  -- `toFetchError`: an error that is no `FetchError` is a timeout or one of the network
  abbrev pub fetch_error : Bool → Failure → FetchErrorCode
  fetch_error timed_out (failed code) = code
  fetch_error timed_out other = if timed_out then fetch_timeout else fetch_network

  abbrev pub settled : Fetch FetchedContent → Net → Fetch FetchedContent × Net
  settled (got content) n = (got content, n)
  settled (threw e) n = (threw (failed (fetch_error (p.timed_out n.calls) e)), n)

  unfoldable pub fetch : String → Net → Fetch FetchedContent × Net
  unfolding follow
  fetch url n = let f = follow url n in settled f.0 f.1
