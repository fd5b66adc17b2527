-- ===== src/Research/Fetcher/Containment.antt =====
-- What a fetch (packages/research/src/fetcher.ts) connects to, and what it returns.
use open_blog_agent.Prelude.{
  ℕ, zero, suc, ◌+◌, ◌≤◌, String, ◌≡◌, ◌⊎◌, inl, inr, Bool, true, false, ◌||◌, not, Option, none,
  some, List, [], ◌∷◌, ◌++◌, if◌then◌else◌, All, All-append, any, nat_eq, length, length-append,
  append_assoc, append-nil, arith, refl, Bool-cases, ap, ◌∙◌, sym, leb, ltb,
}
use open_blog_agent.Research.Codes.{Codes}
use open_blog_agent.Research.Fetcher.{
  Failure, failed, fetch_http_error, fetch_too_large, fetch_unsupported_type, Fetch, got, threw,
  Url, Response, FetchedContent, FetchOptions, FetchPorts, Hop, Net, is_allowed_type, media_type,
  header, is_encoded, is_too_long, read_body, parse, redirected, check, redirect_statuses,
}
use open_blog_agent.Research.Fetcher.Loop.{
  receive, settled, follow_parsed, onward, next, redirect, replied, sent, answered, hop,
  follow_from, follow, fetch, is_location,
}
use open_blog_agent.Research.Fetcher.Permits.{
  IsWeb, IsPermitted, IsPage, IsWebUrl, IsUsable, IsChecked, parse-IsWebUrl, redirected-IsWebUrl,
  check-IsChecked,
}

Bounded : ℕ → Fetch (List ℕ) → Type 0
Bounded most (threw e) = Unit
Bounded most (got body) = length body ≤ most

read_body-Bounded :
    (most : ℕ) (so_far : List ℕ) (chunks : List (List ℕ)) (broken : Bool)
    → length so_far ≤ most
    → Bounded most (read_body most so_far chunks broken)
unfolding Bounded read_body
read_body-Bounded most so_far [] broken h = elim (Bool-cases broken) [
  | inl e ↦ rw e tt
  | inr e ↦ rw e h
]
read_body-Bounded most so_far (chunk ∷ chunks) broken h =
    elim (Bool-cases (ltb most (length so_far + length chunk))) [
      | inl e ↦ rw e tt
      | inr e ↦ rw e (
          read_body-Bounded most (so_far ++ chunk) chunks broken
            (ground (arith, e, length-append so_far chunk)))
    ]

module _ (o : FetchOptions) (p : FetchPorts) where
  guarded :
      (b : Bool) (e : Failure) (rest : Fetch FetchedContent)
      → (b ≡ false → IsPage o p rest)
      → IsPage o p (if b then threw e else rest)
  unfolding IsPage
  guarded true e rest h = tt
  guarded false e rest h = h refl

  page_of : String → Url → Response → Fetch (List ℕ) → Fetch FetchedContent
  page_of start current r (threw e) = threw e
  page_of start current r (got body) = got (record {
    url = start;
    final_url = current.text;
    status = r.status;
    content_type = media_type (header r.content_type);
    size = length body;
    body = p.decode body (header r.content_type);
  })

  page_of-IsPage :
      (start : String) (current : Url) (r : Response) (b : Fetch (List ℕ))
      → Bounded o.max_bytes b
      → (ltb r.status 200 || leb 300 r.status) ≡ false
      → not (is_allowed_type (media_type (header r.content_type))) ≡ false
      → IsPage o p (page_of start current r b)
  unfolding page_of IsPage Bounded
  page_of-IsPage start current r (threw e) h s t = tt
  page_of-IsPage start current r (got body) h s t = (ground arith, ground arith, h, ground arith)

  receive-IsPage :
      (start : String) (current : Url) (r : Response) → IsPage o p (receive o p start current r)
  unfolding receive page_of
  receive-IsPage start current r =
      let body = read_body o.max_bytes [] r.chunks r.broken in
      guarded (ltb r.status 200 || leb 300 r.status) (failed fetch_http_error) _ (λ s.
        guarded (not (is_allowed_type (media_type (header r.content_type))))
          (failed fetch_unsupported_type) _
          (λ t. guarded (is_encoded r.content_encoding) (failed fetch_unsupported_type) _ (λ _.
            guarded (is_too_long o.max_bytes r.content_length) (failed fetch_too_large) _ (λ _.
              page_of-IsPage start current r body
                (read_body-Bounded o.max_bytes [] r.chunks r.broken (omega arith)) s t))))

  -- How one hop ends: with a page or an error, or with the URL of the next hop.
  IsEnd : (Fetch FetchedContent ⊎ Url) → Type 0
  IsEnd (inl end) = IsPage o p end
  IsEnd (inr url) = IsWeb url

  -- What is sent from `n` on: at most `most` requests, all permitted.
  unfoldable pub IsSent : ℕ → Net → Net → Type 0
  IsSent most n later =
      (hops : List Hop) × (later.hops ≡ n.hops ++ hops)
      × (length hops ≤ most)
      × All (IsPermitted o p) hops

  next-IsEnd : (target : Fetch Url) → IsWebUrl o p target → IsEnd (next o p target)
  unfolding IsEnd IsWebUrl IsPage
  next-IsEnd (threw e) h = tt
  next-IsEnd (got url) h = h

  redirect-IsEnd :
      (more : Bool) (location : Option String) (current : Url)
      → IsEnd (redirect o p more location current)
  unfolding redirect IsEnd IsPage
  redirect-IsEnd more none current = tt
  redirect-IsEnd false (some location) current = tt
  redirect-IsEnd true (some location) current =
      next-IsEnd (redirected o p location current) (redirected-IsWebUrl o p location current)

  chosen-IsEnd :
      (b : Bool) (x y : Fetch FetchedContent ⊎ Url) → IsEnd x → IsEnd y → IsEnd (if b then x else y)
  chosen-IsEnd true x y h k = h
  chosen-IsEnd false x y h k = k

  replied-IsEnd :
      (more : Bool) (start : String) (current : Url) (r : Option Response)
      → IsEnd (replied o p more start current r)
  unfolding replied answered IsEnd IsPage
  replied-IsEnd more start current none = tt
  replied-IsEnd more start current (some r) =
      chosen-IsEnd (any (nat_eq r.status) redirect_statuses)
        (redirect o p more (is_location o p r.location) current) (inl (receive o p start current r))
        (redirect-IsEnd more (is_location o p r.location) current) (receive-IsPage start current r)

  sent-IsSent :
      (more : Bool) (start : String) (current : Url) (n : Net) (address : Fetch Codes)
      → IsWeb current
      → IsChecked o p current address
      → IsEnd (sent o p more start current n address).0
        × IsSent 1 n (sent o p more start current n address).1
  unfolding sent IsSent IsEnd IsPage IsUsable IsChecked
  sent-IsSent more start current n (threw e) web h =
      (tt, ([], sym (append-nil n.hops), omega arith, tt))
  sent-IsSent more start current n (got a) web h = (
    replied-IsEnd more start current (p.transport (suc n.calls) current a),
    (
      (record { url = current; address = a }) ∷ [],
      refl,
      omega arith,
      (record { web = web; host = h.0; address = h.1 }, tt),
    ),
  )

  hop-IsSent :
      (more : Bool) (start : String) (current : Url) (n : Net)
      → IsWeb current
      → IsEnd (hop o p more start current n).0 × IsSent 1 n (hop o p more start current n).1
  unfolding hop
  hop-IsSent more start current n web =
      sent-IsSent more start current n (check o p n.calls current) web
        (check-IsChecked o p n.calls current)

  more-IsSent : (a b : ℕ) (n m : Net) → IsSent a n m → a ≤ b → IsSent b n m
  unfolding IsSent
  more-IsSent a b n m x h = (x.0, x.1, ground (arith, x.2), x.3)

  later-IsSent : (a b : ℕ) (n m l : Net) → IsSent a n m → IsSent b m l → IsSent (a + b) n l
  unfolding IsSent
  later-IsSent a b n m l x y = (
    x.0 ++ y.0,
    y.1 ∙ (ap (λ hs. hs ++ y.0) x.1 ∙ append_assoc n.hops x.0 y.0),
    ground (arith, length-append x.0 y.0, x.2, y.2),
    All-append (IsPermitted o p) x.0 y.0 x.3 y.3,
  )

  none-IsSent : (n : Net) → IsSent 0 n n
  unfolding IsSent
  none-IsSent n = ([], sym (append-nil n.hops), omega arith, tt)

  abbrev IsFetched : ℕ → Net → Fetch FetchedContent × Net → Type 0
  IsFetched most n r = IsPage o p r.0 × IsSent most n r.1

  onward-IsFetched :
      (left : ℕ) (go_on : Url → Net → Fetch FetchedContent × Net) (end : Fetch FetchedContent ⊎ Url)
      (n m : Net)
      → IsEnd end
      → IsSent 1 n m
      → ((url : Url) → IsWeb url → IsFetched left m (go_on url m))
      → IsFetched (suc left) n (onward o p go_on end m)
  unfolding IsEnd
  onward-IsFetched left go_on (inl page) n m e s k =
      (e, more-IsSent 1 (suc left) n m s (omega arith))
  onward-IsFetched left go_on (inr url) n m e s k =
      let rest = k url e in
      (
        rest.0,
        more-IsSent (1 + left) (suc left) n (go_on url m).1
            (later-IsSent 1 left n m (go_on url m).1 s rest.1) (omega arith),
      )

  follow_from-IsFetched :
      (left : ℕ) (start : String) (current : Url) (n : Net)
      → IsWeb current
      → IsFetched (suc left) n (follow_from o p left start current n)
  unfolding follow_from IsPage
  follow_from-IsFetched zero start current n web =
      let h = hop-IsSent false start current n web in
      let m = (hop o p false start current n).1 in
      onward-IsFetched zero (λ url m. (threw (failed fetch_http_error), m))
        (hop o p false start current n).0 n m h.0 h.1 (λ url w. (tt, none-IsSent m))
  follow_from-IsFetched (suc left) start current n web =
      let h = hop-IsSent true start current n web in
      let m = (hop o p true start current n).1 in
      onward-IsFetched (suc left) (λ url m. follow_from o p left start url m)
        (hop o p true start current n).0 n m h.0 h.1
        (λ url w. follow_from-IsFetched left start url m w)

  follow_parsed-IsFetched :
      (start : String) (parsed : Fetch Url) (n : Net)
      → IsWebUrl o p parsed
      → IsFetched (suc o.max_redirects) n (follow_parsed o p start parsed n)
  unfolding follow_parsed IsWebUrl IsPage
  follow_parsed-IsFetched start (threw e) n h =
      (tt, more-IsSent 0 (suc o.max_redirects) n n (none-IsSent n) (omega arith))
  follow_parsed-IsFetched start (got url) n h = follow_from-IsFetched o.max_redirects start url n h

  settled-IsFetched :
      (most : ℕ) (n m : Net) (page : Fetch FetchedContent)
      → IsFetched most n (page, m)
      → IsFetched most n (settled o p page m)
  unfolding IsPage
  settled-IsFetched most n m (got content) h = h
  settled-IsFetched most n m (threw e) h = h

  -- A fetch ends. It sends at most one request more than redirects may be followed, each to an
  -- `http` or `https` URL without credentials, of a host that is allowed, and to an address that is
  -- not private unless private ones are allowed. What it returns is of an allowed type and no larger
  -- than the limit, and came with a status of success.
  pub fetch-IsContained :
      (url : String) (n : Net)
      → IsPage o p (fetch o p url n).0 × IsSent (suc o.max_redirects) n (fetch o p url n).1
  unfolding fetch follow
  fetch-IsContained url n =
      let f = follow_parsed o p url (parse o p url) n in
      settled-IsFetched (suc o.max_redirects) n f.1 f.0
        (follow_parsed-IsFetched url (parse o p url) n (parse-IsWebUrl o p url))
