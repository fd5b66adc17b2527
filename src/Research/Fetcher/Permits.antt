-- ===== src/Research/Fetcher/Permits.antt =====
-- What the checks of packages/research/src/fetcher.ts let through.
use open_blog_agent.Prelude.{
  ℕ, ◌≤◌, ◌<◌, String, ◌≡◌, ◌⊎◌, inl, inr, Bool, true, false, ◌&&◌, ◌||◌, not, ◌==◌, Option, none,
  some, List, [], ◌∷◌, if◌then◌else◌, any, nat_eq, arith, refl, Option-cases,
}
use open_blog_agent.Research.Codes.{Codes}
use open_blog_agent.Research.Addresses.{is_private_address}
use open_blog_agent.Research.Fetcher.{
  failed, Fetch, got, threw, Url, FetchedContent, FetchOptions, FetchPorts, Hop, is_allowed_type,
  check_url, parse, redirected, bare_host, host_allowed, choose_address, resolved, check, looked_up,
  fetch_blocked,
}

-- A text of the web, without credentials.
unfoldable pub IsWeb : Url → Type 0
IsWeb url =
    ((url.protocol == "http:" || url.protocol == "https:") ≡ true)
    × ((url.username == "" && url.password == "") ≡ true)

module _ (o : FetchOptions) (p : FetchPorts) where
  -- A request that the rules permit.
  pub record IsPermitted (h : Hop) : Type 0 where
    pub web : IsWeb h.url
    pub host : host_allowed o p (bare_host o p h.url) ≡ true
    pub address : (o.allow_private ≡ true) ⊎ (is_private_address p.is_ip h.address ≡ false)

  -- What is returned is a page of an allowed type, with a status of success, and within the limit.
  unfoldable pub IsPage : Fetch FetchedContent → Type 0
  IsPage (threw e) = Unit
  IsPage (got c) =
      (200 ≤ c.status)
      × (c.status < 300)
      × (c.size ≤ o.max_bytes)
      × (is_allowed_type c.content_type ≡ true)

  unfoldable pub IsWebUrl : Fetch Url → Type 0
  IsWebUrl (threw e) = Unit
  IsWebUrl (got url) = IsWeb url

  check_url-IsWebUrl : (url : Url) → IsWebUrl (check_url o p url)
  unfolding check_url IsWebUrl IsWeb
  check_url-IsWebUrl url = ground arith

  pub parse-IsWebUrl : (value : String) → IsWebUrl (parse o p value)
  unfolding parse IsWebUrl
  parse-IsWebUrl value = elim (Option-cases (p.new_url value none)) [
    | inl e ↦ rw (e, parse) tt
    | inr e ↦ rw (e.1, parse) (check_url-IsWebUrl e.0)
  ]

  pub redirected-IsWebUrl :
      (location : String) (current : Url) → IsWebUrl (redirected o p location current)
  unfolding redirected IsWebUrl
  redirected-IsWebUrl location current = elim (Option-cases (p.new_url location (some current))) [
    | inl e ↦ rw (e, redirected) tt
    | inr e ↦ rw (e.1, redirected) (parse-IsWebUrl e.0.text)
  ]

  unfoldable pub IsUsable : Codes → Type 0
  IsUsable a = (o.allow_private ≡ true) ⊎ (is_private_address p.is_ip a ≡ false)

  -- An address that is found is usable.
  unfoldable pub FindsUsable : Fetch Codes → Type 0
  FindsUsable (threw e) = Unit
  FindsUsable (got a) = IsUsable a

  first-FindsUsable :
      (a : Codes) (more : List Codes) (b : Bool)
      → (not o.allow_private && any (is_private_address p.is_ip) (a ∷ more)) ≡ b
      → FindsUsable (if b then threw (failed fetch_blocked) else got a)
  unfolding FindsUsable IsUsable
  first-FindsUsable a more true h = tt
  first-FindsUsable a more false h = ground arith

  choose_address-FindsUsable : (found : List Codes) → FindsUsable (choose_address o p found)
  unfolding choose_address FindsUsable
  choose_address-FindsUsable [] = tt
  choose_address-FindsUsable (a ∷ more) = first-FindsUsable a more _ refl

  looked_up-FindsUsable : (found : Option (List Codes)) → FindsUsable (looked_up o p found)
  unfolding FindsUsable
  looked_up-FindsUsable none = tt
  looked_up-FindsUsable (some addresses) = choose_address-FindsUsable addresses

  either-FindsUsable :
      (b : Bool) (x y : Fetch Codes)
      → FindsUsable x
      → FindsUsable y
      → FindsUsable (if b then x else y)
  either-FindsUsable true x y h k = h
  either-FindsUsable false x y h k = k

  resolved-FindsUsable : (calls : ℕ) (host : Codes) → FindsUsable (resolved o p calls host)
  unfolding resolved
  resolved-FindsUsable calls host =
      either-FindsUsable (nat_eq (p.is_ip host) 0) (looked_up o p (p.resolver calls host))
        (choose_address o p (host ∷ [])) (looked_up-FindsUsable (p.resolver calls host))
        (choose_address-FindsUsable (host ∷ []))

  -- The rules hold of a host and of the address that is found for it.
  unfoldable pub IsChecked : Url → Fetch Codes → Type 0
  IsChecked url (threw e) = Unit
  IsChecked url (got a) = (host_allowed o p (bare_host o p url) ≡ true) × IsUsable a

  usable-IsChecked :
      (url : Url) (r : Fetch Codes)
      → host_allowed o p (bare_host o p url) ≡ true
      → FindsUsable r
      → IsChecked url r
  unfolding IsChecked FindsUsable
  usable-IsChecked url (threw e) h k = tt
  usable-IsChecked url (got a) h k = (h, k)

  allowed-IsChecked :
      (url : Url) (r : Fetch Codes) (b : Bool)
      → host_allowed o p (bare_host o p url) ≡ b
      → FindsUsable r
      → IsChecked url (if b then r else threw (failed fetch_blocked))
  unfolding IsChecked
  allowed-IsChecked url r true h k = usable-IsChecked url r h k
  allowed-IsChecked url r false h k = tt

  pub check-IsChecked : (calls : ℕ) (url : Url) → IsChecked url (check o p calls url)
  unfolding check
  check-IsChecked calls url =
      allowed-IsChecked url (resolved o p calls (bare_host o p url)) _ refl
        (resolved-FindsUsable calls (bare_host o p url))
