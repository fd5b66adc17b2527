-- ===== src/Tests/Fetching.antt =====
-- The theorem on the fetcher (packages/research/src/fetcher.ts) at a concrete input.
use open_blog_agent.Prelude.{
  String, false, Option, none, some, [], ◌∷◌, ◌==◌, any, nat_eq, if◌then◌else◌,
}
use open_blog_agent.Research.Codes.{codes}
use open_blog_agent.Research.Fetcher.{Url, Response, FetchOptions, FetchPorts, Net}
use open_blog_agent.Research.Fetcher.Loop.{fetch}
use open_blog_agent.Research.Fetcher.Permits.{IsPage}
use open_blog_agent.Research.Fetcher.Containment.{IsSent, fetch-IsContained}

abbrev options : FetchOptions
options = record { max_bytes = 10; max_redirects = 2; allow_private = false; allowed_hosts = [] }

abbrev url_of : String → Option Url → Option Url
url_of text base = some (record {
  text = text;
  protocol = "https:";
  username = "";
  password = "";
  hostname = codes text;
})

-- "a" redirects to "b", which answers with two bytes.
abbrev answer : Url → Option Response
answer url =
    if url.text == "a"
    then some (record {
      status = 302;
      location = some "b";
      content_type = none;
      content_encoding = none;
      content_length = none;
      chunks = [];
      broken = false;
    })
    else some (record {
      status = 200;
      location = none;
      content_type = some (codes "text/html; charset=utf-8");
      content_encoding = none;
      content_length = some 2;
      chunks = (1 ∷ 2 ∷ []) ∷ [];
      broken = false;
    })

abbrev ports : FetchPorts
ports = record {
  new_url = url_of;
  is_ip = λ host. if any (λ c. nat_eq c b'.') host then 4 else 0;
  resolver = λ n host. some (codes "8.8.8.8" ∷ []);
  transport = λ n url address. answer url;
  decode = λ bytes header. "page";
  timed_out = λ n. false;
}

abbrev net : Net
net = record { calls = 0; hops = [] }

fetch-IsContained_example :
    IsPage options ports (fetch options ports "a" net).0
    × IsSent options ports 3 net (fetch options ports "a" net).1
fetch-IsContained_example = fetch-IsContained options ports "a" net
