-- ===== src/Backfill/Provider.antt =====
-- The HTTP provider of src/backfill.rs: its URL, and its client with the headers.
use polymarket_indexer.Prelude.{String, Option, List}
use polymarket_indexer.Prelude.Outcome.{Result, ok, ◌>>=◌}
use polymarket_indexer.Contracts.{Address}
use polymarket_indexer.Backfill.Auth.{build_auth_headers}

-- What `url`, `http`, `reqwest` and `alloy` parse and build.
pub record Http : Type 1 where
  pub Url : Type 0
  pub Name : Type 0
  pub Value : Type 0
  pub Client : Type 0
  pub parse_url : String → Result Url
  pub parse_name : String → Result Name
  pub parse_value : String → Result Value
  pub build_client : List (Name × Value) → Result Client
  pub parse_address : String → Result Address

-- `Http::with_client(http_client, http_url)`, below the provider.
pub record Provider (H : Http) : Type 0 where
  pub client : H.Client
  pub url : H.Url

module _ (H : Http) where
  unfoldable pub build_http_url : String → Result H.Url
  build_http_url base = H.parse_url base

  -- The URL is parsed first, then the headers, and then the client is built.
  unfoldable pub build_provider : String → Option String → String → String → Result (Provider H)
  unfolding build_http_url
  build_provider rpc_http_url key header_name header_scheme = do
    url ← build_http_url rpc_http_url
    headers ← build_auth_headers H.parse_name H.parse_value key header_name header_scheme
    client ← H.build_client headers
    ok (record { client = client; url = url })
