-- ===== src/Frontfill/Auth.antt =====
-- `build_ws_auth`, `build_ws_connect` and `build_filter` of src/frontfill.rs.
pub mod Agreement
use Prim.Native.Char.{code}
use polymarket_indexer.Prelude.{
  ℕ, ◌+◌, String, ◌<>◌, Bool, true, false, not, ◌&&◌, Option, none, some, List, [], ◌∷◌, map, leb,
  ◌==◌, str_eq, if◌then◌else◌,
}
use polymarket_indexer.Prelude.Outcome.{Result, ok, err, ◌>>=◌}
use polymarket_indexer.Contracts.{Address}

-- `alloy::transports::Authorization`, by the two constructors that are used.
pub data Authorization : Type 0 where
  bearer raw : String → Authorization

abbrev pub codes : String → List ℕ
codes (String.◌∷◌ first rest) = code first ∷ codes rest
codes String.[] = []

abbrev pub to_ascii_lowercase : ℕ → ℕ
to_ascii_lowercase c = if leb b'A' c && leb c b'Z' then c + 32 else c

abbrev pub codes_eq : List ℕ → List ℕ → Bool
codes_eq [] [] = true
codes_eq (c ∷ cs) (d ∷ ds) = c == d && codes_eq cs ds
codes_eq _ _ = false

unfoldable pub eq_ignore_ascii_case : String → String → Bool
eq_ignore_ascii_case s t =
    codes_eq (map to_ascii_lowercase (codes s)) (map to_ascii_lowercase (codes t))

unfoldable pub build_ws_auth : Option String → String → String → Result (Option Authorization)
unfolding eq_ignore_ascii_case
build_ws_auth key header_name scheme = elim key [
  | none ↦ ok none
  | some k ↦
      if str_eq k ""
      then ok none
      else if not (eq_ignore_ascii_case header_name "authorization")
      then err "frontfill websocket auth supports only the Authorization header"
      else if str_eq scheme ""
      then ok (some (raw k))
      else if eq_ignore_ascii_case scheme "bearer"
      then ok (some (bearer k))
      else ok (some (raw (scheme <> " " <> k)))
]

-- `alloy`'s `WsConnect`, by the two fields that are set.
pub record WsConnect : Type 0 where
  pub url : String
  pub auth : Option Authorization

unfoldable pub build_ws_connect : String → Option String → String → String → Result WsConnect
unfolding build_ws_auth
build_ws_connect rpc_url rpc_auth_key rpc_auth_header rpc_auth_scheme = do
  auth ← build_ws_auth rpc_auth_key rpc_auth_header rpc_auth_scheme
  ok (record { url = rpc_url; auth = auth })

pub data BlockNumberOrTag : Type 0 where
  number : ℕ → BlockNumberOrTag
  latest : BlockNumberOrTag

pub record Filter : Type 0 where
  pub addresses : List Address
  pub from_block : BlockNumberOrTag

-- Over the result of `contract_addresses`.
unfoldable pub build_filter : Result (List Address) → Option ℕ → Result Filter
build_filter contracts start_block = do
  addresses ← contracts
  ok (record {
    addresses = addresses;
    from_block = elim start_block [ some block ↦ number block | none ↦ latest ];
  })
