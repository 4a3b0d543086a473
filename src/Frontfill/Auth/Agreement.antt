-- ===== src/Frontfill/Auth/Agreement.antt =====
-- The live run and the backfill send one credential for one configuration.
use polymarket_indexer.Prelude.{
  String, ◌<>◌, ◌≡◌, sym, ◌∙◌, ◌≢◌, ◌↔◌, ◌⊎◌, refl, inl, inr, true, false, none, some, arith,
  str_eq, eq_iff, Bool-cases,
}
use polymarket_indexer.Prelude.Outcome.{ok, err}
use polymarket_indexer.Backfill.Auth.{header_text}
use polymarket_indexer.Frontfill.Auth.{
  Authorization, bearer, raw, eq_ignore_ascii_case, build_ws_auth,
}

-- No credential is sent exactly if the key is missing or empty; a key with any other header than
-- `Authorization` is refused.
pub build_ws_auth-cases :
    (key : String) (header_name scheme : String)
    → ((build_ws_auth (some key) header_name scheme ≡ ok none) ↔ (key ≡ ""))
      × ((build_ws_auth (some key) header_name scheme
            ≡ err "frontfill websocket auth supports only the Authorization header")
          ↔ ((key ≢ "") × (eq_ignore_ascii_case header_name "authorization" ≡ false)))
unfolding build_ws_auth
build_ws_auth-cases key header_name scheme = ground (arith, eq_iff key "")

is_bearer : eq_ignore_ascii_case "Bearer" "bearer" ≡ true
unfolding eq_ignore_ascii_case
is_bearer = refl

build_ws_auth-bearer :
    (key header_name scheme : String)
    → key ≢ ""
    → eq_ignore_ascii_case header_name "authorization" ≡ true
    → scheme ≡ "Bearer"
    → build_ws_auth (some key) header_name scheme ≡ ok (some (bearer key))
unfolding build_ws_auth
build_ws_auth-bearer key header_name scheme k n e = rw e (ground (arith, eq_iff key "", is_bearer))

header_text-bearer :
    (key scheme : String) → scheme ≡ "Bearer" → header_text scheme key ≡ "Bearer" <> " " <> key
unfolding header_text
header_text-bearer key scheme e = rw e refl

-- What the program relies on of the texts that `alloy` sends.
pub record AuthorizationText : Type 0 where
  pub text : Authorization → String
  pub text-bearer : (key : String) → text (bearer key) ≡ "Bearer" <> " " <> key
  pub text-raw : (value : String) → text (raw value) ≡ value

-- For a key, the header `Authorization` and a scheme that is `Bearer` or no variant of it in another
-- case, the live run sends the value that the backfill puts in its header.
pub build_ws_auth-header_text :
    (A : AuthorizationText) (key header_name scheme : String)
    → key ≢ ""
    → eq_ignore_ascii_case header_name "authorization" ≡ true
    → (scheme ≡ "Bearer") ⊎ (eq_ignore_ascii_case scheme "bearer" ≡ false)
    → (auth : Authorization) × (build_ws_auth (some key) header_name scheme ≡ ok (some auth))
      × (A.text auth ≡ header_text scheme key)
unfolding build_ws_auth header_text
build_ws_auth-header_text A key header_name scheme k n (inl e) = (
  bearer key,
  build_ws_auth-bearer key header_name scheme k n e,
  A.text-bearer key ∙ sym (header_text-bearer key scheme e),
)
build_ws_auth-header_text A key header_name scheme k n (inr e) =
    elim (Bool-cases (str_eq scheme "")) [
      | inl empty ↦ (raw key, ground (arith, eq_iff key ""), ground (arith, A.text-raw key))
      | inr there ↦ (
        raw (scheme <> " " <> key),
        ground (arith, eq_iff key ""),
        ground (arith, A.text-raw (scheme <> " " <> key)),
      )
    ]
