-- ===== src/Backfill/Auth.antt =====
-- `build_auth_headers` of src/backfill.rs, over the parsers of header names and values of `reqwest`.
use polymarket_indexer.Prelude.{
  String, ◌<>◌, Option, none, some, List, [], ◌∷◌, str_eq, if◌then◌else◌,
}
use polymarket_indexer.Prelude.Outcome.{Result, ok, ◌>>=◌}

unfoldable pub header_text : String → String → String
header_text scheme key = if str_eq scheme "" then key else scheme <> " " <> key

module _ {Name Value : Type 0} (from_bytes : String → Result Name)
    (from_str : String → Result Value) where
  unfoldable pub build_auth_headers : Option String → String → String → Result (List (Name × Value))
  build_auth_headers key header_name header_scheme = elim key [
    | none ↦ ok []
    | some k ↦ if str_eq k "" then ok [] else do
      name ← from_bytes header_name
      value ← from_str (header_text header_scheme k)
      ok ((name, value) ∷ [])
  ]
