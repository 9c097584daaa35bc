-- ===== src/Provider/Json/Parse/Spelled.antt =====
-- What `json::parse` accepts is spelled as the value that it returns, between white space.
use llmbridge.Base.{◌≡◌, []}
use llmbridge.Base.Bytes.{Bytes}
use llmbridge.Provider.Json.Tokens.{Value, skip_ws}
use llmbridge.Provider.Json.Parse.Grammar.{Reads}

-- What stands before and behind a document: white space only.
pub record IsDocument (text : Bytes) (v : Value) : Type 0 where
  pub rest : Bytes
  pub is_read : Reads (skip_ws text) v rest
  pub is_done : skip_ws rest ≡ []
