-- ===== src/Engine/Error.antt =====
-- An anyhow::Error as far as the server looks at it: the text that it displays.
use gb_mahjong_server_rust.Prelude.{String, Result, ok, err}

pub record AnyhowError : Type 0 where
  pub display : String

-- `result.with_context(..)`, where `add_context` is what anyhow does to an error.
unfoldable pub with_context :
    {A : Type 0}
    → (String → AnyhowError → AnyhowError)
    → String
    → Result AnyhowError A
    → Result AnyhowError A
with_context add_context text (ok a) = ok a
with_context add_context text (err e) = err (add_context text e)
