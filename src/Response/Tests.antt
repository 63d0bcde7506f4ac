-- ===== src/Response/Tests.antt =====
-- Header stripping of order_management.cpp at short replies.
use deribit_trading_system.Base.{
  ◌≡◌, refl, List, [], ◌∷◌, ◌++◌, ltb, if◌then◌else◌, length, drop, arith,
}
use deribit_trading_system.Base.Outcome.{ok, throws, out_of_range}
use deribit_trading_system.Text.{Bytes, txt, find, substr}
use deribit_trading_system.Response.{separator, extract_body, strip_headers}
use deribit_trading_system.Response.Body.{header, body-header, body_unseparated}

abbrev status : Bytes
status = txt "HTTP/2 200"

abbrev lines : List Bytes
lines = txt "server: x" ∷ []

body-header_example :
    (extract_body (header status lines ++ (separator ++ txt "{}")) ≡ ok (txt "{}"))
    × (strip_headers (header status lines ++ (separator ++ txt "{}")) ≡ ok (txt "{}"))
unfolding header
body-header_example = body-header status lines (txt "{}") (omega arith) (omega arith)

body_unseparated_example :
    (extract_body (txt "{\"a\":1}") ≡ (
      if ltb (length (txt "{\"a\":1}")) 3
      then throws out_of_range
      else ok (drop 3 (txt "{\"a\":1}"))))
    × (strip_headers (txt "{\"a\":1}") ≡ ok (txt "{\"a\":1}"))
unfolding find
body_unseparated_example = body_unseparated (txt "{\"a\":1}") refl

-- The body of a short reply with no header.
short_reply_throws : extract_body (txt "{}") ≡ throws out_of_range
unfolding extract_body find substr
short_reply_throws = refl
