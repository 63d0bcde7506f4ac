-- ===== src/Orders/Tests.antt =====
-- The methods of `OrderAPI` in a scripted world.
use deribit_trading_system.Base.{◌≡◌, refl, Bool, true, false, List, [], ◌∷◌, ◌++◌, none, arith}
use deribit_trading_system.Base.Outcome.{ok, aborts}
use deribit_trading_system.Text.{Bytes, txt, find, substr, beq, c_str}
use deribit_trading_system.Json.{rapidjson_to_nlohmann, parse_json_response}
use deribit_trading_system.Pool
use deribit_trading_system.Pool.{MemoryPool}
use deribit_trading_system.Connection.{get_curl_handle}
use deribit_trading_system.Curl.{deliver}
use deribit_trading_system.Http.{perform_curl_request, request_on, retry}
use deribit_trading_system.Token.{get_access_token}
use deribit_trading_system.Response.{separator, extract_body, is_gzip}
use deribit_trading_system.Orders.Map.{Entry, lies_at, find as find_entry}
use deribit_trading_system.Orders.{Api, access_token, send, unzip, read_body, record_order}
use deribit_trading_system.Orders.Record.{Recorded}
use deribit_trading_system.Orders.Place.{
  has_order, order_of, order_id_of, settle_place, place_order, place_url,
}
use deribit_trading_system.Orders.Place.Laws.{Names, settle_place-Recorded}
use deribit_trading_system.Orders.Cancel.{is_refused, settle_cancel}
use deribit_trading_system.Orders.Cancel.Laws.{Forgotten, settle_cancel-Forgotten}
use deribit_trading_system.Orders.Modify.{settle_modify}
use deribit_trading_system.Orders.Modify.Laws.{Shows, settle_modify-Recorded}
use deribit_trading_system.Orders.Market.{settle_book}
use deribit_trading_system.Orders.Faults.{Asserts, not_object-aborts}
use deribit_trading_system.Orders.Url.{query, place_url-query}
use deribit_trading_system.Samples.{sample_env}
use deribit_trading_system.Samples.Trees.{
  Tree, empty, number, text, dict, end, field, is_dict, sample_order, placed_document,
  token_document, has_in,
}

abbrev three_blocks : MemoryPool
three_blocks = record {
  block_size = 16;
  block_count = 3;
  free_blocks = 4128 ∷ 4112 ∷ 4096 ∷ [];
  memory = 4096;
}

abbrev api : List (Bool × List Bytes) → MemoryPool → List (Entry Tree) → Api sample_env
api replies pool orders = record {
  manager = record {
    pool_size = 1;
    curl_pool = 7 ∷ [];
    free_handles = 7 ∷ [];
    buffer_pool = pool;
    settings = λ _. [];
  };
  tokens = record {
    client_id = txt "me";
    client_secret = txt "pw";
    access_token = txt "tok";
    expiry_time = 4000;
  };
  order_pool = pool;
  orders = orders;
  placed = [];
  stray = [];
  world = record { replies = replies; time = 5; next = 9000 };
}

-- What the sample order converts to: the fields are put in one by one.
abbrev booked : Tree
booked =
    dict
      (field (txt "amount") (number (txt "40")) (field (txt "order_id") (text (txt "ETH-1")) end))

abbrev entry : Entry Tree
entry = record { key = txt "ETH-1"; address = 9000; value = booked }

abbrev pub ready : Api sample_env
ready = api ((true, (txt "HTTP/2 200" ++ (separator ++ txt "placed")) ∷ []) ∷ []) three_blocks []

abbrev drained : Api sample_env
drained = record ready { order_pool = record three_blocks { free_blocks = [] } }

abbrev offline : Api sample_env
offline = api [] three_blocks (entry ∷ [])

-- A whole order, from the reply to the map.
place_order_runs :
    (place_order sample_env (txt "ETH") (txt "40") (txt "0") (txt "l") [] (txt "market") ready).0
    ≡ ok (true, txt "ETH-1")
unfolding place_order access_token get_access_token send perform_curl_request request_on retry
    get_curl_handle deliver read_body extract_body find substr unzip is_gzip parse_json_response
    c_str beq settle_place has_order order_of order_id_of record_order Pool.allocate
    rapidjson_to_nlohmann
place_order_runs = refl

named : Names sample_env true placed_document sample_order (txt "ETH-1")
unfolding has_order order_of order_id_of beq c_str
named = record { there = refl; order_is = refl; id_is = refl }

settle_place-Recorded_example :
    let (o, a') = settle_place sample_env [] (true, placed_document) ready in
    (o ≡ ok (true, txt "ETH-1"))
    × Recorded sample_env (txt "ETH-1") sample_order ready 4128 (4112 ∷ 4096 ∷ []) booked a'
unfolding rapidjson_to_nlohmann c_str lies_at
settle_place-Recorded_example =
    settle_place-Recorded sample_env [] true placed_document sample_order (txt "ETH-1") ready 4128
      (4112 ∷ 4096 ∷ []) booked named refl refl (record { inside = refl; apart = refl })

settle_cancel-Forgotten_example :
    let (o, a') = settle_cancel sample_env (txt "ETH-1") (true, token_document) offline in
    (o ≡ ok true) × Forgotten sample_env (txt "ETH-1") entry offline a'
unfolding is_refused find_entry beq
settle_cancel-Forgotten_example =
    settle_cancel-Forgotten sample_env (txt "ETH-1") true token_document entry offline refl refl
      (refl, tt)

shown :
    Shows sample_env true placed_document (dict (field (txt "order") sample_order end)) sample_order
unfolding is_refused beq
shown = record { accepted = refl; result_is = refl; there = refl; order_is = refl }

settle_modify-Recorded_example :
    let (o, a') = settle_modify sample_env (txt "ETH-1") (true, placed_document) offline in
    (o ≡ ok true)
    × Recorded sample_env (txt "ETH-1") sample_order offline 4128 (4112 ∷ 4096 ∷ []) booked a'
unfolding rapidjson_to_nlohmann c_str lies_at
settle_modify-Recorded_example =
    settle_modify-Recorded sample_env (txt "ETH-1") true placed_document
      (dict (field (txt "order") sample_order end)) sample_order offline 4128 (4112 ∷ 4096 ∷ [])
      booked shown refl refl (record { inside = refl; apart = refl })

object_only : (v : Tree) (k : Bytes) → is_dict v ≡ false → has_in v k ≡ none
object_only (dict fs) k h = cc
object_only v k h = refl

abbrev asserts : Asserts sample_env
asserts = record { fresh_null = refl; object_only = object_only }

not_object-aborts_example :
    (settle_place sample_env [] (false, empty) ready ≡ (aborts, ready))
    × (settle_cancel sample_env [] (false, empty) ready ≡ (aborts, ready))
    × (settle_modify sample_env [] (false, empty) ready ≡ (aborts, ready))
    × (settle_book sample_env (false, empty) ≡ ok empty)
not_object-aborts_example = not_object-aborts sample_env asserts [] ready false empty refl

place_url-query_example :
    (query (place_url sample_env (txt "ETH") (txt "40") (txt "6000") (txt "l") (txt "market"))
      ≡ (txt "amount", txt "40")
        ∷ (txt "instrument_name", txt "ETH")
        ∷ (txt "label", txt "l")
        ∷ (txt "type", txt "market")
        ∷ [])
    × (query (place_url sample_env (txt "ETH") (txt "40") (txt "6000") (txt "l") (txt "limit"))
        ≡ (txt "amount", txt "40")
          ∷ (txt "instrument_name", txt "ETH")
          ∷ (txt "label", txt "l")
          ∷ (txt "type", txt "limit")
          ∷ (txt "price", txt "6000")
          ∷ [])
place_url-query_example =
    place_url-query sample_env (txt "ETH") (txt "40") (txt "6000") (txt "l") (omega arith)
      (omega arith) (omega arith) (omega arith)
