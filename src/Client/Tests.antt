-- ===== src/Client/Tests.antt =====
-- `displayOrderBook` of websocket_client.cpp on a book of two asks and a bid.
use deribit_trading_system.Base.{ℕ, true, List, [], ◌∷◌, zero, suc, replicate, length, ◌+◌, false}
use deribit_trading_system.Base.Outcome.{Outcome, ok, throws, type_error}
use deribit_trading_system.Text.{Bytes, txt, beq}
use deribit_trading_system.Samples.Trees.{
  Tree, Items, Fields, number, sequence, dict, item, done, field, end, empty, plain_numbers,
  tree_nlohmann,
}
use deribit_trading_system.Samples.Streams.{stored}
use deribit_trading_system.Client.{Env}

abbrev member : Bytes → Fields → Outcome Tree
member k end = throws type_error
member k (field j t fs) = let rest = member k fs in elim (beq j k) [ true ↦ ok t | false ↦ rest ]

abbrev field_of : Tree → Bytes → Outcome Tree
field_of (dict fs) k = member k fs
field_of _ k = throws type_error

abbrev nth : Items → ℕ → Outcome Tree
nth done i = throws type_error
nth (item t ts) zero = ok t
nth (item t ts) (suc i) = nth ts i

abbrev item_of : Tree → ℕ → Outcome Tree
item_of (sequence ts) i = nth ts i
item_of _ i = throws type_error

abbrev all : Items → List Tree
all done = []
all (item t ts) = t ∷ all ts

abbrev elements_of : Tree → List Tree
elements_of (sequence ts) = all ts
elements_of t = t ∷ []

abbrev pub sample : Env
sample = record {
  numbers = plain_numbers;
  nlohmann = tree_nlohmann;
  inflater = stored;
  field = field_of;
  item = item_of;
  elements = elements_of;
  has_int64 = λ t. true;
  outbuffer = replicate 8 0;
  rounds = λ s. length s + 1;
}

abbrev level : Bytes → Bytes → Tree
level price amount = sequence (item (number price) (item (number amount) done))

abbrev pub asks : Tree
asks = sequence (item (level (txt "61") (txt "5")) (item (level (txt "62") (txt "7")) done))

abbrev pub bids : Tree
bids = sequence (item (level (txt "60") (txt "1")) done)

abbrev pub book : Tree
book = dict (field (txt "asks") asks (field (txt "bids") bids end))

abbrev pub entry : ℕ → Tree → Tree
entry i t = elim (item_of t i) [ ok x ↦ x | _ ↦ empty ]
