-- ===== src/Json/Tests.antt =====
-- The conversion of utils.cpp at trees.
use deribit_trading_system.Base.{◌≡◌, refl, arith}
use deribit_trading_system.Base.Outcome.{ok}
use deribit_trading_system.Text.{txt, c_str}
use deribit_trading_system.Json.{rapidjson_to_nlohmann}
use deribit_trading_system.Json.Convert.{convert-total}
use deribit_trading_system.Json.Entries.{latest, convert-entry}
use deribit_trading_system.Json.Kinds.{convert-kind}
use deribit_trading_system.Samples.Trees.{
  Tree, number, text, sequence, dict, done, item, end, field, tree_rapid, tree_nlohmann,
  tree_document, tree_container,
}
use deribit_trading_system.Samples.Kinds.{tree_tested, tree_typed}

-- Two members of one name: the last one counts.
abbrev doubled : Tree
doubled = dict (field (txt "a") (number (txt "1")) (field (txt "a") (number (txt "2")) end))

abbrev converted : Tree
converted = dict (field (txt "a") (number (txt "2")) (field (txt "a") (number (txt "1")) end))

abbrev row : Tree
row = sequence (item (text (txt "x")) (item (number (txt "3")) done))

convert-total_example :
    (x : Tree) × (rapidjson_to_nlohmann tree_rapid tree_nlohmann 9 doubled ≡ ok x)
convert-total_example = convert-total tree_rapid tree_nlohmann tree_document 9 doubled (omega arith)

convert-entry_example :
    tree_container.entry converted (txt "a")
    ≡ latest tree_rapid tree_nlohmann tree_container
        (rapidjson_to_nlohmann tree_rapid tree_nlohmann 1)
        (txt "a")
        (tree_rapid.members doubled)
unfolding rapidjson_to_nlohmann c_str
convert-entry_example =
    convert-entry tree_rapid tree_nlohmann tree_container 1 doubled converted refl refl (txt "a")

convert-kind_example : tree_typed.type converted ≡ tree_tested.kind doubled
unfolding rapidjson_to_nlohmann c_str
convert-kind_example =
    convert-kind tree_rapid tree_nlohmann tree_tested tree_typed 9 doubled converted refl
