-- ===== src/Orders/Map.antt =====
-- `std::unordered_map<std::string, nlohmann::json>`, with the address at which each value lies.
pub mod Laws
use deribit_trading_system.Base.{
  ℕ, Bool, false, ◌==◌, ◌||◌, List, [], ◌∷◌, Option, none, some, if◌then◌else◌,
}
use deribit_trading_system.Text.{Bytes, beq}

pub record Entry (J : Type 0) : Type 0 where
  pub key : Bytes
  pub address : ℕ
  pub value : J

module _ {J : Type 0} where
  unfoldable pub find : Bytes → List (Entry J) → Option (Entry J)
  find k [] = none
  find k (e ∷ es) = if beq e.key k then some e else find k es

  unfoldable pub erase : Bytes → List (Entry J) → List (Entry J)
  erase k [] = []
  erase k (e ∷ es) = if beq e.key k then es else e ∷ erase k es

  overwrite : Bytes → J → List (Entry J) → List (Entry J)
  overwrite k v [] = []
  overwrite k v (e ∷ es) = if beq e.key k then record e { value = v } ∷ es else e ∷ overwrite k v es

  -- Whether a value of the map lies at an address, and what becomes of it when another one is
  -- constructed there.
  unfoldable pub lies_at : ℕ → List (Entry J) → Bool
  lies_at ptr [] = false
  lies_at ptr (e ∷ es) = (e.address == ptr) || lies_at ptr es

  unfoldable pub put_at : ℕ → J → List (Entry J) → List (Entry J)
  put_at ptr v [] = []
  put_at ptr v (e ∷ es) =
      record e { value = if e.address == ptr then v else e.value } ∷ put_at ptr v es

  -- `orders[k] = v`: a missing key gets a new node.
  module _ {W : Type 0} (new_node : W → ℕ × W) where
    unfoldable pub assign : Bytes → J → List (Entry J) → W → List (Entry J) × W
    unfolding overwrite
    assign k v es w = elim (find k es) [
      | some e ↦ (overwrite k v es, w)
      | none ↦ let (a, w') = new_node w in (record { key = k; address = a; value = v } ∷ es, w')
    ]
