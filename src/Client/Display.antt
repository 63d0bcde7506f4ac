-- ===== src/Client/Display.antt =====
-- What `displayOrderBook` of websocket_client.cpp prints.
use mathlib.Core.List.{append-nil, append_assoc}
use deribit_trading_system.Base.{◌≡◌, sym, ap, ◌∙◌, List, [], ◌∷◌, ◌++◌, map, All}
use deribit_trading_system.Base.Outcome.{M, bind_ok, ok, raise, ◌>>=◌}
use deribit_trading_system.Text.{Bytes, txt}
use deribit_trading_system.Client.{Env, Json, Row, display_side, display_order_book}

module _ (e : Env) (price amount : Json e → Json e) where
  abbrev pub row : Bytes → Json e → Row e
  row side level = record { price = price level; amount = amount level; side = side }

  abbrev pub IsQuoted : Json e → Type 0
  IsQuoted level = (e.item level 0 ≡ ok (price level)) × (e.item level 1 ≡ ok (amount level))

  display_side-rows :
      (side : Bytes) (levels : List (Json e)) (rows : List (Row e))
      → All IsQuoted levels
      → display_side e side levels rows ≡ (ok tt, rows ++ map (row side) levels)
  unfolding display_side
  display_side-rows side [] rows h = ap (λ r. (ok tt, r)) (sym (append-nil rows))
  display_side-rows side (level ∷ levels) rows h = rw h.0.0 (
      rw h.0.1 (
        display_side-rows side levels (rows ++ (row side level ∷ [])) h.1
        ∙ ap (λ r. (ok tt, r)) (append_assoc rows (row side level ∷ []) (map (row side) levels))))

  -- Where each level of a message has a price and an amount, the asks are printed, one row each, and
  -- then the bids, in the order of the message.
  pub display_order_book-rows :
      (book asks bids : Json e) (rows : List (Row e))
      → e.field book (txt "asks") ≡ ok asks
      → e.field book (txt "bids") ≡ ok bids
      → All IsQuoted (e.elements asks)
      → All IsQuoted (e.elements bids)
      → display_order_book e book rows ≡ (
        ok tt,
        rows
            ++ (map (row (txt "Sell")) (e.elements asks)
                ++ map (row (txt "Buy")) (e.elements bids)),
      )
  unfolding display_order_book
  display_order_book-rows book asks bids rows asked bid h h' =
      let sells = map (row (txt "Sell")) (e.elements asks) in
      let sold = display_side-rows (txt "Sell") (e.elements asks) rows h in
      let after = ap (λ p. p.1) sold in
      let buys : M (List (Row e)) (Unit {0}) = raise (e.field book (txt "bids")) >>= λ bids.
      display_side e (txt "Buy") (e.elements bids) in
      rw asked (
        bind_ok (display_side e (txt "Sell") (e.elements asks)) (λ _. buys) rows tt
          (ap (λ p. p.0) sold)
        ∙ rw (bid, after)
            (display_side-rows (txt "Buy") (e.elements bids) (rows ++ sells) h'
              ∙ ap (λ r. (ok tt, r)) (append_assoc rows sells _)))
