-- ===== src/Orders/Market/Step.antt =====
-- The books under `getOrderBook` of order_management.cpp.
use deribit_trading_system.Base.{[], refl, Bool, true, false, Option, none, some}
use deribit_trading_system.Base.Outcome.{Outcome, M, ok, throws, aborts, hangs, raise, pure, ◌>>=◌}
use deribit_trading_system.Text.{Bytes}
use deribit_trading_system.Json.{parse_json_response}
use deribit_trading_system.Response.{strip_headers}
use deribit_trading_system.Orders.{Env, Json, Api, send, unzip}
use deribit_trading_system.Orders.Calls.{Call, look_up}
use deribit_trading_system.Orders.Changes.{
  books, refused, stopped, Made, via, send-Change, task-Change,
}
use deribit_trading_system.Orders.Market.{
  book_url, settle_book, on_book_reply, get_order_book_data, get_order_book,
}

module _ (e : Env) where
  module _ (c : Call e) (a : Api e) where
    abbrev P : M (Api e) (Json e) → Type 0
    P m = Made e c (λ _. false) (books e a) (m a)

    raise-Change : (o : Outcome (Json e)) → P (raise o)
    raise-Change (ok book) = refused (books e a)
    raise-Change (throws x) = stopped (throws x) (books e a) refl
    raise-Change aborts = stopped aborts (books e a) refl
    raise-Change hangs = stopped hangs (books e a) refl

    settled : Option Bytes → M (Api e) (Json e)
    settled text = elim text [
      | none ↦ pure e.nlohmann.null
      | some t ↦ raise (settle_book e (parse_json_response e.rapid t))
    ]

    settled-Change : (read : Option Bytes) → P (settled read)
    unfolding settled
    settled-Change none = refused (books e a)
    settled-Change (some t) = raise-Change (settle_book e (parse_json_response e.rapid t))

    reply-Change : (reply : Bool × Bytes) → P (on_book_reply e reply)
    unfolding on_book_reply settled
    reply-Change (false, buffer) = refused (books e a)
    reply-Change (true, buffer) =
        via e c (λ _. false) (books e a) (raise (strip_headers buffer))
          (λ body. raise (unzip e body) >>= settled) a refl
          λ body.
            via e c (λ _. false) (books e a) (raise (unzip e body)) settled a refl settled-Change

  pub get_order_book-Change :
      (symbol : Bytes) (a : Api e)
      → Made e (look_up symbol) (λ _. false) (books e a) (get_order_book e symbol a)
  unfolding get_order_book get_order_book_data send
  get_order_book-Change symbol a =
      let c = look_up symbol in
      let sent = send e (book_url e symbol) [] in
      task-Change e c (λ _. false) (books e a) (get_order_book_data e symbol) a
        (send-Change e c (λ _. false) (book_url e symbol) [] (on_book_reply e) a
          (reply-Change c (sent a).1))
