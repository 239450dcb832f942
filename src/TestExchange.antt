-- ===== src/TestExchange.antt =====
-- test_exchange/src/main.rs: the server that stands in for an exchange in tests, as the state that its
-- four routes share and a function per route. JSON values are a parameter, and so is the one that
-- a float becomes. The web server around them is not modelled.
pub mod Queue
pub mod Session
mod Tests
use concordium_euro2ccd_serv.Base.{ℕ, zero, suc, List, [], ◌∷◌, ◌++◌}

-- The options.
pub record Options (F : Type 0) : Type 0 where
  pub port : ℕ
  pub resort_value : F

module _ {Value F : Type 0} (json : F → Value) where
  -- The queue of values, the first first, and the value to resort to.
  pub record Exchange : Type 0 where
    pub rates : List Value
    pub resort_value : F

  -- The state as the server starts.
  abbrev pub start : Options F → Exchange
  start opt = record { rates = []; resort_value = opt.resort_value }

  -- GET rate: the answer is a list with one value.
  unfoldable pub serve_rate : Exchange → List Value × Exchange
  serve_rate e = elim e.rates [
    | [] ↦ (json e.resort_value ∷ [], e)
    | v ∷ vs ↦ (v ∷ [], record e { rates = vs })
  ]

  -- POST add
  unfoldable pub add_rates : List Value → Exchange → Exchange
  add_rates new_rates e = record e { rates = e.rates ++ new_rates }

  -- PUT update-resort
  unfoldable pub change_resort : F → Exchange → Exchange
  change_resort new_resort e = record e { resort_value = new_resort }

  -- PUT reset
  unfoldable pub reset_rates : Exchange → Exchange
  reset_rates e = record e { rates = [] }

  -- A request to one of the routes.
  pub data Request : Type 0 where
    get_rate reset : Request
    add : List Value → Request
    update_resort : F → Request

  -- `warp::serve`: the requests are answered one after the other, and the rates served are collected.
  pub serve : List Request → Exchange → List (List Value) × Exchange
  serve [] e = ([], e)
  serve (get_rate ∷ rs) e =
      let (answer, e') = serve_rate e in
      let (answers, last) = serve rs e' in (answer ∷ answers, last)
  serve (reset ∷ rs) e = serve rs (reset_rates e)
  serve (add new_rates ∷ rs) e = serve rs (add_rates new_rates e)
  serve (update_resort new_resort ∷ rs) e = serve rs (change_resort new_resort e)
