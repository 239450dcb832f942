-- ===== src/Main/Cycle/Changes.antt =====
-- The main loop of src/main.rs: by how much one cycle changes the previous rate.
use concordium_euro2ccd_serv.Base.{
  ℕ, ℤ, ◌<◌, ◌≡◌, sym, subst, ◌∙◌, ◌⊎◌, inl, inr, Bool, true, none, some, List, [], ◌∷◌, length,
  All, value_of_some, arith,
}
use concordium_euro2ccd_serv.Rational.{Rational, Float}
use concordium_euro2ccd_serv.Sources.{RateHistory}
use concordium_euro2ccd_serv.Node.{Sdk, BlockItem}
use concordium_euro2ccd_serv.Node.Retries.{last_seq}
use concordium_euro2ccd_serv.Main.Cycle.{Thresholds, Service, Around, main_cycle}
use concordium_euro2ccd_serv.Main.Cycle.Safety.{WithinHalt, main_cycle-IsJustified}
use concordium_euro2ccd_serv.Main.Cycle.Confirmed.{main_cycle_confirmed}

-- With a last sequence number there is a first item.
first_item :
    (sdk : Sdk) (P : BlockItem sdk → Type 0) (items : List (BlockItem sdk))
    (seq : sdk.UpdateSequenceNumber)
    → last_seq sdk none items ≡ some seq
    → All P items
    → (item : BlockItem sdk) × P item × (0 < length items)
first_item sdk P [] seq e all = cc
first_item sdk P (item ∷ items) seq e all = (item, all.0, omega arith)

module _ (num : Rational) (float : Float num) (gcd : ℤ → ℤ → ℕ) (sdk : Sdk)
    (endpoint : List sdk.Endpoint) (thresholds : Thresholds num) (db_conn_pool : Bool) where
  open num use {Q, lt}

  -- A cycle keeps the previous rate, or changes it within the halt thresholds and sends an item.
  pub main_cycle-WithinHalt :
      (a : Around num float gcd sdk) (hs : List (RateHistory Q)) (s : Service num float gcd sdk)
      → lt num.zero s.prev_rate ≡ true
      → let t = main_cycle num float gcd sdk endpoint thresholds db_conn_pool a hs s in
        (t.service.prev_rate ≡ s.prev_rate)
        ⊎ (WithinHalt num thresholds s.prev_rate t.service.prev_rate × (0 < length t.items))
  main_cycle-WithinHalt a hs s p =
      elim (main_cycle_confirmed num float gcd sdk endpoint thresholds db_conn_pool a hs s) [
        | inl (same, _) ↦ inl same
        | inr (_, derived, seq, last, _) ↦
            let (item, (rate, from, _, within), sent) = first_item sdk _ _ seq last (
              main_cycle-IsJustified num float gcd sdk endpoint thresholds db_conn_pool a hs s p) in
            inr (
              subst (WithinHalt num thresholds s.prev_rate) (value_of_some (sym from ∙ derived))
                  within,
              sent,
            )
      ]
