-- ===== src/System/FirstUpdate.antt =====
-- src/main.rs and src/sources.rs together: the first update of a service, from its options.
use concordium_euro2ccd_serv.Base.{
  ℕ, ℤ, ◌≤◌, ◌<◌, ◌≡◌, ap, Bool, none, some, [], ◌∷◌, map, String, ok, arith,
}
use concordium_euro2ccd_serv.Rational.{Rational, Float}
use concordium_euro2ccd_serv.Sources.{Source}
use concordium_euro2ccd_serv.Sources.Request.{Serde}
use concordium_euro2ccd_serv.Sources.Pull.{Round}
use concordium_euro2ccd_serv.Sources.Pull.History.{accepted}
use concordium_euro2ccd_serv.Node.{Sdk}
use concordium_euro2ccd_serv.Node.Retries.{last_seq}
use concordium_euro2ccd_serv.Main.Options.{App, chosen_sources}
use concordium_euro2ccd_serv.Main.Cycle.{finalized, went_on, Service, Around}
use concordium_euro2ccd_serv.Main.Cycle.Allowed.{Allowed}
use concordium_euro2ccd_serv.Main.Cycle.Delivery.{Delivers}
use concordium_euro2ccd_serv.Main.Start.{ChainParameters, version, Setup, thresholds_of, start}
use concordium_euro2ccd_serv.Main.Start.Entry.{start-Started, enter-fresh}
use concordium_euro2ccd_serv.System.{System}
use concordium_euro2ccd_serv.System.EndToEnd.{first_cycle, spawn_updates}
use concordium_euro2ccd_serv.System.Program.{is_some, Runs, start-IsPositive}

module _ (num : Rational) (float : Float num) (gcd : ℤ → ℤ → ℕ) (sdk : Sdk) (serde : Serde float.F)
    (test_label : ℕ → String) (lock_file : Bool) (app : App) (setup : Setup num float gcd sdk) where
  open num use {from_integer, mul}

  start-last_update_timestamp :
      (s : Service num float gcd sdk)
      → start num float gcd sdk test_label lock_file app setup ≡ ok s
      → s.last_update_timestamp ≡ 1
  start-last_update_timestamp s started =
      let w = start-Started num float gcd sdk test_label lock_file app setup s started in
      let (_, _, fresh) =
        enter-fresh num float gcd sdk setup lock_file w.source w.found s w.entered in
      ap (λ (x : Service num float gcd sdk). x.last_update_timestamp) fresh

  -- The first cycle with the nodes, thresholds, database and number of rates of the options.
  abbrev pub first_update :
      Source
      → Round num float serde
      → Around num float gcd sdk
      → Service num float gcd sdk
      → System num float gcd sdk serde
  first_update source r a s =
      first_cycle num float gcd sdk serde (map setup.endpoint app.endpoint)
        (thresholds_of num float gcd sdk app) (is_some app.database_url) app.max_rates_saved
        test_label app source r a s

  -- A program that has started with a signer and one source, with any options that keep at least one
  -- rate, and with nodes that report rates with positive numerators only, updates the rate in its first
  -- cycle: a round of the source that takes a rate in after time zero, the read of the history and the
  -- rest of the cycle are a run of it, after which the main loop goes on, a million times that rate is
  -- the previous rate, something was sent, and the sequence number is the one after that of the last
  -- block item sent; provided that the halt thresholds of the options allow the rate from the one that
  -- was on the chain at the start, and some node of the options, after others that are lost, accepts the
  -- update, which is reported finalized.
  pub program_updates :
      (s : Service num float gcd sdk) (signer : sdk.Signer) (source : Source)
      (r : Round num float serde) (rate : num.Q) (a : Around num float gcd sdk)
      → ((c : sdk.Client) (parameters : ChainParameters setup.UpdateKeys)
          → setup.parameters c ≡ some parameters
          → 0 < (version parameters).micro_ccd_per_euro.numerator)
      → start num float gcd sdk test_label lock_file app setup ≡ ok s
      → s.signer ≡ some signer
      → chosen_sources test_label app ≡ source ∷ []
      → 1 ≤ app.max_rates_saved
      → accepted num float serde source app.max_rates_saved (is_some app.database_url) r ≡ some rate
      → 0 < r.now
      → Allowed num
          (thresholds_of num float gcd sdk app)
          s.prev_rate
          (mul rate (from_integer 1000000))
      → Delivers num float gcd sdk (map setup.endpoint app.endpoint) a.visits
      → a.finality ≡ finalized
      → let t = first_update source r a s in
        Runs num float gcd sdk serde test_label lock_file app setup s t
        × (t.status ≡ went_on)
        × (t.service.prev_rate ≡ mul rate (from_integer 1000000))
        × (seq : sdk.UpdateSequenceNumber) × (last_seq sdk none t.items ≡ some seq)
        × (t.service.seq_number ≡ sdk.next seq)
  program_updates s signer source r rate a positive started signs one enough reads late allowed
        delivers final =
      let begins = start-last_update_timestamp s started in
      spawn_updates num float gcd sdk serde (map setup.endpoint app.endpoint)
        (thresholds_of num float gcd sdk app) (is_some app.database_url) app.max_rates_saved
        test_label app source r rate a signer s one enough reads late (omega (arith, begins, late))
        signs
        (start-IsPositive num float gcd sdk serde test_label lock_file app setup s positive started)
        allowed delivers final
