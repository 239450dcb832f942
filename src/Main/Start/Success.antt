-- ===== src/Main/Start/Success.antt =====
-- src/main.rs: when the service starts wet.
use concordium_euro2ccd_serv.Base.{
  ℕ, ℤ, ◌≤◌, ◌<◌, ◌≡◌, ◌≢◌, refl, ap, ◌∙◌, inl, inr, true, false, some, List, [], map, String,
  Result, ok, ◌>>=◌, map_err, arith,
}
use concordium_euro2ccd_serv.Rational.{Rational, Float}
use concordium_euro2ccd_serv.Keys.{KeyError}
use concordium_euro2ccd_serv.Keys.Loading.{
  get_governance_from_aws-ok_iff, get_governance_from_file-ok_iff,
}
use concordium_euro2ccd_serv.Node.{Sdk, get_node_client}
use concordium_euro2ccd_serv.Main.Options.{
  App, check_thresholds-ok_iff, chosen_sources, check_sources, KeySource, aws, files, choose_keys,
}
use concordium_euro2ccd_serv.Main.Cycle.{Service}
use concordium_euro2ccd_serv.Main.Start.{
  ChainParameters, version, StartFault, refused, database, metrics, no_client, query,
  zero_denominator, could_not_obtain_keys, no_signer, demand, ok_or, Setup, open_database, Found,
  initial_rate, fresh_service, sign, enter, start,
}
use concordium_euro2ccd_serv.Main.Start.Signing.{OptionKeys}

bind_ok :
    {A B : Type 0} (r : Result StartFault A) (f : A → Result StartFault B) (a : A)
    → r ≡ ok a
    → (r >>= f) ≡ f a
bind_ok r f a e = ap (λ x. x >>= f) e

choose_keys-files :
    (app : App)
    → app.dry_run ≡ false
    → app.local_keys ≢ []
    → choose_keys false app ≡ ok (files app.local_keys)
unfolding choose_keys
choose_keys-files app wet ne = ground arith

choose_keys-aws :
    (app : App)
    → app.dry_run ≡ false
    → app.local_keys ≡ []
    → app.secret_names ≢ []
    → choose_keys false app ≡ ok (aws app.region app.secret_names)
unfolding choose_keys
choose_keys-aws app wet none_local ne = ground arith

check_sources-ok :
    (test_label : ℕ → String) (app : App)
    → chosen_sources test_label app ≢ []
    → check_sources test_label app ≡ ok tt
unfolding check_sources
check_sources-ok test_label app ne = ground arith

module _ (num : Rational) (float : Float num) (gcd : ℤ → ℤ → ℕ) (sdk : Sdk) (app : App)
    (setup : Setup num float gcd sdk) where
  -- With a signer from the loaded keys the service starts.
  sign-ok :
      (found : Found num float gcd sdk setup) (kps : List setup.UpdateKeyPair) (signer : sdk.Signer)
      (loaded : Result (KeyError setup.Error) (List setup.UpdateKeyPair))
      → loaded ≡ ok kps
      → setup.construct_update_signer (version found.parameters).common_update_keys kps
        ≡ some signer
      → sign num float gcd sdk setup false found loaded
        ≡ ok (record (fresh_service num float gcd sdk setup false found) { signer = some signer })
  unfolding sign
  sign-ok found kps signer loaded loads signs =
      bind_ok _ _ kps (ap (map_err (λ e. could_not_obtain_keys)) loads)
      ∙ bind_ok _ _ signer (ap (λ o. ok_or o no_signer) signs)

  enter-ok :
      (found : Found num float gcd sdk setup) (kps : List setup.UpdateKeyPair) (signer : sdk.Signer)
      → app.dry_run ≡ false
      → OptionKeys num float gcd sdk app setup kps
      → setup.construct_update_signer (version found.parameters).common_update_keys kps
        ≡ some signer
      → (source : KeySource) × (choose_keys false app ≡ ok source)
        × (enter num float gcd sdk setup false source found
            ≡ ok (record (fresh_service num float gcd sdk setup false found) {
              signer = some signer;
            }))
  unfolding enter
  enter-ok found kps signer wet (inl (ne, reads)) signs = (
    files app.local_keys,
    choose_keys-files app wet ne,
    sign-ok found kps signer _
        ((get_governance_from_file-ok_iff setup.open_file setup.from_reader app.local_keys kps).1
          reads)
        signs,
  )
  enter-ok found kps signer wet (inr (none_local, ne, reads)) signs = (
    aws app.region app.secret_names,
    choose_keys-aws app wet none_local ne,
    sign-ok found kps signer _
        ((get_governance_from_aws-ok_iff (setup.get_secret_value app.region) setup.from_str
            app.secret_names kps).1
          reads)
        signs,
  )

  -- The service starts, with the signer that the update keys on chain give for the key pairs of the
  -- options, if: there is a node, the warning thresholds are below the halt thresholds, and that of
  -- decreases lies between 1 and 100; the database opens, if there is a URL; the metrics start; a
  -- node can be reached, answers with its chain parameters and its next sequence number, and its rate
  -- has a denominator above 0; there is a source; the options ask for no dry run and the lock file does
  -- not exist; and the key pairs of the options are read.
  pub start_wet :
      (test_label : ℕ → String) (tables : setup.Tables) (client : sdk.Client)
      (parameters : ChainParameters setup.UpdateKeys) (seq_number : sdk.UpdateSequenceNumber)
      (kps : List setup.UpdateKeyPair) (signer : sdk.Signer)
      → app.endpoint ≢ []
      → app.warning_increase_threshold < app.halt_increase_threshold
      → 1 ≤ app.halt_decrease_threshold
      → app.halt_decrease_threshold ≤ 100
      → app.warning_decrease_threshold < app.halt_decrease_threshold
      → open_database num float gcd sdk setup app.database_url ≡ ok tables
      → setup.starts_metrics ≡ true
      → get_node_client sdk setup.connect (map setup.endpoint app.endpoint) ≡ some client
      → setup.parameters client ≡ some parameters
      → setup.next_seq client ≡ some seq_number
      → 0 < (version parameters).micro_ccd_per_euro.denominator
      → chosen_sources test_label app ≢ []
      → app.dry_run ≡ false
      → OptionKeys num float gcd sdk app setup kps
      → setup.construct_update_signer (version parameters).common_update_keys kps ≡ some signer
      → (s : Service num float gcd sdk) × (start num float gcd sdk test_label false app setup
          ≡ ok s)
        × (s.signer ≡ some signer)
        × (s.node_client ≡ client)
        × (s.seq_number ≡ seq_number)
  unfolding start initial_rate
  start_wet test_label tables client parameters seq_number kps signer node rise low high fall opened
        metered connected queried numbered den sourced wet keys signs =
      let rate = (version parameters).micro_ccd_per_euro in
      let (prev_rate, rated) =
        num.div_some (num.from_integer rate.numerator) (num.from_integer rate.denominator)
          (num.from_pos rate.denominator den) in
      let found : Found num float gcd sdk setup = record {
        tables = tables;
        client = client;
        parameters = parameters;
        seq_number = seq_number;
        prev_rate = prev_rate;
      } in
      let (source, chosen, entered) = enter-ok found kps signer wet keys signs in
      (
        record (fresh_service num float gcd sdk setup false found) { signer = some signer },
        bind_ok _ _ tt
              (ap (map_err refused) ((check_thresholds-ok_iff app).1 (node, rise, low, high, fall)))
            ∙ bind_ok _ _ tables (ap (map_err database) opened)
            ∙ bind_ok _ _ tt (ap (λ b. demand b metrics) metered)
            ∙ bind_ok _ _ client (ap (λ o. ok_or o no_client) connected)
            ∙ bind_ok _ _ parameters (ap (λ o. ok_or o query) queried)
            ∙ bind_ok _ _ seq_number (ap (λ o. ok_or o query) numbered)
            ∙ bind_ok _ _ prev_rate (ap (λ o. ok_or o zero_denominator) rated)
            ∙ bind_ok _ _ tt (ap (map_err refused) (check_sources-ok test_label app sourced))
            ∙ bind_ok _ _ source (ap (map_err refused) chosen)
            ∙ entered,
        refl,
        refl,
        refl,
      )
