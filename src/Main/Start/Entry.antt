-- ===== src/Main/Start/Entry.antt =====
-- src/main.rs: what a service that has started was started with: the steps of the start and the keys.
use concordium_euro2ccd_serv.Base.{
  ok_bind, ok_value, ℕ, ℤ, ◌≡◌, sym, Bool, Option, none, some, List, map, String, Result, ok, err,
  map_err,
}
use concordium_euro2ccd_serv.Rational.{Rational, Float}
use concordium_euro2ccd_serv.Prometheus.{Stats}
use concordium_euro2ccd_serv.Keys.{KeyError}
use concordium_euro2ccd_serv.Node.{Sdk, get_node_client}
use concordium_euro2ccd_serv.Main.Options.{
  App, check_thresholds, check_sources, KeySource, dry, aws, files, choose_keys,
}
use concordium_euro2ccd_serv.Main.Cycle.{Service}
use concordium_euro2ccd_serv.Main.Start.{
  version, StartFault, refused, database, metrics, no_client, query, zero_denominator,
  could_not_obtain_keys, no_signer, demand, ok_or, Setup, open_database, Found, initial_rate,
  fresh_service, sign, enter, start,
}

ok_map_err :
    {E A : Type 0} (fault : E → StartFault) (r : Result E A) (a : A)
    → map_err fault r ≡ ok a
    → r ≡ ok a
ok_map_err fault (ok x) a h = cc
ok_map_err fault (err e) a h = cc

ok_or-some :
    {A : Type 0} (o : Option A) (fault : StartFault) (a : A) → ok_or o fault ≡ ok a → o ≡ some a
ok_or-some none fault a h = cc
ok_or-some (some x) fault a h = cc

module _ (num : Rational) (float : Float num) (gcd : ℤ → ℤ → ℕ) (sdk : Sdk) where
  -- What each step of a start gave that ended in the service s.
  pub record Started (lock_file : Bool) (app : App) (setup : Setup num float gcd sdk)
      (s : Service num float gcd sdk) : Type 0 where
    pub found : Found num float gcd sdk setup
    pub source : KeySource
    pub opened : open_database num float gcd sdk setup app.database_url ≡ ok found.tables
    pub connected :
        get_node_client sdk setup.connect (map setup.endpoint app.endpoint) ≡ some found.client
    pub queried : setup.parameters found.client ≡ some found.parameters
    pub numbered : setup.next_seq found.client ≡ some found.seq_number
    pub rated : initial_rate num float gcd sdk found.parameters ≡ some found.prev_rate
    pub chosen : choose_keys lock_file app ≡ ok source
    pub entered : enter num float gcd sdk setup lock_file source found ≡ ok s

  pub start-Started :
      (test_label : ℕ → String) (lock_file : Bool) (app : App) (setup : Setup num float gcd sdk)
      (s : Service num float gcd sdk)
      → start num float gcd sdk test_label lock_file app setup ≡ ok s
      → Started lock_file app setup s
  unfolding start
  start-Started test_label lock_file app setup s h =
      let (_, _, h1) = ok_bind (map_err refused (check_thresholds app)) _ s h in
      let (tables, opened, h2) =
        ok_bind (map_err database (open_database num float gcd sdk setup app.database_url)) _ s
          h1 in
      let (_, _, h3) = ok_bind (demand setup.starts_metrics metrics) _ s h2 in
      let (client, connected, h4) =
        ok_bind
          (ok_or (get_node_client sdk setup.connect (map setup.endpoint app.endpoint)) no_client) _
          s h3 in
      let (parameters, queried, h5) = ok_bind (ok_or (setup.parameters client) query) _ s h4 in
      let (seq_number, numbered, h6) = ok_bind (ok_or (setup.next_seq client) query) _ s h5 in
      let (prev_rate, rated, h7) =
        ok_bind (ok_or (initial_rate num float gcd sdk parameters) zero_denominator) _ s h6 in
      let (_, _, h8) = ok_bind (map_err refused (check_sources test_label app)) _ s h7 in
      let (source, chosen, h9) = ok_bind (map_err refused (choose_keys lock_file app)) _ s h8 in
      record {
        found = record {
          tables = tables;
          client = client;
          parameters = parameters;
          seq_number = seq_number;
          prev_rate = prev_rate;
        };
        source = source;
        opened = ok_map_err database _ tables opened;
        connected = ok_or-some _ no_client client connected;
        queried = ok_or-some _ query parameters queried;
        numbered = ok_or-some _ query seq_number numbered;
        rated = ok_or-some _ zero_denominator prev_rate rated;
        chosen = ok_map_err refused _ source chosen;
        entered = h9;
      }

  module _ (setup : Setup num float gcd sdk) (lock_file : Bool)
      (found : Found num float gcd sdk setup) where
    -- The service with a signer from loaded keys.
    pub record Signed (s : Service num float gcd sdk)
        (loaded : Result (KeyError setup.Error) (List setup.UpdateKeyPair)) : Type 0 where
      pub secret_keys : List setup.UpdateKeyPair
      pub loads : loaded ≡ ok secret_keys
      pub signer : sdk.Signer
      pub signs :
          setup.construct_update_signer (version found.parameters).common_update_keys secret_keys
          ≡ some signer
      pub service :
          s
          ≡ record (fresh_service num float gcd sdk setup lock_file found) { signer = some signer }

    pub sign-Signed :
        (loaded : Result (KeyError setup.Error) (List setup.UpdateKeyPair))
        (s : Service num float gcd sdk)
        → sign num float gcd sdk setup lock_file found loaded ≡ ok s
        → Signed s loaded
    unfolding sign
    sign-Signed loaded s h =
        let (secret_keys, loads, h1) =
          ok_bind (map_err (λ e. could_not_obtain_keys) loaded) _ s h in
        let (signer, signs, h2) =
          ok_bind
            (ok_or
              (setup.construct_update_signer (version found.parameters).common_update_keys
                secret_keys)
              no_signer)
            _ s h1 in
        record {
          secret_keys = secret_keys;
          loads = ok_map_err (λ e. could_not_obtain_keys) loaded secret_keys loads;
          signer = signer;
          signs = ok_or-some _ no_signer signer signs;
          service = sym (ok_value h2);
        }

  -- Whatever the mode, the service has what was found.
  pub enter-fresh :
      (setup : Setup num float gcd sdk) (lock_file : Bool) (source : KeySource)
      (found : Found num float gcd sdk setup) (s : Service num float gcd sdk)
      → enter num float gcd sdk setup lock_file source found ≡ ok s
      → (signer : Option sdk.Signer) × (stats : Stats float.F) × (s
          ≡ record (fresh_service num float gcd sdk setup lock_file found) {
            signer = signer;
            stats = stats;
          })
  unfolding enter
  enter-fresh setup lock_file dry found s h = (_, _, sym (ok_value h))
  enter-fresh setup lock_file (aws region names) found s h =
      (_, _, (sign-Signed setup lock_file found _ s h).service)
  enter-fresh setup lock_file (files paths) found s h =
      (_, _, (sign-Signed setup lock_file found _ s h).service)
