-- ===== src/Main/Cycle/Recorded/Whole.antt =====
-- The main loop of src/main.rs: the rows of a submission and of a whole cycle.
use concordium_euro2ccd_serv.Base.{
  ℕ, ℤ, ◌≡◌, refl, sym, ap, ◌∙◌, Bool, Option, none, some, List, [], ◌++◌, All, Any-map, All-map,
}
use concordium_euro2ccd_serv.Rational.{Rational, Float}
use concordium_euro2ccd_serv.Helpers.{ExchangeRate, relative_change}
use concordium_euro2ccd_serv.Database.{Database}
use concordium_euro2ccd_serv.Sources.{RateHistory}
use concordium_euro2ccd_serv.Node.{Sdk}
use concordium_euro2ccd_serv.Node.Retries.{last_seq}
use concordium_euro2ccd_serv.Main.Cycle.{
  Verdict, halt, warn, fine, Thresholds, derive_rate, Service, Around, Turn, Submitted, pending,
  no_node, submitted, Submission, submit_loop, after_submission, submit, submit_converted, protect,
  on_verdict, on_change, on_rate, main_cycle,
}
use concordium_euro2ccd_serv.Main.Cycle.Safety.{HasRate, submit_loop-HasRate}
use concordium_euro2ccd_serv.Main.Cycle.Confirmed.{submit_loop-Named}
use concordium_euro2ccd_serv.Main.Cycle.Recorded.{
  IsRowOf, Grown, Grown-none, IsSent, some_last, submit_loop-db, after_finality-Grown,
}

module _ (num : Rational) (float : Float num) (gcd : ℤ → ℤ → ℕ) (sdk : Sdk)
    (endpoint : List sdk.Endpoint) where
  open num use {Q}
  open float use {F}

  module _ (thresholds : Thresholds num) (db_conn_pool : Bool) where
    after_submission-Grown :
        (a : Around num float gcd sdk) (rate : Q) (new_rate : ExchangeRate)
        (m : Submission num float gcd sdk) (o : Submitted num float gcd sdk)
        → m.outcome ≡ o
        → ((seq : sdk.UpdateSequenceNumber)
            → m.outcome ≡ submitted seq
            → last_seq sdk none m.items ≡ some seq)
        → All (HasRate num float gcd sdk endpoint new_rate) m.items
        → Grown
            (IsSent sdk m.items)
            m.service.db
            (after_submission num float gcd sdk endpoint thresholds db_conn_pool o a rate new_rate
              m.service).0.db
    unfolding after_submission
    after_submission-Grown a rate new_rate m pending e named carry =
        Grown-none (IsSent sdk m.items) m.service.db m.service.db refl
    after_submission-Grown a rate new_rate m no_node e named carry =
        Grown-none (IsSent sdk m.items) m.service.db m.service.db refl
    after_submission-Grown a rate new_rate m (submitted seq) e named carry =
        let g =
          after_finality-Grown num float gcd sdk endpoint thresholds db_conn_pool a.finality a rate
            new_rate seq m.service in
        let some_item =
          some_last {sdk = sdk} (HasRate num float gcd sdk endpoint new_rate) m.items (named seq e)
            carry in
        record {
          rows = g.rows;
          updates = g.updates;
          each =
              All-map (IsRowOf new_rate) (IsSent sdk m.items) g.rows
                (λ row r.
                  Any-map (HasRate num float gcd sdk endpoint new_rate)
                    (λ item. IsRowOf item.micro_gtu_per_euro row) m.items
                    (λ item h. (
                      r.0 ∙ ap (λ (x : ExchangeRate). x.numerator) (sym h),
                      r.1 ∙ ap (λ (x : ExchangeRate). x.denominator) (sym h),
                    ))
                    some_item)
                g.each;
        }

    -- The updates that a turn recorded.
    abbrev pub Records : Database F → Turn num float gcd sdk → Type 0
    Records db t = Grown (IsSent sdk t.items) db t.service.db

    submit-Records :
        (o : Option sdk.Signer) (a : Around num float gcd sdk) (rate : Q) (new_rate : ExchangeRate)
        (s : Service num float gcd sdk)
        → Records s.db
            (submit num float gcd sdk endpoint thresholds db_conn_pool o a rate new_rate s)
    unfolding submit
    submit-Records none a rate new_rate s = Grown-none (IsSent sdk []) s.db s.db refl
    submit-Records (some signer) a rate new_rate s =
        let m = submit_loop num float gcd sdk endpoint signer new_rate a.visits s in
        let g =
          after_submission-Grown a rate new_rate m m.outcome refl
            (submit_loop-Named num float gcd sdk endpoint signer new_rate a.visits none s).named
            (submit_loop-HasRate num float gcd sdk endpoint signer new_rate a.visits s) in
        record {
          rows = g.rows;
          updates =
              g.updates
              ∙ ap (λ (db : Database F). db.updates ++ g.rows)
                  (submit_loop-db num float gcd sdk endpoint signer new_rate a.visits s);
          each = g.each;
        }

    submit_converted-Records :
        (r : Option ExchangeRate) (a : Around num float gcd sdk) (rate : Q)
        (s : Service num float gcd sdk)
        → Records s.db
            (submit_converted num float gcd sdk endpoint thresholds db_conn_pool r a rate s)
    unfolding submit_converted
    submit_converted-Records none a rate s = Grown-none (IsSent sdk []) s.db s.db refl
    submit_converted-Records (some new_rate) a rate s = submit-Records s.signer a rate new_rate s

    on_verdict-Records :
        (v : Verdict) (a : Around num float gcd sdk) (rate : Q) (s : Service num float gcd sdk)
        → Records s.db (on_verdict num float gcd sdk endpoint thresholds db_conn_pool v a rate s)
    unfolding on_verdict protect
    on_verdict-Records halt a rate s = Grown-none (IsSent sdk []) s.db s.db refl
    on_verdict-Records warn a rate s = submit_converted-Records _ a rate _
    on_verdict-Records fine a rate s = submit_converted-Records _ a rate s

    on_change-Records :
        (o : Option Q) (a : Around num float gcd sdk) (rate : Q) (s : Service num float gcd sdk)
        → Records s.db (on_change num float gcd sdk endpoint thresholds db_conn_pool o a rate s)
    unfolding on_change
    on_change-Records none a rate s = Grown-none (IsSent sdk []) s.db s.db refl
    on_change-Records (some diff) a rate s = on_verdict-Records _ a rate s

    on_rate-Records :
        (o : Option Q) (a : Around num float gcd sdk) (s : Service num float gcd sdk)
        → Records s.db (on_rate num float gcd sdk endpoint thresholds db_conn_pool o a s)
    unfolding on_rate
    on_rate-Records none a s = Grown-none (IsSent sdk []) s.db s.db refl
    on_rate-Records (some rate) a s =
        on_change-Records (relative_change num s.prev_rate rate) a rate
          (record s { last_update_timestamp = a.now })

    -- A cycle adds to the updates only rows of rates that it sent.
    pub main_cycle-Records :
        (a : Around num float gcd sdk) (hs : List (RateHistory Q)) (s : Service num float gcd sdk)
        → Records s.db (main_cycle num float gcd sdk endpoint thresholds db_conn_pool a hs s)
    unfolding main_cycle
    main_cycle-Records a hs s = on_rate-Records (derive_rate num s.last_update_timestamp hs) a s
