-- ===== src/System/Commute.antt =====
-- src/main.rs and src/sources.rs together: the order of a task's round and the end of the main loop's
-- cycle.
use concordium_euro2ccd_serv.Base.{
  ℕ, ℤ, ◌≡◌, refl, sym, ap, ap₂, ◌∙◌, Bool, false, if◌then◌else◌, List, [], ◌∷◌, ◌++◌,
}
use concordium_euro2ccd_serv.Rational.{Rational, Float}
use concordium_euro2ccd_serv.Prometheus.{Stats}
use concordium_euro2ccd_serv.Database.{Database}
use concordium_euro2ccd_serv.Sources.{RateHistory}
use concordium_euro2ccd_serv.Sources.Request.{Serde}
use concordium_euro2ccd_serv.Sources.Pull.{Task, running, state_of, Round, Pulling}
use concordium_euro2ccd_serv.Sources.Pull.Ending.{ending, pull_round-ending}
use concordium_euro2ccd_serv.Sources.Pull.Effect.Steps.{Acts-pull_round}
use concordium_euro2ccd_serv.Node.{Sdk}
use concordium_euro2ccd_serv.Main.Cycle.{Thresholds, Service, Around, Turn, main_cycle}
use concordium_euro2ccd_serv.Main.Cycle.Frame.{on_service}
use concordium_euro2ccd_serv.Main.Cycle.Frame.Whole.{main_cycle-frame}
use concordium_euro2ccd_serv.System.{Worker, System, pulling, settle, share, round, pulled, acted}

module _ (num : Rational) (float : Float num) (gcd : ℤ → ℤ → ℕ) (sdk : Sdk)
    (serde : Serde float.F) where
  open num use {Q}
  open float use {F}

  settle-ending :
      (t : Task (Pulling num float serde)) (w : Worker num float gcd sdk serde)
      → settle num float gcd sdk serde t w ≡ (
          let (h, runs) = ending num float serde t in
          record w { rate_history = h; alive = if runs then w.alive else false })
  unfolding settle
  settle-ending (running p) w = refl
  settle-ending (Task.panicked p) w = refl

  module _ (endpoint : List sdk.Endpoint) (thresholds : Thresholds num) (db_conn_pool : Bool)
      (max_rates_saved : ℕ) where
    -- The effect of a round on the service.
    share-on_service :
        (r : Round num float serde) (w : Worker num float gcd sdk serde)
        (s : Service num float gcd sdk)
        → share num float gcd sdk serde
            (state_of (
              round num float gcd sdk serde endpoint thresholds db_conn_pool max_rates_saved r w s))
            s
          ≡ on_service num float gcd sdk
              (Acts-pull_round num float serde w.source max_rates_saved db_conn_pool r).effect
              endpoint
              s
    share-on_service r w s =
        let acts = Acts-pull_round num float serde w.source max_rates_saved db_conn_pool r in
        ap₂ (λ (st : Stats F) (db : Database F). record s { stats = st; db = db })
          (acts.stats (pulling num float gcd sdk serde w s))
          (acts.db (pulling num float gcd sdk serde w s))

    settle-round :
        (r : Round num float serde) (w : Worker num float gcd sdk serde)
        (s s' : Service num float gcd sdk)
        → settle num float gcd sdk serde
            (round num float gcd sdk serde endpoint thresholds db_conn_pool max_rates_saved r w s)
            w
          ≡ settle num float gcd sdk serde
              (round num float gcd sdk serde endpoint thresholds db_conn_pool max_rates_saved r w
                s')
              w
    settle-round r w s s' =
        settle-ending _ w
        ∙ ap
            (λ (e : RateHistory Q × Bool). record w {
              rate_history = e.0;
              alive = if e.1 then w.alive else false;
            })
            (pull_round-ending num float serde w.source max_rates_saved db_conn_pool r
              (pulling num float gcd sdk serde w s) (pulling num float gcd sdk serde w s') refl)
        ∙ sym (settle-ending _ w)

    -- For the histories that the main loop has read, it makes no difference whether a task's round
    -- comes before or after the rest of the cycle, with its metrics, its writes to the database, its
    -- submissions and their failures: the state is the same.
    pub acted-pulled :
        (a : Around num float gcd sdk) (r : Round num float serde)
        (before : List (Worker num float gcd sdk serde)) (w : Worker num float gcd sdk serde)
        (after : List (Worker num float gcd sdk serde)) (s : System num float gcd sdk serde)
        → acted num float gcd sdk serde endpoint thresholds db_conn_pool max_rates_saved a (
            pulled num float gcd sdk serde endpoint thresholds db_conn_pool max_rates_saved r before
              w after s)
          ≡ pulled num float gcd sdk serde endpoint thresholds db_conn_pool max_rates_saved r before
              w after
              (acted num float gcd sdk serde endpoint thresholds db_conn_pool max_rates_saved a s)
    unfolding acted pulled
    acted-pulled a r before w after s =
        let cycle = main_cycle num float gcd sdk endpoint thresholds db_conn_pool a s.seen in
        let t = cycle s.service in
        let e = (Acts-pull_round num float serde w.source max_rates_saved db_conn_pool r).effect in
        ap₂ end (settle-round r w s.service t.service) (
          ap cycle (share-on_service r w s.service)
          ∙ main_cycle-frame num float gcd sdk e endpoint thresholds db_conn_pool a s.seen s.service
          ∙ ap (λ u. record t { service = u }) (sym (share-on_service r w t.service)))
      where
        end :
            Worker num float gcd sdk serde → Turn num float gcd sdk → System num float gcd sdk serde
        end w' t = record {
          workers = before ++ w' ∷ after;
          service = t.service;
          seen = [];
          items = s.items ++ t.items;
          status = t.status;
        }
