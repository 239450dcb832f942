-- ===== src/System/Program.antt =====
-- src/main.rs as a whole: the start with its options, then the tasks and the main loop.
use concordium_euro2ccd_serv.Base.{
  ℕ, ℤ, ◌<◌, ◌≡◌, refl, sym, ◌∙◌, subst, ◌⊎◌, inl, inr, Bool, true, false, Option, none, some, List,
  map, String, ok, All, All-append, All-map,
}
use concordium_euro2ccd_serv.Rational.{Rational, Float}
use concordium_euro2ccd_serv.Rational.Order.{ratio-pos}
use concordium_euro2ccd_serv.Sources.Request.{Serde}
use concordium_euro2ccd_serv.Node.{Sdk, BlockItem}
use concordium_euro2ccd_serv.Main.Options.{App}
use concordium_euro2ccd_serv.Main.Cycle.{Thresholds, Service, Around, main_cycle}
use concordium_euro2ccd_serv.Main.Cycle.Signers.{IsSignedBy, main_cycle-Respects}
use concordium_euro2ccd_serv.Main.Start.{
  ChainParameters, version, Setup, thresholds_of, initial_rate, start,
}
use concordium_euro2ccd_serv.Main.Start.Entry.{start-Started, enter-fresh}
use concordium_euro2ccd_serv.Main.Start.Signing.{OptionKeys, start-signer}
use concordium_euro2ccd_serv.System.{
  System, spawn, pulled, looked, acted, Step, pull, look, act, Reach, here, next,
}
use concordium_euro2ccd_serv.System.Soundness.{IsSound, Sends, spawn-IsSound}

-- `db_conn_pool` is a pool exactly if there is a URL.
abbrev pub is_some : {A : Type 0} → Option A → Bool
is_some none = false
is_some (some a) = true

module _ (num : Rational) (float : Float num) (gcd : ℤ → ℤ → ℕ) (sdk : Sdk)
    (serde : Serde float.F) where
  open num use {Q, lt}

  module _ (endpoint : List sdk.Endpoint) (thresholds : Thresholds num) (db_conn_pool : Bool)
      (max_rates_saved : ℕ) where
    -- What was sent is signed by o, and the signer is o or was dropped.
    record Trusts (o : Option sdk.Signer) (s : System num float gcd sdk serde) : Type 0 where
      signed : All (IsSignedBy num float gcd sdk endpoint o) s.items
      keeps : (s.service.signer ≡ o) ⊎ (s.service.signer ≡ none)

    acted-Trusts :
        (o : Option sdk.Signer) (a : Around num float gcd sdk) (s : System num float gcd sdk serde)
        → Trusts o s
        → Trusts o
            (acted num float gcd sdk serde endpoint thresholds db_conn_pool max_rates_saved a s)
    unfolding acted
    acted-Trusts o a s h =
        let t = main_cycle num float gcd sdk endpoint thresholds db_conn_pool a s.seen s.service in
        let r =
          main_cycle-Respects num float gcd sdk endpoint thresholds db_conn_pool a s.seen
            s.service in
        elim h.keeps [
          | inl same ↦ record {
            signed =
                All-append (IsSignedBy num float gcd sdk endpoint o) s.items _ h.signed (
                  subst (λ x. All (IsSignedBy num float gcd sdk endpoint x) t.items) same r.signed);
            keeps = elim r.keeps [ inl e ↦ inl (e ∙ same) | inr e ↦ inr e ];
          }
          | inr gone ↦ record {
            signed = All-append (IsSignedBy num float gcd sdk endpoint o) s.items _ h.signed (
                All-map (IsSignedBy num float gcd sdk endpoint s.service.signer)
                  (IsSignedBy num float gcd sdk endpoint o) t.items
                  (λ item e. let bad : none ≡ some item.signer = sym gone ∙ e in cc) r.signed);
            keeps = elim r.keeps [ inl e ↦ inr (e ∙ gone) | inr e ↦ inr e ];
          }
        ]

    Step-Trusts :
        (o : Option sdk.Signer) {s t : System num float gcd sdk serde}
        → Step num float gcd sdk serde endpoint thresholds db_conn_pool max_rates_saved s t
        → Trusts o s
        → Trusts o t
    unfolding pulled looked
    Step-Trusts o (pull r before w after e alive up) h = record {
      signed = h.signed;
      keeps = h.keeps;
    }
    Step-Trusts o (look before w after e turn up) h = record { signed = h.signed; keeps = h.keeps }
    Step-Trusts o {s} (act a full up) h = acted-Trusts o a s h

    Reach-Trusts :
        (o : Option sdk.Signer) {s t : System num float gcd sdk serde}
        → Reach num float gcd sdk serde endpoint thresholds db_conn_pool max_rates_saved s t
        → Trusts o s
        → Trusts o t
    Reach-Trusts o here h = h
    Reach-Trusts o (next r st) h = Step-Trusts o st (Reach-Trusts o r h)

  module _ (test_label : ℕ → String) (lock_file : Bool) (app : App)
      (setup : Setup num float gcd sdk) where
    -- The states of a service with these options.
    abbrev pub Runs : Service num float gcd sdk → System num float gcd sdk serde → Type 0
    Runs s t =
        Reach num float gcd sdk serde (map setup.endpoint app.endpoint)
          (thresholds_of num float gcd sdk app) (is_some app.database_url) app.max_rates_saved
          (spawn num float gcd sdk serde test_label app s) t

    -- A block item whose signer is built from the key pairs of the options, outside a dry run.
    abbrev pub IsAuthorised : Service num float gcd sdk → BlockItem sdk → Type 0
    IsAuthorised s item =
        (app.dry_run ≡ false)
        × (lock_file ≡ false)
        × (parameters : ChainParameters setup.UpdateKeys) × (kps : List setup.UpdateKeyPair)
        × (setup.parameters s.node_client ≡ some parameters)
        × OptionKeys num float gcd sdk app setup kps
        × (setup.construct_update_signer (version parameters).common_update_keys kps
            ≡ some item.signer)

    start-IsAuthorised :
        (s : Service num float gcd sdk) (item : BlockItem sdk)
        → start num float gcd sdk test_label lock_file app setup ≡ ok s
        → s.signer ≡ some item.signer
        → IsAuthorised s item
    start-IsAuthorised s item started has =
        let (wet, unlocked, _, _, parameters, kps, queried, _, keys, signs) =
          start-signer num float gcd sdk app setup test_label lock_file s item.signer started has in
        (wet, unlocked, parameters, kps, queried, keys, signs)

    -- Whatever the program sends from its start on, however its tasks and its main loop interleave, is
    -- signed by the signer that the update keys on the chain of the node that it started with give for
    -- exactly the key pairs of the options: those of all local key files if there are any, otherwise
    -- those of all named secrets; and if the options ask for a dry run or the lock file existed at the
    -- start, it sends nothing.
    pub program-IsAuthorised :
        (s : Service num float gcd sdk) (t : System num float gcd sdk serde)
        → start num float gcd sdk test_label lock_file app setup ≡ ok s
        → Runs s t
        → All (IsAuthorised s) t.items
    unfolding spawn
    program-IsAuthorised s t started r =
        All-map (IsSignedBy num float gcd sdk (map setup.endpoint app.endpoint) s.signer)
          (IsAuthorised s) t.items (λ item e. start-IsAuthorised s item started e)
          (Reach-Trusts (map setup.endpoint app.endpoint) (thresholds_of num float gcd sdk app)
            (is_some app.database_url) app.max_rates_saved s.signer r
            (record { signed = tt; keeps = inl refl })).signed

    -- From a positive rate on chain the previous rate is positive.
    pub start-IsPositive :
        (s : Service num float gcd sdk)
        → ((c : sdk.Client) (parameters : ChainParameters setup.UpdateKeys)
            → setup.parameters c ≡ some parameters
            → 0 < (version parameters).micro_ccd_per_euro.numerator)
        → start num float gcd sdk test_label lock_file app setup ≡ ok s
        → lt num.zero s.prev_rate ≡ true
    start-IsPositive s positive started =
        let w = start-Started num float gcd sdk test_label lock_file app setup s started in
        let (_, _, fresh) =
          enter-fresh num float gcd sdk setup lock_file w.source w.found s w.entered in
        let p : lt num.zero w.found.prev_rate ≡ true =
          unfold initial_rate in
          ratio-pos num _ _ w.found.prev_rate (positive w.found.client w.found.parameters w.queried)
            w.rated in
        subst (λ (x : Service num float gcd sdk). lt num.zero x.prev_rate ≡ true) (sym fresh) p

    -- If every node reports a rate with a positive numerator, then after every step of the program from
    -- its start on, however its tasks and its main loop interleave, all histories hold positive rates
    -- only, and no more than the options allow, the previous rate is positive, and the main loop has not
    -- panicked; and every block item that the step sent carries the conversion of a positive rate within
    -- the halt thresholds of the options from the previous rate before the step.
    pub program-IsSound :
        (s : Service num float gcd sdk) (t u : System num float gcd sdk serde)
        → ((c : sdk.Client) (parameters : ChainParameters setup.UpdateKeys)
            → setup.parameters c ≡ some parameters
            → 0 < (version parameters).micro_ccd_per_euro.numerator)
        → start num float gcd sdk test_label lock_file app setup ≡ ok s
        → Runs s t
        → Step num float gcd sdk serde
            (map setup.endpoint app.endpoint)
            (thresholds_of num float gcd sdk app)
            (is_some app.database_url)
            app.max_rates_saved
            t
            u
        → IsSound num float gcd sdk serde
            (map setup.endpoint app.endpoint)
            (thresholds_of num float gcd sdk app)
            (is_some app.database_url)
            app.max_rates_saved
            u
          × Sends num float gcd sdk serde
              (map setup.endpoint app.endpoint)
              (thresholds_of num float gcd sdk app)
              (is_some app.database_url)
              app.max_rates_saved
              t
              u
    program-IsSound s t u positive started r st =
        spawn-IsSound num float gcd sdk serde (map setup.endpoint app.endpoint)
          (thresholds_of num float gcd sdk app) (is_some app.database_url) app.max_rates_saved
          test_label app s t u (start-IsPositive s positive started) r st
