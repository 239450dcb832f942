-- ===== src/Main/Cycle/Tests.antt =====
-- The main loop of src/main.rs at a concrete node and concrete fractions.
use concordium_euro2ccd_serv.Base.{
  ℕ, suc, inl, arith, ◌≡◌, refl, ◌⊎◌, inr, true, false, none, some, List, [], ◌∷◌, All,
}
use concordium_euro2ccd_serv.Rational.{Fraction, fractions, readings, Reading}
use concordium_euro2ccd_serv.Helpers.{
  compute_median, relative_change, convert_big_fraction_to_exchange_rate, fit, to_u64,
}
use concordium_euro2ccd_serv.Helpers.Euclid.{euclid}
use concordium_euro2ccd_serv.Prometheus.{initialize}
use concordium_euro2ccd_serv.Sources.{RateHistory}
use concordium_euro2ccd_serv.Node.{send_update, is_unreachable, construct_block_item}
use concordium_euro2ccd_serv.Node.Retries.{last_seq}
use concordium_euro2ccd_serv.Node.Tests.{numbers, retry_ticks}
use concordium_euro2ccd_serv.Main.Cycle.{
  finalized, Thresholds, derive_rate, source_median, judge, after_send, Service, Around, main_cycle,
  main_loop,
}
use concordium_euro2ccd_serv.Main.Cycle.Safety.{WithinHalt, main_cycle-IsJustified}
use concordium_euro2ccd_serv.Main.Cycle.Protected.{Silent}
use concordium_euro2ccd_serv.Main.Cycle.Halt.{main_loop_protects}
use concordium_euro2ccd_serv.Rational.{AtMost}
use concordium_euro2ccd_serv.Main.Cycle.Delivery.{Delivers, Updates, main_cycle-Updates}
use concordium_euro2ccd_serv.Main.Cycle.Allowed.{Allowed}
use concordium_euro2ccd_serv.Node.{call_error, unavailable, get_node_client}
use concordium_euro2ccd_serv.Main.Cycle.Confirmed.{main_cycle_confirmed}
use concordium_euro2ccd_serv.Main.Cycle.Derive.{
  fresh_medians, derive_rate-none_iff, derive_rate_majority,
}

abbrev pub int : ℕ → Fraction
int n = fractions.from_integer n

abbrev pub thresholds : Thresholds fractions
thresholds = record {
  warning_increase_threshold = int 30;
  halt_increase_threshold = int 100;
  warning_decrease_threshold = int 15;
  halt_decrease_threshold = int 50;
}

-- 40 million micro CCD per Euro, and the node's first sequence number.
abbrev pub service : Service fractions readings euclid.gcd numbers
service = record {
  seq_number = 7;
  prev_rate = int 40000000;
  last_update_timestamp = 100;
  signer = some 5;
  node_client = 3;
  stats = initialize Reading;
  lock_file = false;
  db = record { read_values = []; updates = [] };
}

abbrev pub around : Around fractions readings euclid.gcd numbers
around = record {
  now = 200;
  creates_lock_file = true;
  visits = record { ticks = retry_ticks; connect = λ e. none } ∷ [];
  finality = finalized;
  access = record { gets_conn = true; preps = true; execs = true };
  written_at = 201;
}

abbrev history : ℕ → RateHistory Fraction
history n = record { rates = int n ∷ []; last_reading_timestamp = 150 }

-- 42 CCD per Euro, and 420.
abbrev usual : List (RateHistory Fraction)
usual = history 42 ∷ []

abbrev pub jump : List (RateHistory Fraction)
jump = history 420 ∷ []

-- The failed call is repeated under sequence number 8.
main_cycle_test :
    last_seq numbers none
      (main_cycle fractions readings euclid.gcd numbers
        (3 ∷ [])
        thresholds
        false
        around
        usual
        service).items
    ≡ some 8
unfolding main_cycle derive_rate source_median compute_median relative_change judge
    convert_big_fraction_to_exchange_rate send_update fit to_u64 is_unreachable after_send
    construct_block_item
main_cycle_test = refl

main_cycle-IsJustified_example :
    All
      (λ item.
        (rate : Fraction) × (derive_rate fractions 100 usual ≡ some rate)
        × (convert_big_fraction_to_exchange_rate euclid.gcd fractions rate
            ≡ some item.micro_gtu_per_euro)
        × WithinHalt fractions thresholds (int 40000000) rate)
      (main_cycle fractions readings euclid.gcd numbers
        (3 ∷ [])
        thresholds
        false
        around
        usual
        service).items
main_cycle-IsJustified_example =
    main_cycle-IsJustified fractions readings euclid.gcd numbers (3 ∷ []) thresholds false around
      usual service refl

main_cycle_confirmed_example :
    let t =
      main_cycle fractions readings euclid.gcd numbers
        (3 ∷ [])
        thresholds
        false
        around
        usual
        service in
    ((t.service.prev_rate ≡ int 40000000) × (t.service.seq_number ≡ 7))
    ⊎ ((finalized ≡ finalized)
        × (derive_rate fractions 100 usual ≡ some t.service.prev_rate)
        × (seq : ℕ) × (last_seq numbers none t.items ≡ some seq)
        × (t.service.seq_number ≡ suc seq))
main_cycle_confirmed_example =
    main_cycle_confirmed fractions readings euclid.gcd numbers (3 ∷ []) thresholds false around
      usual service

pub jump_rate :
    (rate : Fraction) × (derive_rate fractions 100 jump ≡ some rate) × (rate.num ≡ 420000000)
unfolding derive_rate source_median compute_median
jump_rate = (_, refl, refl)

pub jump_outside : ¬ WithinHalt fractions thresholds (int 40000000) jump_rate.0
unfolding jump_rate derive_rate source_median compute_median
jump_outside h = cc

main_loop_protects_example :
    Silent fractions readings euclid.gcd numbers (3 ∷ []) thresholds false service (
      main_loop fractions readings euclid.gcd numbers
        (3 ∷ [])
        thresholds
        false
        ((around, jump) ∷ (around, usual) ∷ [])
        service)
    × ((main_cycle fractions readings euclid.gcd numbers
          (3 ∷ [])
          thresholds
          false
          around
          jump
          service).service.lock_file
        ≡ true)
main_loop_protects_example =
    main_loop_protects fractions readings euclid.gcd numbers (3 ∷ []) thresholds false around jump
      jump_rate.0 ((around, usual) ∷ []) service jump_rate.1 refl jump_outside

-- The service in the protected mode.
abbrev protected : Service fractions readings euclid.gcd numbers
protected = record service { signer = none; stats = record service.stats { protected = 1 } }

-- Three sources, one of which reports a thousand times too much.
abbrev three : List (RateHistory Fraction)
three = history 42000 ∷ history 41 ∷ history 42 ∷ []

three_rate :
    (rate : Fraction) × (derive_rate fractions 100 three ≡ some rate) × (rate.num ≡ 42000000)
unfolding derive_rate source_median compute_median
three_rate = (_, refl, refl)

three_medians : fresh_medians fractions 100 three ≡ int 42000 ∷ int 41 ∷ int 42 ∷ []
unfolding source_median compute_median
three_medians = refl

derive_rate_majority_example :
    (m : Fraction) × (three_rate.0 ≡ fractions.mul m (int 1000000))
    × AtMost fractions.lt (int 41) m
    × AtMost fractions.lt m (int 42)
unfolding source_median compute_median
derive_rate_majority_example =
    derive_rate_majority fractions 100 three three_rate.0 (int 41) (int 42) three_rate.1
      (omega arith) (omega arith)

-- The last reading is older than the last update.
derive_rate-none_iff_example : derive_rate fractions 160 usual ≡ none
derive_rate-none_iff_example =
    (derive_rate-none_iff fractions 160 usual).1 (inr (inl (omega arith)), tt)

-- The first node cannot be reached, and the next one accepts the update at its second answer.
abbrev pub second_node : Around fractions readings euclid.gcd numbers
second_node = record around {
  visits =
      record {
        ticks = record { new_seq = none; now = 990; answer = call_error unavailable } ∷ [];
        connect = λ e. some 4;
      }
      ∷ record { ticks = retry_ticks; connect = λ e. none }
      ∷ [];
}

pub delivers : Delivers fractions readings euclid.gcd numbers (3 ∷ []) second_node.visits
unfolding is_unreachable get_node_client
delivers = inr (inl refl, (4, refl), inl (inr (refl, ((λ h. cc), inl refl))))

usual_rate :
    (rate : Fraction) × (derive_rate fractions 100 usual ≡ some rate)
    × Allowed fractions thresholds (int 40000000) rate
unfolding derive_rate source_median compute_median
usual_rate = (_, refl, refl)

main_cycle-Updates_example : Updates fractions readings euclid.gcd numbers (3 ∷ []) usual_rate.0 (
    main_cycle fractions readings euclid.gcd numbers
      (3 ∷ [])
      thresholds
      true
      second_node
      usual
      service)
main_cycle-Updates_example =
    main_cycle-Updates fractions readings euclid.gcd numbers (3 ∷ []) thresholds true second_node
      delivers refl usual 5 usual_rate.0 service refl usual_rate.1 refl usual_rate.2
