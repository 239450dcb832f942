-- ===== src/Main/Start/Signing.antt =====
-- src/main.rs with src/secretsmanager.rs and src/database.rs: the keys behind a signer, and the tables
-- behind a database.
use concordium_euro2ccd_serv.Base.{
  ok_value, ℕ, ℤ, ◌≡◌, ◌≢◌, sym, ap, ◌∙◌, ◌⊎◌, inl, inr, Bool, true, false, none, some, List, [],
  map, String, Result, ok, arith,
}
use concordium_euro2ccd_serv.Rational.{Rational, Float}
use concordium_euro2ccd_serv.Keys.{KeyError, read_secret, read_file}
use concordium_euro2ccd_serv.Keys.Loading.{
  ReadsAs, get_governance_from_aws-ok_iff, get_governance_from_file-ok_iff,
}
use concordium_euro2ccd_serv.Node.{Sdk, get_node_client}
use concordium_euro2ccd_serv.Main.Options.{App, KeySource, dry, aws, files, choose_keys}
use concordium_euro2ccd_serv.Main.Cycle.{Service}
use concordium_euro2ccd_serv.Main.Start.{
  ChainParameters, version, Setup, Found, initial_rate, enter, start,
}
use concordium_euro2ccd_serv.Main.Start.Entry.{start-Started, Signed, sign-Signed, enter-fresh}

module _ (num : Rational) (float : Float num) (gcd : ℤ → ℤ → ℕ) (sdk : Sdk) where
  module _ (app : App) (setup : Setup num float gcd sdk) where
    -- The key pairs of the options: those of all files, or without files those of all secrets.
    abbrev pub OptionKeys : List setup.UpdateKeyPair → Type 0
    OptionKeys kps =
        ((app.local_keys ≢ [])
          × ReadsAs (read_file setup.open_file setup.from_reader) app.local_keys kps)
        ⊎ ((app.local_keys ≡ [])
            × (app.secret_names ≢ [])
            × ReadsAs (read_secret (setup.get_secret_value app.region) setup.from_str)
                app.secret_names kps)

    -- Where the keys come from, by the options.
    choose_keys-cases :
        (lock_file : Bool) (source : KeySource)
        → choose_keys lock_file app ≡ ok source
        → ((source ≡ dry) × ((app.dry_run ≡ true) ⊎ (lock_file ≡ true)))
          ⊎ ((app.dry_run ≡ false)
              × (lock_file ≡ false)
              × (((app.local_keys ≢ []) × (source ≡ files app.local_keys))
                  ⊎ ((app.local_keys ≡ [])
                      × (app.secret_names ≢ [])
                      × (source ≡ aws app.region app.secret_names))))
    unfolding choose_keys
    choose_keys-cases lock_file source h = ground arith

    module _ (lock_file : Bool) (found : Found num float gcd sdk setup)
        (s : Service num float gcd sdk) (signer : sdk.Signer) (has : s.signer ≡ some signer) where
      -- The key pairs behind the signer, if these were loaded.
      abbrev Behind : Result (KeyError setup.Error) (List setup.UpdateKeyPair) → Type 0
      Behind loaded =
          (kps : List setup.UpdateKeyPair) × (loaded ≡ ok kps)
          × (setup.construct_update_signer (version found.parameters).common_update_keys kps
              ≡ some signer)

      Signed-Behind :
          (loaded : Result (KeyError setup.Error) (List setup.UpdateKeyPair))
          → Signed num float gcd sdk setup lock_file found s loaded
          → Behind loaded
      Signed-Behind loaded w =
          let same : some w.signer ≡ some signer =
            sym (ap (λ (t : Service num float gcd sdk). t.signer) w.service) ∙ has in
          (w.secret_keys, w.loads, w.signs ∙ same)

      enter-signer :
          (source : KeySource)
          → choose_keys lock_file app ≡ ok source
          → enter num float gcd sdk setup lock_file source found ≡ ok s
          → (app.dry_run ≡ false)
            × (lock_file ≡ false)
            × (kps : List setup.UpdateKeyPair) × OptionKeys kps
            × (setup.construct_update_signer (version found.parameters).common_update_keys kps
                ≡ some signer)
      unfolding enter
      enter-signer source chosen entered = elim (choose_keys-cases lock_file source chosen) [
        | inl (e, _) ↦
            let bad : none ≡ some signer =
              ap (λ (t : Service num float gcd sdk). t.signer) (ok_value (rw e at entered)) ∙ has in
            cc
        | inr (wet, unlocked, inl (ne, e)) ↦
            let (kps, loads, signs) =
              Signed-Behind _
                (sign-Signed num float gcd sdk setup lock_file found _ s (rw e at entered)) in
            (
              wet,
              unlocked,
              kps,
              inl (
                ne,
                (get_governance_from_file-ok_iff setup.open_file setup.from_reader _ kps).0 loads,
              ),
              signs,
            )
        | inr (wet, unlocked, inr (none_local, ne, e)) ↦
            let (kps, loads, signs) =
              Signed-Behind _
                (sign-Signed num float gcd sdk setup lock_file found _ s (rw e at entered)) in
            (
              wet,
              unlocked,
              kps,
              inr (
                none_local,
                ne,
                (get_governance_from_aws-ok_iff (setup.get_secret_value app.region) setup.from_str _
                      kps).0
                    loads,
              ),
              signs,
            )
      ]

    -- If a service starts with a signer, then neither the option nor the lock file asked for a dry run;
    -- the service talks to the first node that could be reached, and has the next sequence number and the
    -- previous rate of its chain; and
    -- the signer is the one that the update keys on that node's chain give for exactly the key pairs
    -- that the options name: those as which all files read, in their order, if there are any, and
    -- otherwise those as which the secrets of all names read, in their order.
    pub start-signer :
        (test_label : ℕ → String) (lock_file : Bool) (s : Service num float gcd sdk)
        (signer : sdk.Signer)
        → start num float gcd sdk test_label lock_file app setup ≡ ok s
        → s.signer ≡ some signer
        → (app.dry_run ≡ false)
          × (lock_file ≡ false)
          × (get_node_client sdk setup.connect (map setup.endpoint app.endpoint)
              ≡ some s.node_client)
          × (setup.next_seq s.node_client ≡ some s.seq_number)
          × (parameters : ChainParameters setup.UpdateKeys) × (kps : List setup.UpdateKeyPair)
          × (setup.parameters s.node_client ≡ some parameters)
          × (initial_rate num float gcd sdk parameters ≡ some s.prev_rate)
          × OptionKeys kps
          × (setup.construct_update_signer (version parameters).common_update_keys kps
              ≡ some signer)
    start-signer test_label lock_file s signer h has =
        let w = start-Started num float gcd sdk test_label lock_file app setup s h in
        let (wet, unlocked, kps, keys, signs) =
          enter-signer lock_file w.found s signer has w.source w.chosen w.entered in
        let (_, _, fresh) =
          enter-fresh num float gcd sdk setup lock_file w.source w.found s w.entered in
        let client = ap (λ (t : Service num float gcd sdk). t.node_client) fresh in
        (
          wet,
          unlocked,
          w.connected ∙ ap some (sym client),
          ap setup.next_seq client
              ∙ w.numbered
              ∙ ap (λ (t : Service num float gcd sdk). some t.seq_number) (sym fresh),
          w.found.parameters,
          kps,
          ap setup.parameters client ∙ w.queried,
          w.rated ∙ ap (λ (t : Service num float gcd sdk). some t.prev_rate) (sym fresh),
          keys,
          signs,
        )
