-- ===== src/Keys/Loading.antt =====
-- src/secretsmanager.rs: which keys are loaded, and when loading fails.
use mathlib.Core.List.{append-nil, append_assoc}
use concordium_euro2ccd_serv.Base.{
  ok_value, ◌≡◌, ◌↔◌, refl, sym, ap, ◌∙◌, subst, inl, inr, Option, List, [], ◌∷◌, ◌++◌, String,
  Result, ok, err, Result-cases,
}
use concordium_euro2ccd_serv.Keys.{
  KeyError, read_secret, read_secrets, get_governance_from_aws, read_file, get_governance_from_file,
}

-- Every name reads as the key pair at its place, and there are as many of the one as of the other.
abbrev pub ReadsAs :
    {E K : Type 0} → (String → Result (KeyError E) K) → List String → List K → Type 0
ReadsAs read [] [] = Unit {0}
ReadsAs read [] (k ∷ ks) = ⊥
ReadsAs read (n ∷ ns) [] = ⊥
ReadsAs read (n ∷ ns) (k ∷ ks) = (read n ≡ ok k) × ReadsAs read ns ks

module _ {UpdateKeyPair Error : Type 0} where
  module _ (get_secret_value : String → Result Error (Option String))
      (from_str : String → Result Error UpdateKeyPair) where
    read_secrets-ReadsAs :
        (kps : List UpdateKeyPair) (secrets : List String) (all : List UpdateKeyPair)
        → read_secrets get_secret_value from_str kps secrets ≡ ok all
        → (ks : List UpdateKeyPair) × (all ≡ kps ++ ks)
          × ReadsAs (read_secret get_secret_value from_str) secrets ks
    unfolding read_secrets
    read_secrets-ReadsAs kps [] all h = ([], sym (ok_value h) ∙ sym (append-nil kps), tt)
    read_secrets-ReadsAs kps (n ∷ ns) all h =
        elim (Result-cases (read_secret get_secret_value from_str n)) [
          | inl (k, e) ↦
              let (ks, split, rest) =
                read_secrets-ReadsAs (kps ++ k ∷ []) ns all (rw (e, read_secrets) at h) in
              (k ∷ ks, split ∙ append_assoc kps (k ∷ []) ks, (e, rest))
          | inr (f, e) ↦
              let bad : ◌≡◌ {A = Result (KeyError Error) (List UpdateKeyPair)} (err f) (ok all) =
                rw (e, read_secrets) at h in
              cc
        ]

    read_secrets-ok :
        (kps : List UpdateKeyPair) (secrets : List String) (ks : List UpdateKeyPair)
        → ReadsAs (read_secret get_secret_value from_str) secrets ks
        → read_secrets get_secret_value from_str kps secrets ≡ ok (kps ++ ks)
    unfolding read_secrets
    read_secrets-ok kps [] [] h = ap ok (sym (append-nil kps))
    read_secrets-ok kps [] (k ∷ ks) h = absurd h
    read_secrets-ok kps (n ∷ ns) [] h = absurd h
    read_secrets-ok kps (n ∷ ns) (k ∷ ks) h =
        rw (h.0, read_secrets)
          (read_secrets-ok (kps ++ k ∷ []) ns ks h.1 ∙ ap ok (append_assoc kps (k ∷ []) ks))

    -- Loading from AWS succeeds with exactly the key pairs as which the secrets of all names read, in
    -- the order of the names, and fails if one of them does not read.
    pub get_governance_from_aws-ok_iff :
        (secret_names : List String) (kps : List UpdateKeyPair)
        → (get_governance_from_aws get_secret_value from_str secret_names ≡ ok kps)
          ↔ ReadsAs (read_secret get_secret_value from_str) secret_names kps
    unfolding get_governance_from_aws
    get_governance_from_aws-ok_iff names kps = (
      λ h.
          let (ks, e, r) = read_secrets-ReadsAs [] names kps h in
          subst (ReadsAs (read_secret get_secret_value from_str) names) (sym e) r,
      read_secrets-ok [] names kps,
    )

  module _ {File : Type 0} (open_file : String → Result Error File)
      (from_reader : File → Result Error UpdateKeyPair) where
    file-ReadsAs :
        (key_paths : List String) (kps : List UpdateKeyPair)
        → get_governance_from_file open_file from_reader key_paths ≡ ok kps
        → ReadsAs (read_file open_file from_reader) key_paths kps
    unfolding get_governance_from_file
    file-ReadsAs [] kps h = subst (ReadsAs (read_file open_file from_reader) []) (ok_value h) tt
    file-ReadsAs (p ∷ ps) kps h = elim (Result-cases (read_file open_file from_reader p)) [
      | inl (k, e) ↦ elim (Result-cases (get_governance_from_file open_file from_reader ps)) [
        | inl (ks, e') ↦
            subst (ReadsAs (read_file open_file from_reader) (p ∷ ps))
              (ok_value (rw (e, get_governance_from_file, e') at h)) (e, file-ReadsAs ps ks e')
        | inr (f, e') ↦
            let bad : ◌≡◌ {A = Result (KeyError Error) (List UpdateKeyPair)} (err f) (ok kps) =
              rw (e, get_governance_from_file, e') at h in
            cc
      ]
      | inr (f, e) ↦
          let bad : ◌≡◌ {A = Result (KeyError Error) (List UpdateKeyPair)} (err f) (ok kps) =
            rw (e, get_governance_from_file) at h in
          cc
    ]

    file-ok :
        (key_paths : List String) (kps : List UpdateKeyPair)
        → ReadsAs (read_file open_file from_reader) key_paths kps
        → get_governance_from_file open_file from_reader key_paths ≡ ok kps
    unfolding get_governance_from_file
    file-ok [] [] h = refl
    file-ok [] (k ∷ ks) h = absurd h
    file-ok (p ∷ ps) [] h = absurd h
    file-ok (p ∷ ps) (k ∷ ks) h = rw (h.0, get_governance_from_file, file-ok ps ks h.1) refl

    -- Loading from files succeeds with exactly the key pairs as which all files read, in their order,
    -- and fails if one of them does not read.
    pub get_governance_from_file-ok_iff :
        (key_paths : List String) (kps : List UpdateKeyPair)
        → (get_governance_from_file open_file from_reader key_paths ≡ ok kps)
          ↔ ReadsAs (read_file open_file from_reader) key_paths kps
    get_governance_from_file-ok_iff key_paths kps =
        (file-ReadsAs key_paths kps, file-ok key_paths kps)
