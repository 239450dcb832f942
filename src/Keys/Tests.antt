-- ===== src/Keys/Tests.antt =====
-- src/secretsmanager.rs with two secrets, whose names are their texts and key pairs.
use concordium_euro2ccd_serv.Base.{◌≡◌, refl, Option, some, [], ◌∷◌, String, Result, ok}
use concordium_euro2ccd_serv.Keys.{get_governance_from_aws, get_governance_from_file}
use concordium_euro2ccd_serv.Keys.Loading.{
  get_governance_from_aws-ok_iff, get_governance_from_file-ok_iff,
}

abbrev secret : String → Result (Unit {0}) (Option String)
secret name = ok (some name)

abbrev same : String → Result (Unit {0}) String
same text = ok text

get_governance_from_aws-ok_iff_example :
    get_governance_from_aws secret same ("a" ∷ "b" ∷ []) ≡ ok ("a" ∷ "b" ∷ [])
get_governance_from_aws-ok_iff_example =
    (get_governance_from_aws-ok_iff secret same ("a" ∷ "b" ∷ []) ("a" ∷ "b" ∷ [])).1
      (refl, (refl, tt))

reads_files : get_governance_from_file same same ("a" ∷ "b" ∷ []) ≡ ok ("a" ∷ "b" ∷ [])
reads_files =
    (get_governance_from_file-ok_iff same same ("a" ∷ "b" ∷ []) ("a" ∷ "b" ∷ [])).1
      (refl, (refl, tt))
