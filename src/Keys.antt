-- ===== src/Keys.antt =====
-- src/secretsmanager.rs: loading the key pairs of the governance from AWS or from files. The answers of
-- AWS, the files and the decoding of JSON are parameters.
pub mod Loading
mod Tests
use concordium_euro2ccd_serv.Base.{
  Option, none, some, List, [], ◌∷◌, ◌++◌, String, Result, ok, err, ◌>>=◌, map_err,
}

-- The errors: a library's with its context, or the program's own.
pub data KeyError (E : Type 0) : Type 0 where
  request could_not_read could_not_open : E → KeyError E
  not_present : KeyError E

-- `match resp.secret_string()`
abbrev pub present : {E : Type 0} → Option String → Result (KeyError E) String
present none = err not_present
present (some raw_secret) = ok raw_secret

module _ {UpdateKeyPair Error : Type 0} where
  module _ (get_secret_value : String → Result Error (Option String))
      (from_str : String → Result Error UpdateKeyPair) where
    abbrev pub read_secret : String → Result (KeyError Error) UpdateKeyPair
    read_secret secret = map_err request (get_secret_value secret) >>= λ secret_string.
        present secret_string >>= λ raw_secret. map_err could_not_read (from_str raw_secret)

    -- The loop, with the key pairs read so far.
    pub read_secrets :
        List UpdateKeyPair → List String → Result (KeyError Error) (List UpdateKeyPair)
    read_secrets kps [] = ok kps
    read_secrets kps (secret ∷ secrets) =
        read_secret secret >>= λ additional_key. read_secrets (kps ++ additional_key ∷ []) secrets

    unfoldable pub get_governance_from_aws :
        List String → Result (KeyError Error) (List UpdateKeyPair)
    unfolding read_secrets
    get_governance_from_aws secret_names = read_secrets [] secret_names

  module _ {File : Type 0} (open_file : String → Result Error File)
      (from_reader : File → Result Error UpdateKeyPair) where
    abbrev pub read_file : String → Result (KeyError Error) UpdateKeyPair
    read_file p =
        map_err could_not_open (open_file p) >>= λ file. map_err could_not_read (from_reader file)

    -- `map` and `collect` into a result, which stops at the first error.
    unfoldable pub get_governance_from_file :
        List String → Result (KeyError Error) (List UpdateKeyPair)
    get_governance_from_file [] = ok []
    get_governance_from_file (p ∷ key_paths) =
        read_file p >>= λ key. get_governance_from_file key_paths >>= λ keys. ok (key ∷ keys)
