-- ===== src/Sources/Request.antt =====
-- parse_response and request_exchange_rate of src/sources.rs. Decoding JSON, sending a request and
-- reading the answer's bytes are the libraries' and stand as parameters.
use concordium_euro2ccd_serv.Base.{
  ℕ, ◌≡◌, ◌↔◌, refl, Bool, true, false, Option, none, some, List, [], ◌∷◌, String, ◌==◌,
  if◌then◌else◌, Result, ok, err, ◌>>=◌, map_err, arith, Bool-cases, inl, inr,
}
use concordium_euro2ccd_serv.Sources.{
  Source, bitfinex, test, coin_gecko, live_coin_watch, coin_market_cap, RequestBuilder, get_request,
}

module _ (F : Type 0) where
  pub record CoinMarketCapResponsePrice : Type 0 where
    pub price : F

  pub record CoinMarketCapResponseEur : Type 0 where
    pub eur : CoinMarketCapResponsePrice

  pub record CoinMarketCapResponseInfo : Type 0 where
    pub quote : CoinMarketCapResponseEur

  pub record CoinMarketCapResponseData : Type 0 where
    pub ccd : CoinMarketCapResponseInfo

  pub record CoinMarketCapResponseStatus : Type 0 where
    pub error_code : ℕ
    pub error_message : Option String

  pub record CoinMarketCapResponse : Type 0 where
    pub data' : CoinMarketCapResponseData
    pub status : CoinMarketCapResponseStatus

  pub record CoinGeckoResponseInner : Type 0 where
    pub eur : F

  pub record CoinGeckoResponse : Type 0 where
    pub concordium : CoinGeckoResponseInner

  pub record LiveCoinWatchResponse : Type 0 where
    pub rate : F

  -- serde_json's from_slice at the types that the program decodes, over the bytes of a body.
  pub record Serde : Type 1 where
    pub Bytes : Type 0
    pub Error : Type 0
    pub vec_f64 : Bytes → Result Error (List F)
    pub live_coin_watch_response : Bytes → Result Error LiveCoinWatchResponse
    pub coin_market_cap_response : Bytes → Result Error CoinMarketCapResponse
    pub coin_gecko_response : Bytes → Result Error CoinGeckoResponse

-- The errors of parse_response: serde's, and the program's own.
pub data ParseError (E : Type 0) : Type 0 where
  json : E → ParseError E
  missing_value : ParseError E
  error_message : String → ParseError E
  error_code : ℕ → ParseError E

module _ {F : Type 0} (serde : Serde F) where
  open serde use {
    Bytes, Error, vec_f64, live_coin_watch_response, coin_market_cap_response, coin_gecko_response,
  }

  -- `.first().copied().ok_or_else(...)`
  pub first_value : List F → Result (ParseError Error) F
  first_value [] = err missing_value
  first_value (v ∷ vs) = ok v

  -- `error_message.unwrap_or(format!(...))`
  pub status_error : ℕ → Option String → ParseError Error
  status_error code none = error_code code
  status_error code (some message) = error_message message

  unfoldable pub parse_response : Source → Bytes → Result (ParseError Error) F
  unfolding first_value status_error
  parse_response bitfinex bytes = map_err json (vec_f64 bytes) >>= first_value
  parse_response (test url label) bytes = map_err json (vec_f64 bytes) >>= first_value
  parse_response (live_coin_watch _) bytes =
      map_err json (live_coin_watch_response bytes) >>= λ response. ok response.rate
  parse_response (coin_market_cap _) bytes =
      map_err json (coin_market_cap_response bytes) >>= λ response.
      if response.status.error_code == 0
      then ok response.data'.ccd.quote.eur.price
      else err (status_error response.status.error_code response.status.error_message)
  parse_response coin_gecko bytes =
      map_err json (coin_gecko_response bytes) >>= λ response. ok response.concordium.eur

  -- An answer of the server: whether its status is a success, and the outcome of reading its body.
  pub record Response : Type 0 where
    pub is_success : Bool
    pub bytes : Result Error Bytes

  module _ (is_negative : F → Bool) (send : RequestBuilder → Result Error Response) where
    -- The value of a parsed answer, unless it is negative.
    pub check_rate : Result (ParseError Error) F → Option F
    check_rate (ok val) = if is_negative val then none else some val
    check_rate (err e) = none

    pub read_bytes : Source → Result Error Bytes → Option F
    unfolding check_rate
    read_bytes source (ok bytes) = check_rate (parse_response source bytes)
    read_bytes source (err e) = none

    pub read_response : Source → Result Error Response → Option F
    unfolding read_bytes
    read_response source (ok resp) = if resp.is_success then read_bytes source resp.bytes else none
    read_response source (err e) = none

    unfoldable pub request_exchange_rate : Source → Option F
    unfolding read_response
    request_exchange_rate source = read_response source (send (get_request source))

    check_rate-some :
        (r : Result (ParseError Error) F) (v : F)
        → check_rate r ≡ some v
        → (r ≡ ok v) × (is_negative v ≡ false)
    unfolding check_rate
    check_rate-some (ok val) v h = ground arith
    check_rate-some (err e) v h = cc

    read_bytes-some :
        (source : Source) (b : Result Error Bytes) (v : F)
        → read_bytes source b ≡ some v
        → (bytes : Bytes) × (b ≡ ok bytes)
          × (parse_response source bytes ≡ ok v)
          × (is_negative v ≡ false)
    read_bytes-some source (ok bytes) v h =
        let (p, n) = check_rate-some (parse_response source bytes) v (unfold read_bytes in h) in
        (bytes, refl, p, n)
    read_bytes-some source (err e) v h = unfold read_bytes in cc

    read_response-some :
        (source : Source) (r : Result Error Response) (v : F)
        → read_response source r ≡ some v
        → (resp : Response) × (bytes : Bytes) × (r ≡ ok resp)
          × (resp.is_success ≡ true)
          × (resp.bytes ≡ ok bytes)
          × (parse_response source bytes ≡ ok v)
          × (is_negative v ≡ false)
    unfolding read_response
    read_response-some source (ok resp) v h = elim (Bool-cases resp.is_success) [
      | inl e ↦
          let (bytes, b, p, n) = read_bytes-some source resp.bytes v (rw e at h) in
          (resp, bytes, refl, e, b, p, n)
      | inr e ↦ cc
    ]
    read_response-some source (err e) v h = cc

    -- A request yields a rate exactly if it was sent, the answer is a success with a readable body
    -- that the source's parser accepts, and the rate is not negative; it is then the parsed rate.
    pub request_exchange_rate-some_iff :
        (source : Source) (v : F)
        → (request_exchange_rate source ≡ some v) ↔ (
            (resp : Response) × (bytes : Bytes) × (send (get_request source) ≡ ok resp)
            × (resp.is_success ≡ true)
            × (resp.bytes ≡ ok bytes)
            × (parse_response source bytes ≡ ok v)
            × (is_negative v ≡ false))
    unfolding request_exchange_rate
    request_exchange_rate-some_iff source v = (
      read_response-some source (send (get_request source)) v,
      λ (resp, bytes, sent, success, read, parsed, nonneg).
          rw (sent, read_response, success, read, parsed, nonneg),
    )
