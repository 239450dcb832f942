-- ===== src/Prometheus/Server.antt =====
-- The route of the metrics in src/prometheus.rs. The registry and its text encoder are the library's;
-- the web server that calls the route is not modelled.
use Prim.Native.String.{◌++◌}
use concordium_euro2ccd_serv.Base.{
  ◌≡◌, refl, ◌⊎◌, inl, inr, String, Result, Result-cases, ok, err, ◌>>=◌, map_err,
}

pub data StatusCode : Type 0 where
  success internal_server_error : StatusCode

-- `warp::reply::with_status`
pub record Reply : Type 0 where
  pub body : String
  pub status : StatusCode

module _ {Registry Families Bytes Error : Type 0} (gather : Registry → Families)
    (encode : Families → Result Error Bytes) (from_utf8 : Bytes → Result Error String) where
  -- The printed error is the context that was added last.
  unfoldable pub handle_metrics : Registry → Result String String
  handle_metrics registry = do
    buffer ← map_err (λ e. "cannot gather metrics") (encode (gather registry))
    map_err (λ e. "cannot encode response as UTF-8") (from_utf8 buffer)

  pub with_status : Result String String → Reply
  with_status (ok v) = record { body = v; status = success }
  with_status (err e) = record { body = e ++ ".\n"; status = internal_server_error }

  unfoldable pub serve_metrics : Registry → Reply
  unfolding with_status
  serve_metrics registry = with_status (handle_metrics registry)

  -- Either the metrics encode to valid UTF-8, and the reply is a success with that text; or they do not
  -- encode, or not to UTF-8, and the reply is an internal server error that says which.
  serve_metrics-cases :
      (registry : Registry)
      → let reply = serve_metrics registry in
        ((buffer : Bytes) × (encode (gather registry) ≡ ok buffer)
          × (from_utf8 buffer ≡ ok reply.body)
          × (reply.status ≡ success))
        ⊎ (((e : Error) × (encode (gather registry) ≡ err e)
              × (reply.body ≡ "cannot gather metrics.\n")
              × (reply.status ≡ internal_server_error))
            ⊎ ((buffer : Bytes) × (e : Error) × (encode (gather registry) ≡ ok buffer)
                × (from_utf8 buffer ≡ err e)
                × (reply.body ≡ "cannot encode response as UTF-8.\n")
                × (reply.status ≡ internal_server_error)))
  unfolding serve_metrics with_status handle_metrics
  serve_metrics-cases registry = elim (Result-cases (encode (gather registry))) [
    | inr (e, failed) ↦ inr (inl (e, failed, rw failed refl, rw failed refl))
    | inl (buffer, encoded) ↦ elim (Result-cases (from_utf8 buffer)) [
      | inl (text, decoded) ↦
          inl (buffer, encoded, rw (encoded, decoded) refl, rw (encoded, decoded) refl)
      | inr (e, failed) ↦
          inr
            (inr (buffer, e, encoded, failed, rw (encoded, failed) refl, rw (encoded, failed) refl))
    ]
  ]
