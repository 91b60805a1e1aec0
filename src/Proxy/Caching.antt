-- ===== src/Proxy/Caching.antt =====
-- src/proxy.rs, `response_filter`, `response_body_filter` and `logging`: what the proxy does with a
-- response on its way to the client. The insertion into the cache is a task of its own; it is the
-- second result. The histograms of `logging` are left out.
pub mod Stored
use nylon_run.Prelude.{
  ℕ, ◌+◌, ◌*◌, ◌%◌, ◌^◌, ◌==◌, Bool, true, false, Option, none, some, List, [], ◌∷◌, ◌++◌, Text,
  codes, length, ltb, unwrap_or, if◌then◌else◌,
}
use nylon_run.Prelude.Decimals.{decimal}
use nylon_run.Metrics.{Metrics, dec, inc_by, inc_request}
use nylon_run.Proxy.Http.{Headers, HttpRequest, Bytes}
use nylon_run.Proxy.Filter.{ProxyCtx, NyrunProxy, on_metrics, extract_host}

abbrev pub max_body : ℕ
max_body = 5 * 1024 * 1024

-- Key, header and body of a response that goes into the cache.
abbrev pub Insertion : Type 0 → Type 0
Insertion H = Text × H × Bytes

count_bytes : Option Bytes → ℕ → ℕ
count_bytes none n = n
count_bytes (some b) n = (n + length b) % 2 ^ 64

module _ {H : Type 0} (headers : Headers H) where
  open headers use {status, insert_header, remove_header}

  unfoldable pub response_filter : H → ProxyCtx H → ProxyCtx H
  response_filter resp ctx = elim ctx.cache_key [
    | [] ↦ ctx
    | c ∷ key ↦
        if status resp == 200
        then record ctx { should_cache = true; response_header = some resp }
        else ctx
  ]

  -- The header as it is cached: the body is stored whole, so the length is known.
  abbrev pub cached_header : H → Bytes → H
  cached_header header body =
      insert_header (codes "Content-Length") (decimal (length body))
        (remove_header (codes "Transfer-Encoding") header)

  take_header : Option H → ProxyCtx H → ProxyCtx H × Option (Insertion H)
  take_header none ctx = (ctx, none)
  take_header (some header) ctx = (
    record ctx { response_header = none; response_body = [] },
    some (ctx.cache_key, cached_header header ctx.response_body, ctx.response_body),
  )

  -- The end of the stream, with the whole body collected.
  finish : Bool → ProxyCtx H → ProxyCtx H × Option (Insertion H)
  unfolding take_header
  finish true ctx = take_header ctx.response_header ctx
  finish false ctx = (ctx, none)

  collect : Option Bytes → Bool → ProxyCtx H → ProxyCtx H × Option (Insertion H)
  unfolding finish
  collect none end_of_stream ctx = finish end_of_stream ctx
  collect (some b) end_of_stream ctx =
      if ltb max_body (length ctx.response_body + length b)
      then (record ctx { should_cache = false; response_body = [] }, none)
      else finish end_of_stream (record ctx { response_body = ctx.response_body ++ b })

  unfoldable pub response_body_filter :
      Option Bytes → Bool → ProxyCtx H → ProxyCtx H × Option (Insertion H)
  unfolding count_bytes collect
  response_body_filter body end_of_stream ctx =
      let counted = record ctx { response_bytes = count_bytes body ctx.response_bytes } in
      if ctx.should_cache then collect body end_of_stream counted else (counted, none)

bump : Bool → Text → Metrics → Metrics
bump false host m = m
bump true host m = record m { upstream_errors_total = inc_by host 1 m.upstream_errors_total }

log_request : HttpRequest → ℕ → Bool → Text → ℕ → ℕ → Metrics → Metrics
unfolding bump
log_request session status failed host received sent m = bump failed host (record m {
  active_connections = dec m.active_connections;
  http_requests_total =
      inc_request (record { method = session.method; status = status; host = host })
        m.http_requests_total;
  network_received_bytes_total = inc_by host received m.network_received_bytes_total;
  network_sent_bytes_total = inc_by host sent m.network_sent_bytes_total;
})

-- `status` is that of the response that was written, `failed` whether there was an error.
unfoldable pub logging :
    {H : Type 0} → HttpRequest → Option ℕ → Bool → ProxyCtx H → NyrunProxy H → NyrunProxy H
unfolding log_request
logging session status failed ctx p =
    on_metrics
      (log_request session (unwrap_or status 0) failed (unwrap_or (extract_host session) [])
        ctx.request_bytes ctx.response_bytes)
      p
