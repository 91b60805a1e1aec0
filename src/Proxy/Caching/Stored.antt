-- ===== src/Proxy/Caching/Stored.antt =====
-- src/proxy.rs: which responses go into the cache, and what is stored of them.
use nylon_run.Prelude.{
  ◌+◌, ◌≤◌, ◌<◌, sym, text_eq, Bool-cases, inl, inr, ◌==◌, ◌≡◌, refl, ◌∙◌, ap, Bool, true, false,
  not, ◌&&◌, Option, none, some, List, [], ◌∷◌, ◌++◌, append_assoc, append-nil, Text, arith, length,
  length-append, leb, if◌then◌else◌,
}
use native.Mathlib.Decide.{dec_le}
use nylon_run.Proxy.Http.{Headers, Bytes}
use nylon_run.Proxy.Filter.{ProxyCtx}
use nylon_run.Proxy.Caching.{
  max_body, Insertion, response_filter, response_body_filter, cached_header, count_bytes,
}

abbrev to_list {ℓ} : {A : Type ℓ} → Option A → List A
to_list none = []
to_list (some a) = a ∷ []

abbrev pub chunk : Option Bytes → Bytes
chunk none = []
chunk (some b) = b

-- The chunks one after the other; a call without a body adds nothing.
abbrev pub joined : List (Option Bytes) → Option Bytes → Bytes
joined [] last = chunk last
joined (b ∷ bs) last = chunk b ++ joined bs last

module _ {H : Type 0} (headers : Headers H) where
  open headers use {status}

  -- The insertions made while a body comes in by the calls `bs`, and `last` with the end of the stream.
  unfoldable pub stream : List (Option Bytes) → Option Bytes → ProxyCtx H → List (Insertion H)
  stream [] last ctx = to_list (response_body_filter headers last true ctx).1
  stream (b ∷ bs) last ctx =
      to_list (response_body_filter headers b false ctx).1
      ++ stream bs last (response_body_filter headers b false ctx).0

  -- What is stored of a whole body.
  abbrev pub stored : Text → H → Bytes → List (Insertion H)
  stored key header body =
      if leb (length body) max_body then (key, cached_header headers header body, body) ∷ [] else []

  abbrev counted : Option Bytes → ProxyCtx H → ProxyCtx H
  counted b ctx = record ctx { response_bytes = count_bytes b ctx.response_bytes }

  off_step :
      (b : Option Bytes) (end : Bool) (ctx : ProxyCtx H)
      → ctx.should_cache ≡ false
      → response_body_filter headers b end ctx ≡ (counted b ctx, none)
  unfolding response_body_filter
  off_step b end ctx h = ground arith

  over_step :
      (b : Option Bytes) (end : Bool) (ctx : ProxyCtx H)
      → ctx.should_cache ≡ true
      → length ctx.response_body ≤ max_body
      → max_body < length ctx.response_body + length (chunk b)
      → response_body_filter headers b end ctx
        ≡ (record (counted b ctx) { should_cache = false; response_body = [] }, none)
  unfolding response_body_filter
  over_step none end ctx h fits over = absurd (omega (arith, fits, over))
  over_step (some b) end ctx h fits over = ground arith

  more_step :
      (b : Option Bytes) (ctx : ProxyCtx H)
      → ctx.should_cache ≡ true
      → length ctx.response_body + length (chunk b) ≤ max_body
      → response_body_filter headers b false ctx
        ≡ (record (counted b ctx) { response_body = ctx.response_body ++ chunk b }, none)
  unfolding response_body_filter
  more_step none ctx h fits = rw (h, append-nil) refl
  more_step (some b) ctx h fits = ground arith

  last_step :
      (b : Option Bytes) (ctx : ProxyCtx H) (header : H)
      → ctx.should_cache ≡ true
      → ctx.response_header ≡ some header
      → length ctx.response_body + length (chunk b) ≤ max_body
      → (response_body_filter headers b true ctx).1
        ≡ some (
          ctx.cache_key,
          cached_header headers header (ctx.response_body ++ chunk b),
          ctx.response_body ++ chunk b,
        )
  unfolding response_body_filter
  last_step none ctx header h e fits = rw (h, e, append-nil) refl
  last_step (some b) ctx header h e fits = ground arith

  stream_off :
      (bs : List (Option Bytes)) (last : Option Bytes) (ctx : ProxyCtx H)
      → ctx.should_cache ≡ false
      → stream bs last ctx ≡ []
  unfolding stream
  stream_off [] last ctx h = rw (off_step last true ctx h)
  stream_off (b ∷ bs) last ctx h =
      rw (off_step b false ctx h) (stream_off bs last (counted b ctx) h)

  stored_fits :
      (key : Text) (header : H) (body : Bytes)
      → length body ≤ max_body
      → stored key header body ≡ (key, cached_header headers header body, body) ∷ []
  stored_fits key header body h = ground arith

  stored_over :
      (key : Text) (header : H) (body : Bytes)
      → max_body < length body
      → stored key header body ≡ []
  stored_over key header body h = ground arith

  stream_on :
      (bs : List (Option Bytes)) (last : Option Bytes) (ctx : ProxyCtx H) (header : H)
      → ctx.should_cache ≡ true
      → length ctx.response_body ≤ max_body
      → ctx.response_header ≡ some header
      → stream bs last ctx ≡ stored ctx.cache_key header (ctx.response_body ++ joined bs last)
  unfolding stream
  stream_on [] last ctx header on small h =
      elim (dec_le (length ctx.response_body + length (chunk last)) max_body) [
        | yes fits ↦ rw (last_step last ctx header on h fits) (
            sym (
              stored_fits ctx.cache_key header (ctx.response_body ++ chunk last)
                (omega (arith, length-append ctx.response_body (chunk last)))))
        | no over ↦ rw (over_step last true ctx on small (omega arith)) (
            sym (
              stored_over ctx.cache_key header (ctx.response_body ++ chunk last)
                (omega (arith, length-append ctx.response_body (chunk last)))))
      ]
  stream_on (b ∷ bs) last ctx header on small h =
      elim (dec_le (length ctx.response_body + length (chunk b)) max_body) [
        | yes fits ↦ rw (more_step b ctx on fits) (
            stream_on bs last
              (record (counted b ctx) { response_body = ctx.response_body ++ chunk b }) header on
              (omega (arith, fits, length-append ctx.response_body (chunk b))) h
            ∙ ap (stored ctx.cache_key header)
                (append_assoc ctx.response_body (chunk b) (joined bs last)))
        | no over ↦ rw (over_step b false ctx on small (omega arith)) (
            stream_off bs last (record (counted b ctx) { should_cache = false; response_body = [] })
              refl
            ∙ sym (
                stored_over ctx.cache_key header (ctx.response_body ++ (chunk b ++ joined bs last))
                  (omega (
                    arith,
                    length-append ctx.response_body (chunk b ++ joined bs last),
                    length-append (chunk b) (joined bs last),
                  ))))
      ]

  abbrev is_stored : H → ProxyCtx H → Bool
  is_stored resp ctx = not (text_eq ctx.cache_key []) && (status resp == 200)

  filter_skips :
      (resp : H) (ctx : ProxyCtx H)
      → is_stored resp ctx ≡ false
      → response_filter headers resp ctx ≡ ctx
  unfolding response_filter text_eq
  filter_skips resp ctx h = ground arith

  filter_takes :
      (resp : H) (ctx : ProxyCtx H)
      → is_stored resp ctx ≡ true
      → response_filter headers resp ctx
        ≡ record ctx { should_cache = true; response_header = some resp }
  unfolding response_filter text_eq
  filter_takes resp ctx h = ground arith

  -- A body that comes in any number of calls, each with a chunk or without one, the last one too, is stored
  -- exactly if the request set a cache key, the status is 200 and the whole body has at most 5 MiB: then
  -- once, under that key and as the chunks one after the other, and otherwise not at all. It starts with
  -- nothing collected and with caching off, as a new context is.
  pub stream-response_filter :
      (bs : List (Option Bytes)) (last : Option Bytes) (resp : H) (ctx : ProxyCtx H)
      → ctx.should_cache ≡ false
      → ctx.response_body ≡ []
      → stream bs last (response_filter headers resp ctx) ≡ (
          if not (text_eq ctx.cache_key []) && (status resp == 200)
          then stored ctx.cache_key resp (joined bs last)
          else [])
  stream-response_filter bs last resp ctx off empty = elim (Bool-cases (is_stored resp ctx)) [
    | inl e ↦
        rw (filter_takes resp ctx e, e)
          (stream_on bs last (record ctx { should_cache = true; response_header = some resp }) resp
              refl (omega (arith, ap length empty)) refl
            ∙ ap (λ (body : Bytes). stored ctx.cache_key resp (body ++ joined bs last)) empty)
    | inr e ↦ rw (filter_skips resp ctx e, e) (stream_off bs last ctx off)
  ]
