-- ===== src/Proxy/Spa.antt =====
-- src/proxy.rs, `serve_spa` and `content_type`: files of a directory, and its index.html for every
-- path that names none of them. The file system is the parameter `Files`.
pub mod Confined
use nylon_run.Prelude.{
  ℕ, Bool, ◌==◌, Option, none, some, List, [], ◌∷◌, Text, codes, text_eq, trim_start, if◌then◌else◌,
  length, any,
}
use nylon_run.Prelude.Decimals.{decimal}
use nylon_run.Paths.{join_path, path_starts_with, extension}
use nylon_run.Proxy.Http.{Headers, Bytes}

pub record Files : Type 0 where
  pub canonicalize : Text → Option Text
  pub exists : Text → Bool
  pub read : Text → Option Bytes

-- The arms of the match on the extension.
abbrev content_types : List (List Text × Text)
content_types =
    (codes "html" ∷ [], codes "text/html; charset=utf-8")
    ∷ (codes "css" ∷ [], codes "text/css; charset=utf-8")
    ∷ (codes "js" ∷ codes "mjs" ∷ [], codes "application/javascript; charset=utf-8")
    ∷ (codes "json" ∷ [], codes "application/json; charset=utf-8")
    ∷ (codes "png" ∷ [], codes "image/png")
    ∷ (codes "jpg" ∷ codes "jpeg" ∷ [], codes "image/jpeg")
    ∷ (codes "gif" ∷ [], codes "image/gif")
    ∷ (codes "svg" ∷ [], codes "image/svg+xml")
    ∷ (codes "ico" ∷ [], codes "image/x-icon")
    ∷ (codes "webp" ∷ [], codes "image/webp")
    ∷ (codes "woff" ∷ [], codes "font/woff")
    ∷ (codes "woff2" ∷ [], codes "font/woff2")
    ∷ (codes "ttf" ∷ [], codes "font/ttf")
    ∷ (codes "otf" ∷ [], codes "font/otf")
    ∷ (codes "wasm" ∷ [], codes "application/wasm")
    ∷ (codes "xml" ∷ [], codes "application/xml")
    ∷ (codes "txt" ∷ [], codes "text/plain; charset=utf-8")
    ∷ (codes "pdf" ∷ [], codes "application/pdf")
    ∷ (codes "zip" ∷ [], codes "application/zip")
    ∷ (codes "mp4" ∷ [], codes "video/mp4")
    ∷ (codes "webm" ∷ [], codes "video/webm")
    ∷ (codes "mp3" ∷ [], codes "audio/mpeg")
    ∷ []

match_extension : Text → List (List Text × Text) → Text
match_extension e [] = codes "application/octet-stream"
match_extension e ((patterns, mime) ∷ arms) =
    if any (text_eq e) patterns then mime else match_extension e arms

unfoldable pub content_type : Text → Text
unfolding match_extension
content_type path = elim (extension path) [
  | none ↦ codes "application/octet-stream"
  | some e ↦ match_extension e content_types
]

module _ (fs : Files) where
  open fs use {canonicalize, exists, read}

  abbrev pub index_html : Text
  index_html = codes "index.html"

  -- The path below the directory that the URI names.
  unfoldable pub file_path : Text → Text → Text
  file_path dir uri_path = elim (trim_start (λ c. c == b'/') uri_path) [
    | [] ↦ join_path dir index_html
    | c ∷ clean ↦ join_path dir (c ∷ clean)
  ]

  inside : Text → Option Text → Text
  inside canonical_dir none = join_path canonical_dir index_html
  inside canonical_dir (some p) =
      if path_starts_with p canonical_dir then p else join_path canonical_dir index_html

  -- The file that is read.
  unfoldable pub resolve : Text → Text → Text
  unfolding inside
  resolve canonical_dir file =
      if exists file
      then inside canonical_dir (canonicalize file)
      else join_path canonical_dir index_html

  module _ {H : Type 0} (headers : Headers H) where
    open headers use {build, insert_header}

    pub text_plain : ℕ → H
    text_plain code = insert_header (codes "content-type") (codes "text/plain") (build code)

    send_file : Text → Option Bytes → H × Bytes
    unfolding text_plain
    send_file path none = (text_plain 404, codes "not found\n")
    send_file path (some content) = (
      insert_header (codes "content-length") (decimal (length content))
          (insert_header (codes "content-type") (content_type path) (build 200)),
      content,
    )

    serve_from : Text → Option Text → H × Bytes
    unfolding send_file text_plain
    serve_from file none = (text_plain 500, codes "SPA directory not found\n")
    serve_from file (some canonical_dir) =
        send_file (resolve canonical_dir file) (read (resolve canonical_dir file))

    unfoldable pub serve_spa : Text → Text → H × Bytes
    unfolding serve_from
    serve_spa uri_path dir = serve_from (file_path dir uri_path) (canonicalize dir)
