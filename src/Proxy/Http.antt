-- ===== src/Proxy/Http.antt =====
-- What the proxy sees of a request and a response. A response header is pingora's `ResponseHeader`,
-- the parameter `Headers`; a body is the list of its bytes.
use nylon_run.Prelude.{ℕ, ◌≡◌, Bool, Option, List, Text}

pub record Headers (H : Type 0) : Type 0 where
  pub build : ℕ → H
  pub status : H → ℕ
  pub insert_header : Text → Text → H → H
  pub remove_header : Text → H → H
  pub status-build : (code : ℕ) → status (build code) ≡ code
  pub status-insert_header : (k v : Text) (h : H) → status (insert_header k v h) ≡ status h

-- `local_port` is that of the socket digest, `host` and `content_length` the headers of these names
-- where they are text, and `path` and `query` the two parts of the URI.
pub record HttpRequest : Type 0 where
  pub local_port : Option ℕ
  pub method : Text
  pub path : Text
  pub query : Option Text
  pub host : Option Text
  pub content_length : Option Text
  pub client_addr : Option Text
  pub is_tls : Bool

abbrev pub Bytes : Type 0
Bytes = List ℕ
