-- ===== src/Sidecar.antt =====
-- src/bin/webex-headless.rs: the HTTP receiver of `sidecar receive`, as data. A text is the list of its
-- code points, a body the list of its bytes.
pub mod Lines
pub mod Request
pub mod Handler
pub mod Receiver
use webex_headless_messenger.Common.{ℕ, String, Option, List, Error}

abbrev pub Text : Type 0
Text = List ℕ

pub record HttpRequest : Type 0 where
  pub method : Text
  pub path : Text
  pub headers : List (Text × Text)
  pub body : List ℕ

-- The JSON of a response: `{"ok": true}`, or `{"ok": false}` with a text or with an error's text.
pub data ResponseBody : Type 0 where
  okay : ResponseBody
  refused : String → ResponseBody
  failed : Error → ResponseBody

pub record HttpResponse : Type 0 where
  pub status : ℕ
  pub body : ResponseBody
