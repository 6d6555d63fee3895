-- ===== src/Http/ListBeast.antt =====
-- A library of header fields for tests: a list of names and values, compared byte by byte.
use mathlib.Core.Path.{refl}
use eventedge.Base.{
  Bool, true, false, List, [], ◌∷◌, Option, none, some, Text, codes, Text-discrete, ite, Outcome,
  ok, throw, invalid_argument, if◌then◌else◌,
}
use eventedge.Http.{Beast, HttpRequest, has_trace_body, Field, Verb, without, ErasesByName}

abbrev pub same_text : Text → Text → Bool
same_text s t = ite (Text-discrete s t) true false

abbrev pub Headers : Type 0
Headers = List (Text × Text)

abbrev pub field_name : Field → Text
field_name Field.server = codes "Server"
field_name Field.content_type = codes "Content-Type"
field_name Field.allow = codes "Allow"
field_name Field.authorization = codes "Authorization"
field_name Field.set_cookie = codes "Set-Cookie"
field_name Field.cache_control = codes "Cache-Control"
field_name Field.host = codes "Host"
field_name Field.connection = codes "Connection"
field_name Field.keep_alive = codes "Keep-Alive"
field_name Field.proxy_authenticate = codes "Proxy-Authenticate"
field_name Field.proxy_authorization = codes "Proxy-Authorization"
field_name Field.te = codes "TE"
field_name Field.trailer = codes "Trailer"
field_name Field.transfer_encoding = codes "Transfer-Encoding"
field_name Field.upgrade = codes "Upgrade"

abbrev pub find_header : Text → Headers → Option Text
find_header name [] = none
find_header name ((n, v) ∷ headers) =
    let rest = find_header name headers in elim (same_text name n) [ true ↦ some v | false ↦ rest ]

abbrev prepared : HttpRequest Headers → Outcome Headers
prepared request = if has_trace_body request then throw invalid_argument else ok request.fields

abbrev pub list_beast : Beast
list_beast = record {
  Fields = Headers;
  empty = [];
  name_of = field_name;
  same_name = same_text;
  entries = λ headers. headers;
  find = find_header;
  set = λ name value headers. (name, value) ∷ without (same_text name) headers;
  erase = λ name headers. without (same_text name) headers;
  keep_alive = λ version headers. true;
  set_keep_alive = λ version keep headers. headers;
  need_eof = λ response. false;
  default_request = record { method = Verb.get; target = []; version = 11; fields = []; body = [] };
  prepare_request = prepared;
  prepare_response = λ response. response.fields;
  prepares = λ request fits. (request.fields, rw fits refl);
  refuses = λ request refused. rw refused refl;
  default_has_none = refl;
}

pub list_beast-ErasesByName : ErasesByName list_beast
list_beast-ErasesByName name f = refl
