-- ===== src/Net/Http.antt =====
-- kernel/src/net/http.rs: a request, and the parser of a response. `transport` is the `https_request`
-- of kernel/src/net/tls.rs, which runs over the TCP sockets of a library.
pub mod Chunked
pub mod Decoding
pub mod Examples
use oci_kernel.Prelude.{
  ℕ, ◌+◌, ◌^◌, min, Bool, true, false, ◌&&◌, ltb, leb, ◌==◌, if◌then◌else◌, any, length, take, drop,
  position, Option, none, some, List, [], ◌∷◌, ◌++◌, Result, ok, err,
}
use oci_kernel.Prelude.Text.{
  Text, text, text_eq, is_empty, trim, starts_with, before_first, after_first, parse_unsigned,
  prepend,
}
use oci_kernel.Prelude.Utf8.{as_bytes, from_utf8}
use oci_kernel.Net.Http.Chunked.{parse_chunked, position_of, Decoded, decoded, bad_chunk}

pub record HttpResponse : Type 0 where
  pub status : ℕ
  pub headers : List (Text × Text)
  pub body : List ℕ

pub data HttpError (N : Type 0) : Type 0 where
  network : N → HttpError N
  invalid_response invalid_status invalid_chunk : HttpError N

abbrev pub crlf : Text
crlf = 13 ∷ 10 ∷ []

unfoldable pub header_lines : List (Text × Text) → Text
header_lines [] = []
header_lines ((k, v) ∷ hs) = k ++ (text ": " ++ (v ++ (crlf ++ header_lines hs)))

unfoldable pub request_text : Text → Text → List (Text × Text) → Text
unfolding header_lines
request_text host path extra_headers =
    text "GET "
    ++ (path
        ++ (text " HTTP/1.1\r\nHost: "
            ++ (host
                ++ (text "\r\nConnection: close\r\nUser-Agent: oci-kernel/0.1\r\n"
                    ++ (header_lines extra_headers ++ crlf)))))

-- `s.split("\r\n")`: at least one piece.
unfoldable pub split_crlf : Text → List Text
split_crlf [] = [] ∷ []
split_crlf (c ∷ []) = (c ∷ []) ∷ []
split_crlf (c ∷ d ∷ s) =
    let after = split_crlf s in
    let later = split_crlf (d ∷ s) in if (c == 13) && (d == 10) then [] ∷ after else prepend c later

unfoldable pub to_ascii_lowercase : Text → Text
to_ascii_lowercase [] = []
to_ascii_lowercase (c ∷ s) = (if leb b'A' c && leb c b'Z' then c + 32 else c) ∷ to_ascii_lowercase s

unfoldable pub eq_ignore_ascii_case : Text → Text → Bool
unfolding to_ascii_lowercase
eq_ignore_ascii_case s t = text_eq (to_ascii_lowercase s) (to_ascii_lowercase t)

unfoldable pub find_header_end : List ℕ → Option ℕ
find_header_end raw = position_of (crlf ++ crlf) raw

-- The parts of `splitn(3, ' ')`; only the second is used.
unfoldable pub status_code : Text → Option ℕ
status_code line = elim (after_first b' ' line) [
  | none ↦ none
  | some rest ↦ parse_unsigned (2 ^ 16) (before_first b' ' rest)
]

unfoldable pub parse_header : Text → Option (Text × Text)
parse_header line = elim (after_first b':' line) [
  | none ↦ none
  | some value ↦ some (trim (before_first b':' line), trim value)
]

-- The loop over the lines, which an empty line ends.
unfoldable pub parse_headers : List Text → List (Text × Text)
unfolding parse_header
parse_headers [] = []
parse_headers (line ∷ lines) =
    let rest = parse_headers lines in
    if is_empty line then [] else elim (parse_header line) [ none ↦ rest | some h ↦ h ∷ rest ]

unfoldable pub is_chunked_header : Text × Text → Bool
unfolding eq_ignore_ascii_case
is_chunked_header (k, v) =
    eq_ignore_ascii_case k (text "transfer-encoding")
    && eq_ignore_ascii_case (trim v) (text "chunked")

-- The value of the first header of a name.
unfoldable pub find_header : Text → List (Text × Text) → Option Text
unfolding eq_ignore_ascii_case
find_header name [] = none
find_header name ((k, v) ∷ hs) =
    let rest = find_header name hs in if eq_ignore_ascii_case k name then some v else rest

module _ (N : Type 0) where
  unfoldable pub parse_status : Text → Result ℕ (HttpError N)
  unfolding status_code
  parse_status line = elim (status_code line) [ none ↦ err invalid_status | some n ↦ ok n ]

  -- The length of the body that the headers name, cut to what there is.
  unfoldable pub sized_body : Option Text → List ℕ → Result (List ℕ) (HttpError N)
  sized_body none body_raw = ok body_raw
  sized_body (some v) body_raw = elim (parse_unsigned (2 ^ 64) (trim v)) [
    | none ↦ err invalid_response
    | some len ↦ ok (take (min len (length body_raw)) body_raw)
  ]

  unfoldable pub chunked_body : Decoded → Result (List ℕ) (HttpError N)
  chunked_body (decoded bytes) = ok bytes
  chunked_body bad_chunk = err invalid_chunk

  unfoldable pub body_of : List (Text × Text) → List ℕ → Result (List ℕ) (HttpError N)
  body_of headers body_raw =
      if any is_chunked_header headers
      then chunked_body (parse_chunked body_raw)
      else sized_body (find_header (text "content-length") headers) body_raw

  unfoldable pub parse_head : List Text → List ℕ → Result HttpResponse (HttpError N)
  parse_head [] body_raw = err invalid_status
  parse_head (status_line ∷ lines) body_raw = elim (parse_status status_line) [
    | err e ↦ err e
    | ok status ↦ elim (body_of (parse_headers lines) body_raw) [
      | err e ↦ err e
      | ok body ↦ ok (record { status = status; headers = parse_headers lines; body = body })
    ]
  ]

  unfoldable pub parse_response : List ℕ → Result HttpResponse (HttpError N)
  parse_response raw = elim (find_header_end raw) [
    | none ↦ err invalid_response
    | some sep ↦ elim (from_utf8 (take sep raw)) [
      | none ↦ err invalid_response
      | some header_str ↦ parse_head (split_crlf header_str) (drop (sep + 4) raw)
    ]
  ]

  -- `https_request(host, port, request)`, with the state of the network passed through.
  unfoldable pub get_with_headers :
      {S : Type 0} (transport : Text → ℕ → List ℕ → S → Result (List ℕ) N × S)
      → Text
      → Text
      → List (Text × Text)
      → S
      → Result HttpResponse (HttpError N) × S
  get_with_headers transport host path extra_headers s =
      let (raw, s') = transport host 443 (as_bytes (request_text host path extra_headers)) s in
      (elim raw [ err e ↦ err (network e) | ok bytes ↦ parse_response bytes ], s')

  unfoldable pub get :
      {S : Type 0} (transport : Text → ℕ → List ℕ → S → Result (List ℕ) N × S)
      → Text
      → Text
      → S
      → Result HttpResponse (HttpError N) × S
  get transport host path s = get_with_headers transport host path [] s
